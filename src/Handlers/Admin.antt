-- ===== src/Handlers/Admin.antt =====
-- beatstream/internal/handler/admin.go. The audit log keeps a user's id as a text.
use system_design_lab.Prelude.{
  ℕ, String, Bool, false, Option, none, some, List, [], ◌∷◌, map, length, take, eqb, ltb, text_eq,
  if◌then◌else◌, not,
}
use system_design_lab.Gin.{Ctx, param}
use system_design_lab.Middleware.Audit.{AuditRow}
use system_design_lab.Database.{Db, User}
use system_design_lab.Handlers.{Env, Reply, reply, problem, no_content, order_by, select, any}

pub record AdminUserView : Type 0 where
  pub id : ℕ
  pub email : String
  pub name : String
  pub role : String
  pub terms_version : ℕ
  pub deleted_at : Option ℕ
  pub created_at : ℕ

abbrev pub user_view : User → AdminUserView
user_view u = record {
  id = u.id;
  email = u.email;
  name = u.name;
  role = u.role;
  terms_version = u.terms_version;
  deleted_at = u.deleted_at;
  created_at = u.created_at;
}

pub record Listing (A : Type 0) : Type 0 where
  pub rows : List A
  pub count : ℕ

abbrev listing : {A : Type 0} → List A → Listing A
listing rows = record { rows = rows; count = length rows }

abbrev newer_user : User → User → Bool
newer_user u v = ltb v.created_at u.created_at

unfoldable pub list_users : Env → Db → Reply (Listing AdminUserView)
list_users env db =
    if env.fails
    then problem 500 "failed to list users"
    else reply 200 (listing (map user_view (take 200 (order_by newer_user db.users))))

pub record AuditEntry : Type 0 where
  pub user_id : Option String
  pub action : String
  pub resource_type : String
  pub resource_id : Option String
  pub ip_address : String

abbrev audit_entry : AuditRow → AuditEntry
audit_entry r = record {
  user_id = r.user_id;
  action = r.action;
  resource_type = r.resource_type;
  resource_id = r.resource_id;
  ip_address = r.ip_address;
}

-- The table has its newest row first, so that `ORDER BY created_at DESC` is its order.
unfoldable pub list_audit_logs : Env → Db → Reply (Listing AuditEntry)
list_audit_logs env db =
    if env.fails
    then problem 500 "failed to list audit logs"
    else reply 200 (listing (map audit_entry (take 500 db.audit_logs)))

-- Whether an audit row is of the user; the column is a UUID.
abbrev pub is_logged : (String → Option ℕ) → ℕ → AuditRow → Bool
is_logged cast id r = elim r.user_id [
  | none ↦ false
  | some text ↦ elim (cast text) [ none ↦ false | some u ↦ eqb u id ]
]

-- `ON DELETE SET NULL`
unfoldable pub forget : (String → Option ℕ) → ℕ → List AuditRow → List AuditRow
forget cast id [] = []
forget cast id (r ∷ rs) =
    let rest = forget cast id rs in
    if is_logged cast id r then record r { user_id = none } ∷ rest else r ∷ rest

-- `DELETE FROM users WHERE id = $1` and the cascades of the tables that refer to users.
unfoldable pub delete_row : (String → Option ℕ) → ℕ → Db → Db
unfolding forget
delete_row cast id db = record db {
  users = select (λ u. not (eqb u.id id)) db.users;
  favorites = select (λ f. not (eqb f.user_id id)) db.favorites;
  audit_logs = forget cast id db.audit_logs;
}

unfoldable pub delete_user : Env → Ctx → Db → Reply Unit × Db
unfolding delete_row
delete_user env c db =
    if env.fails then (problem 404 "user not found", db) else elim (env.cast (param c "id")) [
      | none ↦ (problem 404 "user not found", db)
      | some id ↦
          if any (λ u. eqb u.id id) db.users
          then (no_content, delete_row env.cast id db)
          else (problem 404 "user not found", db)
    ]
