-- ===== src/Handlers/Erasure.antt =====
-- What is left of a user that beatstream/internal/handler/admin.go deletes.
use system_design_lab.Prelude.{
  ℕ, String, false, not, Option, none, some, List, [], ◌∷◌, map, ◌≡◌, refl, ap, inl, inr, eqb,
  eqb_iff, arith, Bool-cases,
}
use system_design_lab.Gin.{Ctx, param}
use system_design_lab.Middleware.Audit.{AuditRow}
use system_design_lab.Database.{Db, User}
use system_design_lab.Handlers.{Env, problem, no_content, select, any}
use system_design_lab.Handlers.Auth.{find_active, user_id_of, current_user, me}
use system_design_lab.Handlers.Admin.{is_logged, forget, delete_row, delete_user}

module _ {A : Type 0} (key : A → ℕ) where
  -- The rows of a key, and a test for one.
  abbrev pub rows_of : ℕ → List A → List A
  rows_of id as' = select (λ a. eqb (key a) id) as'

  abbrev without : ℕ → List A → List A
  without id as' = select (λ a. not (eqb (key a) id)) as'

  rows_of-without_self : (id : ℕ) (as' : List A) → rows_of id (without id as') ≡ []
  unfolding select
  rows_of-without_self id [] = refl
  rows_of-without_self id (a ∷ as') = ground (arith, rows_of-without_self id as')

  rows_of-without_other :
      (id j : ℕ) (as' : List A) → eqb id j ≡ false → rows_of j (without id as') ≡ rows_of j as'
  unfolding select
  rows_of-without_other id j [] other = refl
  rows_of-without_other id j (a ∷ as') other = ground (
    arith,
    other,
    rows_of-without_other id j as' other,
    eqb_iff (key a) id,
    eqb_iff (key a) j,
    eqb_iff id j,
  )

abbrev pub anonymous : AuditRow → AuditRow
anonymous r = record r { user_id = none }

any-forget :
    (cast : String → Option ℕ) (id : ℕ) (rs : List AuditRow)
    → any (is_logged cast id) (forget cast id rs) ≡ false
unfolding forget any
any-forget cast id [] = refl
any-forget cast id (r ∷ rs) = elim (Bool-cases (is_logged cast id r)) [
  | inl logged ↦ rw (forget, logged, any) (any-forget cast id rs)
  | inr other ↦ rw (forget, other, any, other) (any-forget cast id rs)
]

pub map-forget :
    (cast : String → Option ℕ) (id : ℕ) (rs : List AuditRow)
    → map anonymous (forget cast id rs) ≡ map anonymous rs
unfolding forget
map-forget cast id [] = refl
map-forget cast id (r ∷ rs) = elim (Bool-cases (is_logged cast id r)) [
  | inl logged ↦ rw (forget, logged) (ap (◌∷◌ (anonymous r)) (map-forget cast id rs))
  | inr other ↦ rw (forget, other) (ap (◌∷◌ (anonymous r)) (map-forget cast id rs))
]

-- Nothing of the user is in the three tables, and of the rest only the user's column of the log is
-- changed.
pub record IsErased (cast : String → Option ℕ) (id : ℕ) (db db' : Db) : Type 0 where
  pub no_user : rows_of (λ u. u.id) id db'.users ≡ []
  pub no_favorite : rows_of (λ f. f.user_id) id db'.favorites ≡ []
  pub no_log : any (is_logged cast id) db'.audit_logs ≡ false
  pub log_kept : map anonymous db'.audit_logs ≡ map anonymous db.audit_logs
  pub others :
      (j : ℕ)
      → eqb id j ≡ false
      → (rows_of (λ u. u.id) j db'.users ≡ rows_of (λ u. u.id) j db.users)
        × (rows_of (λ f. f.user_id) j db'.favorites ≡ rows_of (λ f. f.user_id) j db.favorites)
  pub tracks_kept : db'.tracks ≡ db.tracks
  pub playlists_kept : db'.playlists ≡ db.playlists

pub delete_row-IsErased :
    (cast : String → Option ℕ) (id : ℕ) (db : Db) → IsErased cast id db (delete_row cast id db)
unfolding delete_row
delete_row-IsErased cast id db = record {
  no_user = rows_of-without_self (λ u. u.id) id db.users;
  no_favorite = rows_of-without_self (λ f. f.user_id) id db.favorites;
  no_log = any-forget cast id db.audit_logs;
  log_kept = map-forget cast id db.audit_logs;
  others = λ j other. (
    rows_of-without_other (λ u. u.id) id j db.users other,
    rows_of-without_other (λ f. f.user_id) id j db.favorites other,
  );
  tracks_kept = refl;
  playlists_kept = refl;
}

pub delete_user_row :
    (env : Env) (c : Ctx) (db : Db) {id : ℕ}
    → env.cast (param c "id") ≡ some id
    → (delete_user env c db).0 ≡ no_content
    → (delete_user env c db).1 ≡ delete_row env.cast id db
unfolding delete_user
delete_user_row env c db {id = id} names h = elim (Bool-cases env.fails) [
  | inl down ↦ absurd (ground (arith, h, down))
  | inr up ↦ elim (Bool-cases (any (λ u. eqb u.id id) db.users)) [
    | inl there ↦ rw (up, delete_user, names, there)
    | inr absent ↦ absurd (ground (arith, h, up, names, absent))
  ]
]

not_active : (id : ℕ) (us : List User) → rows_of (λ u. u.id) id us ≡ [] → find_active id us ≡ none
unfolding select find_active
not_active id [] h = refl
not_active id (u ∷ us) h = ground (arith, h, not_active id us)

current_user_gone :
    (env : Env) (c : Ctx) (db : Db) {id : ℕ}
    → user_id_of env c ≡ some id
    → find_active id db.users ≡ none
    → current_user env c db ≡ none
unfolding current_user
current_user_gone env c db who gone = ground (arith, who, gone)

-- A deletion by an administrator that succeeds leaves no row with the user's id in the tables of users
-- and favorites, and no row of the audit log with the id in its user column. The log keeps its rows with
-- their other columns, also the resource's id, the address and the user agent. The rows of other users
-- in users and favorites, the tracks and the playlists stay as they are. The deletion makes every later request with the user's id answer 404 to Me.
pub delete_user-IsErased :
    (env env' : Env) (c c' : Ctx) (db : Db) (id : ℕ)
    → env.cast (param c "id") ≡ some id
    → (delete_user env c db).0 ≡ no_content
    → user_id_of env' c' ≡ some id
    → let db' = (delete_user env c db).1 in
      IsErased env.cast id db db' × (me env' c' db' ≡ problem 404 "user not found")
unfolding me
delete_user-IsErased env env' c c' db id names h who =
    let erased = delete_row-IsErased env.cast id db in
    let db' = delete_row env.cast id db in
    rw (delete_user_row env c db names h)
      (erased, rw (current_user_gone env' c' db' who (not_active id db'.users erased.no_user), me))
