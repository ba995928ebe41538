-- ===== src/App/Unlogged.antt =====
-- An administrator's deletion of the own account through the server of beatstream/cmd/api/main.go.
use mathlib.Core.Path.{subst}
use system_design_lab.Prelude.{
  ℕ, String, Bool, true, false, some, List, [], ◌∷◌, eqb, ◌≡◌, refl, sym, ap, ◌∙◌, inl, inr, ◌==◌,
  text_eq, arith, Bool-cases,
}
use system_design_lab.Gin.{Ctx, next, or_empty, str, param, get_key}
use system_design_lab.Middleware.Jwt.{Claims, claim, require_auth, require_role, is_role}
use system_design_lab.Middleware.Access.{Authenticated, require_auth_cases, left}
use system_design_lab.Middleware.Audit.{responded, audit_row, nullable_str}
use system_design_lab.Database.{Db, User}
use system_design_lab.Handlers.{any, select, no_content}
use system_design_lab.App.Serving.{Follows, require_auth-Follows}
use system_design_lab.Prelude.Assoc.{get}
use system_design_lab.Handlers.Admin.{delete_user, delete_row}
use system_design_lab.Handlers.Erasure.{rows_of, delete_row-IsErased}
use system_design_lab.Api.{
  require_auth_guard, require_admin_guard, admin_delete_user, Route, run_guard, run_chain, serve,
}
use system_design_lab.Api.Stack.{find_route, respond}
use system_design_lab.Api.Protection.{audited}
use system_design_lab.App.{Site, Input, State, server, dispatch, insert_log, set_db}

held_inj : {a b : Claims} → some a ≡ some b → a ≡ b
held_inj e = cc

not_there :
    (id : ℕ) (us : List User) → rows_of (λ u. u.id) id us ≡ [] → any (λ u. eqb u.id id) us ≡ false
unfolding select any
not_there id [] h = refl
not_there id (u ∷ us) h = ground (arith, h, not_there id us)

abbrev deletion : Route
deletion = record {
  method = "DELETE";
  path = "/v1/admin/users/:id";
  guards = require_auth_guard ∷ require_admin_guard ∷ [];
  handler = admin_delete_user;
}

module _ {F : Type 0} (site : Site F) (i : Input) where
  -- An administrator, with a token, asks to delete the user that the token names, who is in the table.
  pub record IsOwnDeletion (c : Ctx) (w : State site) (id : ℕ) : Type 0 where
    pub claims : Claims
    pub text : String
    pub method : c.method ≡ "DELETE"
    pub path : c.full_path ≡ "/v1/admin/users/:id"
    pub names : i.env.cast (param c "id") ≡ some id
    pub token : Authenticated site.jwt site.secret c claims
    pub admin : is_role (claim claims "role") "admin" ≡ true
    pub own : claim claims "user_id" ≡ str text
    pub same : i.env.cast text ≡ some id
    pub given : (text == "") ≡ false
    pub works : i.env.fails ≡ false
    pub there : any (λ u. eqb u.id id) w.uploads.db.users ≡ true

  abbrev pub without_user : State site → ℕ → State site
  without_user w id = set_db site w (delete_row i.env.cast id w.uploads.db)

  delete_user_lem :
      (c : Ctx) (db : Db) (id : ℕ)
      → i.env.cast (param c "id") ≡ some id
      → i.env.fails ≡ false
      → any (λ u. eqb u.id id) db.users ≡ true
      → delete_user i.env c db ≡ (no_content, delete_row i.env.cast id db)
  unfolding delete_user
  delete_user_lem c db id names works there = rw (works, delete_user, names, there)

  admitted :
      (c c' : Ctx) (w : State site)
      → require_auth site.jwt site.secret c ≡ next c'
      → is_role (get_key c' "user_role") "admin" ≡ true
      → run_chain (server site i) deletion.guards deletion.handler c w
        ≡ (server site i).handle admin_delete_user c' w
  unfolding run_chain run_guard require_role server
  admitted c c' w e role = rw (e, run_chain, role)

  handled_lem :
      (c : Ctx) (w : State site) (db : Db)
      → delete_user i.env c w.uploads.db ≡ (no_content, db)
      → (server site i).handle admin_delete_user c w ≡ (204, c, set_db site w db)
  unfolding server dispatch
  handled_lem c w db e = rw e

  -- The chain of the route: the deletion succeeds, with the user's id in the context.
  deleted :
      (c : Ctx) (w : State site) (id : ℕ) (h : IsOwnDeletion c w id)
      → (c' : Ctx) × (run_chain (server site i) deletion.guards deletion.handler c w
          ≡ (204, c', without_user w id))
        × (get_key c' "user_id" ≡ str h.text)
        × (c'.full_path ≡ "/v1/admin/users/:id")
  deleted c w id h = elim (require_auth_cases site.jwt site.secret c) [
    | inr (never, message, e) ↦ absurd (never h.claims h.token)
    | inl (claims, c', a, e, who) ↦
        let same : claims ≡ h.claims = held_inj (sym a.held ∙ h.token.held) in
        let role : is_role (get_key c' "user_role") "admin" ≡ true =
          ap (λ v. is_role v "admin") (who.role ∙ ap (λ m. claim m "role") same) ∙ h.admin in
        let follows : Follows c c' =
          subst (λ v. Follows c (left v)) e (require_auth-Follows site.jwt site.secret c) in
        let names : i.env.cast (param c' "id") ≡ some id =
          ap (λ ps. i.env.cast (or_empty (get ps "id"))) follows.params ∙ h.names in
        (
          c',
          admitted c c' w e role
              ∙ handled_lem c' w (delete_row i.env.cast id w.uploads.db)
                  (delete_user_lem c' w.uploads.db id names h.works h.there),
          who.user_id ∙ ap (λ m. claim m "user_id") same ∙ h.own,
          follows.full_path ∙ h.path,
        )
  ]

  unlisted :
      (c : Ctx) (db : Db) (id : ℕ) (text action : String)
      → get_key c "user_id" ≡ str text
      → i.env.cast text ≡ some id
      → (text == "") ≡ false
      → any (λ u. eqb u.id id) db.users ≡ false
      → insert_log i.audit_fails i.env.cast (audit_row c 204 action) db ≡ db
  unfolding insert_log audit_row nullable_str
  unlisted c db id text action own same given gone = elim (Bool-cases i.audit_fails) [
    | inl down ↦ rw (down, insert_log)
    | inr up ↦ rw (up, insert_log, own, audit_row, given, same, gone)
  ]

  respond-deletion :
      (ping_fails : Bool) (c : Ctx) (w : State site)
      → c.method ≡ "DELETE"
      → c.full_path ≡ "/v1/admin/users/:id"
      → respond (server site i) ping_fails c w ≡ serve (server site i) deletion c w
  unfolding respond find_route
  respond-deletion ping_fails c w m p = simp (m, p, respond)

  -- When an administrator deletes the account that the token of the request is for, and the statement
  -- does not fail, the answer is 204, and all that has changed is the deletion: the audit log gets no
  -- entry for it, as that would refer to a user who is no longer in the table.
  pub self_deletion_unlogged :
      (ping_fails : Bool) (c : Ctx) (w : State site) (id : ℕ)
      → IsOwnDeletion c w id
      → (c' : Ctx) × (respond (server site i) ping_fails c w ≡ responded 204 c' (without_user w id))
  unfolding server
  self_deletion_unlogged ping_fails c w id h =
      let (c', chain, own, path) = deleted c w id h in
      let (action, named, e) =
        audited (server site i) 6 deletion c w refl h.method
          (ap (λ o. o.1.full_path) chain ∙ path) in
      let gone =
        not_there id (delete_row i.env.cast id w.uploads.db).users
          (delete_row-IsErased i.env.cast id w.uploads.db).no_user in
      let skipped =
        unlisted c' (delete_row i.env.cast id w.uploads.db) id h.text action own h.same h.given
          gone in
      (
        c',
        respond-deletion ping_fails c w h.method h.path
            ∙ e
            ∙ ap
                (λ (o : ℕ × Ctx × State site).
                  responded o.0 o.1 ((server site i).record_row (audit_row o.1 o.0 action) o.2))
                chain
            ∙ ap (λ db. responded 204 c' (set_db site w db)) skipped,
      )
