-- ===== src/Api/Protection.antt =====
-- What the guards of the routes in beatstream/cmd/api/main.go and the audit log of
-- beatstream/internal/middleware/audit.go guarantee, whatever the handlers do.
use system_design_lab.Prelude.{
  ℕ, zero, suc, String, Bool, true, false, not, some, List, [], ◌∷◌, get_elem?, all, ◌≡◌, refl, ap,
  ◌∙◌, ◌⊎◌, inl, inr, ◌==◌, ◌||◌, text_eq, if◌then◌else◌, arith, Bool-cases, Option-cases,
}
use system_design_lab.Prelude.Assoc.{is_some}
use system_design_lab.Prelude.Texts.{split, strip_prefix, drop_last}
use system_design_lab.Gin.{Ctx}
use system_design_lab.Middleware.Jwt.{Claims, claim, require_role, is_role}
use system_design_lab.Middleware.Access.{Authenticated, require_auth_cases}
use system_design_lab.Middleware.Audit.{
  AuditRow, Outcome, responded, audit_log, audit_row, build_action, is_read,
}
use system_design_lab.Api.{
  Guard, require_auth_guard, require_admin_guard, login_limit, stream_limit, Handler,
  admin_list_users, admin_delete_user, admin_list_audit_logs, Route, routes, Server, run_guard,
  run_chain, serve,
}

-- A row of the route table.
abbrev pub IsRoute : ℕ → Route → Type 0
IsRoute i r = get_elem? routes i ≡ some r

-- Registering and logging in are for everyone.
abbrev pub is_open : Route → Bool
is_open r = r.path == "/v1/auth/register" || r.path == "/v1/auth/login"

abbrev begins_with_auth : List Guard → Bool
begins_with_auth [] = false
begins_with_auth (login_limit ∷ gs) = false
begins_with_auth (require_auth_guard ∷ gs) = true
begins_with_auth (require_admin_guard ∷ gs) = false
begins_with_auth (stream_limit ∷ gs) = false

abbrev pub is_admin_chain : List Guard → Bool
is_admin_chain (require_auth_guard ∷ require_admin_guard ∷ []) = true
is_admin_chain _ = false

abbrev pub is_admin_handler : Handler → Bool
is_admin_handler admin_list_users = true
is_admin_handler admin_delete_user = true
is_admin_handler admin_list_audit_logs = true
is_admin_handler _ = false

-- A test that all rows pass is passed by each.
pub all_rows :
    (p : Route → Bool) (rs : List Route) (i : ℕ) {r : Route}
    → all p rs ≡ true
    → get_elem? rs i ≡ some r
    → p r ≡ true
all_rows p [] i h e = cc
all_rows p (x ∷ xs) zero h e = ground arith
all_rows p (x ∷ xs) (suc i) h e = all_rows p xs i (ground arith) e

writes_guarded :
    all (λ r. is_read r.method || (is_open r || begins_with_auth r.guards)) routes ≡ true
writes_guarded = refl

pub admin_guarded :
    all (λ r. not (is_admin_handler r.handler) || is_admin_chain r.guards) routes ≡ true
admin_guarded = refl

actions_named : all (λ r. is_some (build_action r.method r.path)) routes ≡ true
unfolding build_action split strip_prefix drop_last
actions_named = refl

named :
    (i : ℕ) (r : Route)
    → IsRoute i r
    → (action : String) × (build_action r.method r.path ≡ some action)
named i r e = elim (Option-cases (build_action r.method r.path)) [
  | inl missing ↦ absurd (
      ground (
        arith,
        missing,
        all_rows (λ r. is_some (build_action r.method r.path)) routes i actions_named e,
      ))
  | inr found ↦ found
]

module _ {W : Type 0} (record_row : AuditRow → W → W) (rest : Ctx → W → ℕ × Ctx × W) (c : Ctx)
    (w : W) where
  audit_log_read :
      is_read c.method ≡ true
      → audit_log record_row rest c w ≡ responded (rest c w).0 (rest c w).1 (rest c w).2
  unfolding audit_log
  audit_log_read reads = rw reads

  audit_log_write :
      {action : String}
      → is_read c.method ≡ false
      → build_action c.method (rest c w).1.full_path ≡ some action
      → audit_log record_row rest c w
        ≡ responded
            (rest c w).0
            (rest c w).1
            (record_row (audit_row (rest c w).1 (rest c w).0 action) (rest c w).2)
  unfolding audit_log
  audit_log_write writes n = rw (writes, n)

module _ {W : Type 0} (server : Server W) where
  -- No token of the request parses under the server's secret.
  abbrev pub IsAnonymous : Ctx → Type 0
  IsAnonymous c = (claims : Claims) → ¬ Authenticated server.jwt server.secret c claims

  -- No token of the request gives the role admin.
  abbrev pub IsNoAdmin : Ctx → Type 0
  IsNoAdmin c =
      (claims : Claims)
      → Authenticated server.jwt server.secret c claims
      → is_role (claim claims "role") "admin" ≡ false

  answered : String → ℕ → Ctx → W → Outcome W
  answered action status c w = responded status c (server.record_row (audit_row c status action) w)

  chain_stops :
      (gs : List Guard) (h : Handler) (c : Ctx) (w : W)
      → begins_with_auth gs ≡ true
      → IsAnonymous c
      → run_chain server gs h c w ≡ (401, c, w)
  unfolding run_chain run_guard
  chain_stops (require_auth_guard ∷ gs) h c w b anonymous =
      elim (require_auth_cases server.jwt server.secret c) [
        | inl (claims, c', a, e, who) ↦ absurd (anonymous claims a)
        | inr (never, message, e) ↦ rw (e, run_chain)
      ]
  chain_stops _ h c w b anonymous = cc

  -- A writing request to any route but registration and login that carries no token which parses
  -- under the server's secret gets 401, reaches no handler, and changes nothing but that the audit
  -- log records it.
  pub anonymous_write :
      (i : ℕ) (r : Route) (c : Ctx) (w : W)
      → IsRoute i r
      → is_read r.method ≡ false
      → is_open r ≡ false
      → c.method ≡ r.method
      → c.full_path ≡ r.path
      → IsAnonymous c
      → (action : String) × (build_action r.method r.path ≡ some action)
        × (serve server r c w ≡ responded 401 c (server.record_row (audit_row c 401 action) w))
  unfolding serve answered
  anonymous_write i r c w e writes closed m p anonymous =
      let (action, n) = named i r e in
      let guarded =
        all_rows (λ r. is_read r.method || (is_open r || begins_with_auth r.guards)) routes i
          writes_guarded e in
      let stopped =
        chain_stops r.guards r.handler c w (ground (arith, guarded, writes, closed)) anonymous in
      (
        action,
        n,
        audit_log_write server.record_row (run_chain server r.guards r.handler) c w
              (ap is_read m ∙ writes) (rw (stopped, m, p) n)
            ∙ ap (λ o. answered action o.0 o.1 o.2) stopped,
      )

  admin_stops :
      (gs : List Guard) (h : Handler) (c : Ctx) (w : W)
      → is_admin_chain gs ≡ true
      → IsNoAdmin c
      → (status : ℕ) × (c' : Ctx) × (run_chain server gs h c w ≡ (status, c', w))
        × ((status ≡ 401) ⊎ (status ≡ 403))
  unfolding run_chain run_guard require_role
  admin_stops (require_auth_guard ∷ require_admin_guard ∷ []) h c w b no_admin =
      elim (require_auth_cases server.jwt server.secret c) [
        | inl (claims, c', a, e, who) ↦
            (403, c', rw (e, run_chain, who.role, no_admin claims a), inr refl)
        | inr (never, message, e) ↦ (401, c, rw (e, run_chain), inl refl)
      ]
  admin_stops _ h c w b no_admin = cc

  -- The chain of an admin route stops every request without a token that gives the role admin, with
  -- 401 or 403, before its handler and with the state unchanged.
  pub admin_only_admins :
      (i : ℕ) (r : Route) (c : Ctx) (w : W)
      → IsRoute i r
      → is_admin_handler r.handler ≡ true
      → IsNoAdmin c
      → (status : ℕ) × (c' : Ctx) × (run_chain server r.guards r.handler c w ≡ (status, c', w))
        × ((status ≡ 401) ⊎ (status ≡ 403))
  admin_only_admins i r c w e admin no_admin =
      let guarded =
        all_rows (λ r. not (is_admin_handler r.handler) || is_admin_chain r.guards) routes i
          admin_guarded e in
      admin_stops r.guards r.handler c w (ground (arith, guarded, admin)) no_admin

  -- On every route the audit log passes the response on: it never panics, a reading request leaves
  -- no row, and a writing one leaves one row, with the response's status, if the handlers leave the
  -- matched path as it was.
  pub audited :
      (i : ℕ) (r : Route) (c : Ctx) (w : W)
      → IsRoute i r
      → c.method ≡ r.method
      → (run_chain server r.guards r.handler c w).1.full_path ≡ r.path
      → let (status, c', w') = run_chain server r.guards r.handler c w in
        (action : String) × (build_action r.method r.path ≡ some action)
        × (serve server r c w
            ≡ responded status c' (
                if is_read r.method then w' else server.record_row (audit_row c' status action) w'))
  unfolding serve
  audited i r c w e m p =
      let (action, n) = named i r e in
      let rest = run_chain server r.guards r.handler in
      (
        action,
        n,
        elim (Bool-cases (is_read r.method)) [
          | inl reads ↦ rw reads (audit_log_read server.record_row rest c w (ap is_read m ∙ reads))
          | inr writes ↦ rw writes (
              audit_log_write server.record_row rest c w (ap is_read m ∙ writes) (
                ap (λ x. build_action x (rest c w).1.full_path) m
                ∙ ap (build_action r.method) p
                ∙ n))
        ],
      )
