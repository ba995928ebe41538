-- ===== src/Api/Headers.antt =====
-- The headers that every response of beatstream/cmd/api/main.go carries.
use system_design_lab.Prelude.{
  ℕ, String, Bool, true, false, some, List, [], ◌∷◌, elem, ◌≡◌, refl, sym, ap, ◌∙◌, inl, inr, ◌⊎◌,
  ◌==◌, ◌&&◌, text_eq, if◌then◌else◌, Bool-cases, Option-cases,
}
use system_design_lab.Prelude.Assoc.{get, get-put}
use system_design_lab.Gin.{Ctx, Verdict, next, abort, get_header}
use system_design_lab.Middleware.Access.{left, require_auth_headers, require_role_headers}
use system_design_lab.Middleware.Cors.{build_csp, security_headers}
use system_design_lab.Middleware.Stamps.{request_id}
use system_design_lab.Middleware.Audit.{
  responded, panicked, audit_log, audit_row, build_action, is_read,
}
use system_design_lab.Middleware.Logging.{LogRequest, log_line}
use system_design_lab.Api.{
  Guard, require_auth_guard, require_admin_guard, login_limit, stream_limit, Handler, Route, routes,
  Server, run_guard, run_chain, serve,
}
use system_design_lab.Api.Stack.{
  find_route, respond, is_health, ready_status, Final, sent, recovered, redirected, stack,
}

-- The headers that the outer middleware sets.
abbrev pub protected : List String
protected =
    "X-Request-ID" ∷ "X-Content-Type-Options" ∷ "X-Frame-Options" ∷ "X-XSS-Protection"
    ∷ "Strict-Transport-Security" ∷ "Content-Security-Policy" ∷ "Referrer-Policy"
    ∷ "Permissions-Policy" ∷ []

-- The protected headers of one context are those of another.
abbrev pub Keeps : Ctx → Ctx → Type 0
Keeps c c' = (name : String) → elem name protected ≡ true → get c'.headers name ≡ get c.headers name

abbrev pub final_ctx : {W : Type 0} → Final W → Ctx
final_ctx (sent status c line labels w) = c
final_ctx (recovered c) = c
final_ctx (redirected status c) = c

pub record IsStamped (origins id : String) (c : Ctx) : Type 0 where
  pub request : get c.headers "X-Request-ID" ≡ some id
  pub sniff : get c.headers "X-Content-Type-Options" ≡ some "nosniff"
  pub frame : get c.headers "X-Frame-Options" ≡ some "DENY"
  pub xss : get c.headers "X-XSS-Protection" ≡ some "1; mode=block"
  pub transport :
      get c.headers "Strict-Transport-Security" ≡ some "max-age=31536000; includeSubDomains"
  pub content : get c.headers "Content-Security-Policy" ≡ some (build_csp origins)
  pub referrer : get c.headers "Referrer-Policy" ≡ some "strict-origin-when-cross-origin"
  pub permissions :
      get c.headers "Permissions-Policy" ≡ some "camera=(), microphone=(), geolocation=()"

abbrev pub id_of : String → Ctx → String
id_of uuid c = if get_header c "X-Request-ID" == "" then uuid else get_header c "X-Request-ID"

abbrev stamped : String → String → Ctx → Ctx
stamped uuid origins c = left (security_headers origins (left (request_id uuid c)))

stamped-IsStamped :
    (uuid origins : String) (c : Ctx) → IsStamped origins (id_of uuid c) (stamped uuid origins c)
unfolding security_headers request_id
stamped-IsStamped uuid origins c = record {
  request = simp get-put;
  sniff = simp get-put;
  frame = simp get-put;
  xss = simp get-put;
  transport = simp get-put;
  content = simp get-put;
  referrer = simp get-put;
  permissions = simp get-put;
}

Keeps-IsStamped :
    (origins id : String) (c c' : Ctx)
    → IsStamped origins id c
    → Keeps c c'
    → IsStamped origins id c'
unfolding elem
Keeps-IsStamped origins id c c' h k = record {
  request = k "X-Request-ID" refl ∙ h.request;
  sniff = k "X-Content-Type-Options" refl ∙ h.sniff;
  frame = k "X-Frame-Options" refl ∙ h.frame;
  xss = k "X-XSS-Protection" refl ∙ h.xss;
  transport = k "Strict-Transport-Security" refl ∙ h.transport;
  content = k "Content-Security-Policy" refl ∙ h.content;
  referrer = k "Referrer-Policy" refl ∙ h.referrer;
  permissions = k "Permissions-Policy" refl ∙ h.permissions;
}

pub Verdict-cases :
    (v : Verdict)
    → ((c : Ctx) × (v ≡ next c))
      ⊎ ((status : ℕ) × (message : String) × (c : Ctx) × (v ≡ abort status message c))
Verdict-cases (next c) = inl (c, refl)
Verdict-cases (abort status message c) = inr (status, message, c, refl)

module _ {W : Type 0} (server : Server W) where
  -- The handlers and the limiters leave the protected headers alone.
  pub record IsPolite : Type 0 where
    pub handles : (h : Handler) (c : Ctx) (w : W) → Keeps c (server.handle h c w).1
    pub limits_login : (c : Ctx) (w : W) → Keeps c (left (server.limit_login c w).0)
    pub limits_stream : (c : Ctx) (w : W) → Keeps c (left (server.limit_stream c w).0)

  run_guard-Keeps :
      IsPolite → (g : Guard) (c : Ctx) (w : W) → Keeps c (left (run_guard server g c w).0)
  unfolding run_guard
  run_guard-Keeps polite login_limit c w = polite.limits_login c w
  run_guard-Keeps polite require_auth_guard c w =
      λ name h. ap (λ hs. get hs name) (require_auth_headers server.jwt server.secret c)
  run_guard-Keeps polite require_admin_guard c w =
      λ name h. ap (λ hs. get hs name) (require_role_headers "admin" c)
  run_guard-Keeps polite stream_limit c w = polite.limits_stream c w

  run_chain-Keeps :
      IsPolite
      → (gs : List Guard) (h : Handler) (c : Ctx) (w : W) → Keeps c (run_chain server gs h c w).1
  unfolding run_chain
  run_chain-Keeps polite [] h c w = polite.handles h c w
  run_chain-Keeps polite (g ∷ gs) h c w =
      let before = run_guard-Keeps polite g c w in
      elim (Verdict-cases (run_guard server g c w).0) [
        | inl (c', e) ↦ λ name p.
            rw (e, run_chain)
              (run_chain-Keeps polite gs h c' (run_guard server g c w).1 name p
                ∙ ap (λ v. get (left v).headers name) (sym e)
                ∙ before name p)
        | inr (status, message, c', e) ↦ λ name p.
            rw (e, run_chain) (ap (λ v. get (left v).headers name) (sym e) ∙ before name p)
      ]

  serve-Keeps :
      IsPolite
      → (r : Route) (c : Ctx) (w : W)
      → (serve server r c w ≡ panicked)
        ⊎ ((status : ℕ) × (c' : Ctx) × (w' : W) × (serve server r c w ≡ responded status c' w')
            × Keeps c c')
  unfolding serve audit_log
  serve-Keeps polite r c w =
      let (status, c', w') = run_chain server r.guards r.handler c w in
      let kept = run_chain-Keeps polite r.guards r.handler c w in
      elim (Bool-cases (is_read c.method)) [
        | inl reads ↦ inr (status, c', w', rw (reads, serve), kept)
        | inr writes ↦ elim (Option-cases (build_action c.method c'.full_path)) [
          | inl none_there ↦ inl (rw (writes, serve, none_there))
          | inr (action, e) ↦ inr (
            status,
            c',
            server.record_row (audit_row c' status action) w',
            rw (writes, serve, e),
            kept,
          )
        ]
      ]

  respond-Keeps :
      IsPolite
      → (ping_fails : Bool) (c : Ctx) (w : W)
      → (respond server ping_fails c w ≡ panicked)
        ⊎ ((status : ℕ) × (c' : Ctx) × (w' : W) × (respond server ping_fails c w
              ≡ responded status c' w')
            × Keeps c c')
  unfolding respond
  respond-Keeps polite ping_fails c w = elim (Bool-cases (is_health c)) [
    | inl health ↦ inr (200, c, w, rw (health, respond), λ name p. refl)
    | inr other ↦ elim (Bool-cases (c.method == "GET" && c.full_path == "/ready")) [
      | inl ready ↦ inr (ready_status ping_fails, c, w, rw (other, respond, ready), λ name p. refl)
      | inr routed ↦ elim (Option-cases (find_route c.method c.full_path routes)) [
        | inl none_there ↦ inr (404, c, w, rw (other, respond, routed, none_there), λ name p. refl)
        | inr (r, e) ↦ rw (other, respond, routed, e) (serve-Keeps polite r c w)
      ]
    ]
  ]

  -- Every response of the server to a request that gin does not redirect carries the request id, the client's own or the new one, and the
  -- seven security headers, whether it comes from a handler, a guard, a health endpoint, gin's 404 or
  -- gin's recovery from a panic of the audit log or the logger, when handlers and limiters leave these
  -- headers alone.
  pub stack-IsStamped :
      IsPolite
      → (ping_fails : Bool) (uuid origins : String) (r : LogRequest) (c : Ctx) (w : W)
      → IsStamped origins
          (id_of uuid c)
          (final_ctx (stack server ping_fails false uuid origins r c w))
  unfolding stack
  stack-IsStamped polite ping_fails uuid origins r c w =
      let first = stamped-IsStamped uuid origins c in
      elim (respond-Keeps polite ping_fails (stamped uuid origins c) w) [
        | inl e ↦ rw (e, stack) first
        | inr (status, c', w', e, kept) ↦
            let last =
              Keeps-IsStamped origins (id_of uuid c) (stamped uuid origins c) c' first kept in
            elim (Option-cases (log_line r c' status)) [
              | inl none_there ↦ rw (e, stack, none_there) last
              | inr (line, logged) ↦ rw (e, stack, logged) last
            ]
      ]
