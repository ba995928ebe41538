-- ===== src/App/Serving.antt =====
-- How the server of beatstream/cmd/api/main.go answers one request, whatever it is: the route, its
-- guards, its handler and the audit log.
use mathlib.Core.Path.{subst}
use text.Mathlib.TextEquality.{eq_iff}
use system_design_lab.Prelude.{
  ℕ, String, Bool, true, false, List, [], ◌∷◌, elem, ◌≡◌, refl, ap, ◌∙◌, inl, inr, ◌⊎◌, ◌==◌,
  text_eq, arith, Bool-cases,
}
use system_design_lab.Prelude.Assoc.{get-put}
use system_design_lab.Gin.{Ctx, next}
use system_design_lab.Middleware.Jwt.{JwtLibrary, set_user, require_auth, require_role}
use system_design_lab.Middleware.Access.{left}
use system_design_lab.Middleware.Logging.{LogRequest}
use system_design_lab.Limits
use system_design_lab.Api.{
  Guard, login_limit, require_auth_guard, require_admin_guard, stream_limit, Handler, run_guard,
  run_chain,
}
use system_design_lab.Api.Stack.{stack}
use system_design_lab.Api.Headers.{
  protected, Keeps, IsPolite, IsStamped, id_of, final_ctx, stack-IsStamped, Verdict-cases,
}
use system_design_lab.App
use system_design_lab.App.{Site, Input, State, dispatch, server}

-- A name that is not one of the protected headers.
set_header-apart :
    (key name : String)
    → elem key protected ≡ false
    → elem name protected ≡ true
    → (key == name) ≡ false
set_header-apart key name h p = elim (Bool-cases (key == name)) [
  | inl same ↦ cc (ap (λ k. elem k protected) ((eq_iff key name).0 same), h, p)
  | inr differs ↦ differs
]

-- The middleware leaves what the client has sent.
pub record Follows (c c' : Ctx) : Type 0 where
  pub method : c'.method ≡ c.method
  pub full_path : c'.full_path ≡ c.full_path
  pub params : c'.params ≡ c.params

Follows-refl : (c : Ctx) → Follows c c
Follows-refl c = record { method = refl; full_path = refl; params = refl }

Follows-trans : {c c' c'' : Ctx} → Follows c c' → Follows c' c'' → Follows c c''
Follows-trans h k = record {
  method = k.method ∙ h.method;
  full_path = k.full_path ∙ h.full_path;
  params = k.params ∙ h.params;
}

pub require_auth-Follows :
    (jwt : JwtLibrary) (secret : String) (c : Ctx) → Follows c (left (require_auth jwt secret c))
unfolding require_auth set_user
require_auth-Follows jwt secret c = record {
  method = ground arith;
  full_path = ground arith;
  params = ground arith;
}

require_role-Follows : (role : String) (c : Ctx) → Follows c (left (require_role role c))
unfolding require_role
require_role-Follows role c = record {
  method = ground arith;
  full_path = ground arith;
  params = ground arith;
}

module _ {F : Type 0} (site : Site F) (i : Input) where
  login_limit-Follows :
      (c : Ctx) (w : State site) → Follows c (left ((server site i).limit_login c w).0)
  unfolding server App.limit_login Limits.login_limit
  login_limit-Follows c w = record {
    method = ground arith;
    full_path = ground arith;
    params = ground arith;
  }

  stream_limit-Follows :
      (c : Ctx) (w : State site) → Follows c (left ((server site i).limit_stream c w).0)
  unfolding server App.limit_stream Limits.stream_limit
  stream_limit-Follows c w = record {
    method = ground arith;
    full_path = ground arith;
    params = ground arith;
  }

  login_limit-Keeps :
      (c : Ctx) (w : State site) → Keeps c (left ((server site i).limit_login c w).0)
  unfolding server App.limit_login Limits.login_limit elem
  login_limit-Keeps c w = λ name p.
      let limit = set_header-apart "X-RateLimit-Limit" name refl p in
      let remaining = set_header-apart "X-RateLimit-Remaining" name refl p in
      let retry = set_header-apart "Retry-After" name refl p in
      grind (arith, get-put, limit, remaining, retry)

  stream_limit-Keeps :
      (c : Ctx) (w : State site) → Keeps c (left ((server site i).limit_stream c w).0)
  unfolding server App.limit_stream Limits.stream_limit elem
  stream_limit-Keeps c w = λ name p.
      let limit = set_header-apart "X-RateLimit-Limit" name refl p in grind (arith, get-put, limit)

  server-IsPolite : IsPolite (server site i)
  unfolding server
  server-IsPolite = record {
    handles = λ h c w name p. refl;
    limits_login = login_limit-Keeps;
    limits_stream = stream_limit-Keeps;
  }

  -- A request that gin's router redirects, for a slash at the end of its path, is answered without any
  -- header of the middleware. Every other response of the server that main builds carries the request
  -- id, the client's own or the new one, and the seven security headers, whatever the state: also gin's
  -- 404, the refusals of the guards and the limiters, and gin's recovery from a panic. The handlers are
  -- modelled as setting none of these headers.
  pub responses-IsStamped :
      (ping_fails slash : Bool) (uuid origins : String) (r : LogRequest) (c : Ctx) (w : State site)
      → ((slash ≡ true)
          × (final_ctx (stack (server site i) ping_fails slash uuid origins r c w) ≡ c))
        ⊎ ((slash ≡ false)
            × IsStamped origins
                (id_of uuid c)
                (final_ctx (stack (server site i) ping_fails slash uuid origins r c w)))
  unfolding stack
  responses-IsStamped ping_fails true uuid origins r c w = inl (refl, refl)
  responses-IsStamped ping_fails false uuid origins r c w =
      inr (refl, stack-IsStamped (server site i) server-IsPolite ping_fails uuid origins r c w)

  run_guard-Follows :
      (g : Guard) (c : Ctx) (w : State site) → Follows c (left (run_guard (server site i) g c w).0)
  unfolding run_guard server
  run_guard-Follows login_limit c w = login_limit-Follows c w
  run_guard-Follows require_auth_guard c w = require_auth-Follows site.jwt site.secret c
  run_guard-Follows require_admin_guard c w = require_role-Follows "admin" c
  run_guard-Follows stream_limit c w = stream_limit-Follows c w

  run_guard_uploads :
      (g : Guard) (c : Ctx) (w : State site)
      → (run_guard (server site i) g c w).1.uploads ≡ w.uploads
  unfolding run_guard server App.limit_login App.limit_stream
  run_guard_uploads login_limit c w = refl
  run_guard_uploads require_auth_guard c w = refl
  run_guard_uploads require_admin_guard c w = refl
  run_guard_uploads stream_limit c w = refl

  -- The guards let a request through, with what they leave.
  pub data Passes : List Guard → Ctx → State site → Ctx → State site → Type 0 where
    none_left : (c : Ctx) (w : State site) → Passes [] c w c w
    one_more :
        (g : Guard) (gs : List Guard) (c c' c'' : Ctx) (w w'' : State site)
        → (run_guard (server site i) g c w).0 ≡ next c'
        → Passes gs c' (run_guard (server site i) g c w).1 c'' w''
        → Passes (g ∷ gs) c w c'' w''

  pub Passes-Follows :
      {gs : List Guard} {c c' : Ctx} {w w' : State site} → Passes gs c w c' w' → Follows c c'
  Passes-Follows (none_left c w) = Follows-refl c
  Passes-Follows (one_more g gs c c' c'' w w'' e rest) =
      Follows-trans (subst (λ v. Follows c (left v)) e (run_guard-Follows g c w))
        (Passes-Follows rest)

  pub Passes-uploads :
      {gs : List Guard} {c c' : Ctx} {w w' : State site}
      → Passes gs c w c' w'
      → w'.uploads ≡ w.uploads
  Passes-uploads (none_left c w) = refl
  Passes-uploads (one_more g gs c c' c'' w w'' e rest) =
      Passes-uploads rest ∙ run_guard_uploads g c w

  -- A chain is stopped by a guard, with the tables as they were, or ends in its handler.
  pub data Ends (gs : List Guard) (h : Handler) (c : Ctx) (w : State site)
      : ℕ × Ctx × State site → Type 0 where
    stopped :
        (status : ℕ) (c' : Ctx) (w' : State site)
        → Follows c c'
        → w'.uploads ≡ w.uploads
        → Ends gs h c w (status, c', w')
    handled :
        (c' : Ctx) (w' : State site)
        → Passes gs c w c' w'
        → Ends gs h c w ((dispatch site i h c' w').0, c', (dispatch site i h c' w').1)

  after_guard :
      (g : Guard) (gs : List Guard) (h : Handler) (c c' : Ctx) (w : State site)
      {o : ℕ × Ctx × State site}
      → (run_guard (server site i) g c w).0 ≡ next c'
      → Ends gs h c' (run_guard (server site i) g c w).1 o
      → Ends (g ∷ gs) h c w o
  after_guard g gs h c c' w e (stopped status c'' w'' follows kept) =
      stopped status c'' w''
        (Follows-trans (subst (λ v. Follows c (left v)) e (run_guard-Follows g c w)) follows)
        (kept ∙ run_guard_uploads g c w)
  after_guard g gs h c c' w e (handled c'' w'' passes) =
      handled c'' w'' (one_more g gs c c' c'' w w'' e passes)

  pub run_chain-Ends :
      (gs : List Guard) (h : Handler) (c : Ctx) (w : State site)
      → Ends gs h c w (run_chain (server site i) gs h c w)
  unfolding run_chain server
  run_chain-Ends [] h c w = handled c w (none_left c w)
  run_chain-Ends (g ∷ gs) h c w = elim (Verdict-cases (run_guard (server site i) g c w).0) [
    | inl (c', e) ↦
        rw (e, run_chain)
          (after_guard g gs h c c' w e (run_chain-Ends gs h c' (run_guard (server site i) g c w).1))
    | inr (status, message, c', e) ↦
        rw (e, run_chain)
          (stopped status c' (run_guard (server site i) g c w).1
            (subst (λ v. Follows c (left v)) e (run_guard-Follows g c w)) (run_guard_uploads g c w))
  ]
