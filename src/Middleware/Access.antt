-- ===== src/Middleware/Access.antt =====
-- Who gets past the guards of beatstream/internal/middleware/jwt.go.
use text.Mathlib.TextEquality.{eq_iff}
use system_design_lab.Prelude.{
  String, true, false, some, ◌≡◌, ◌≢◌, refl, sym, ap, ◌∙◌, ◌⊎◌, inl, inr, ◌==◌, text_eq, arith,
  Bool-cases,
}
use system_design_lab.Prelude.Assoc.{get-put}
use system_design_lab.Gin.{Ctx, Value, nil, str, other, Verdict, next, abort, get_key}
use system_design_lab.Middleware.Jwt.{
  JwtLibrary, Claims, Checked, ok, invalid, parse_token, extract_token, claim, set_user,
  require_auth, require_role, is_role, optional_auth,
}

-- The request carries a token that the package parses under the secret, with these claims.
pub record Authenticated (jwt : JwtLibrary) (secret : String) (c : Ctx) (claims : Claims)
    : Type 0 where
  pub given : extract_token c ≢ ""
  pub parsed : (jwt.parse (extract_token c) secret).failed ≡ false
  pub held : (jwt.parse (extract_token c) secret).claims ≡ some claims

-- The context says who the user is, as the claims do.
pub record Identified (claims : Claims) (c : Ctx) : Type 0 where
  pub user_id : get_key c "user_id" ≡ claim claims "user_id"
  pub email : get_key c "user_email" ≡ claim claims "email"
  pub name : get_key c "user_name" ≡ claim claims "name"
  pub role : get_key c "user_role" ≡ claim claims "role"

set_user-Identified : (c : Ctx) (claims : Claims) → Identified claims (set_user c claims)
unfolding set_user
set_user-Identified c claims = record {
  user_id = simp get-put;
  email = simp get-put;
  name = simp get-put;
  role = simp get-put;
}

Checked-cases : (r : Checked) → (r ≡ invalid) ⊎ ((claims : Claims) × (r ≡ ok claims))
Checked-cases invalid = inl refl
Checked-cases (ok claims) = inr (claims, refl)

-- Without an error of the parser, the claims come back as they are.
parse_token_sound :
    (jwt : JwtLibrary) (token secret : String) {claims : Claims}
    → parse_token jwt token secret ≡ ok claims
    → ((jwt.parse token secret).failed ≡ false) × ((jwt.parse token secret).claims ≡ some claims)
unfolding parse_token
parse_token_sound jwt token secret h = ground (arith, jwt.valid_of_parse token secret)

parse_token_complete :
    (jwt : JwtLibrary) (token secret : String) {claims : Claims}
    → (jwt.parse token secret).failed ≡ false
    → (jwt.parse token secret).claims ≡ some claims
    → parse_token jwt token secret ≡ ok claims
unfolding parse_token
parse_token_complete jwt token secret f h = ground (arith, jwt.valid_of_parse token secret)

-- `RequireAuth` lets a request through exactly when its token is given and parses under the secret,
-- and then with the user's four claims in the context; every other request is stopped with 401 and
-- its context unchanged.
pub require_auth_cases :
    (jwt : JwtLibrary) (secret : String) (c : Ctx)
    → ((claims : Claims) × (c' : Ctx) × Authenticated jwt secret c claims
        × (require_auth jwt secret c ≡ next c')
        × Identified claims c')
      ⊎ (((claims : Claims) → ¬ Authenticated jwt secret c claims)
          × (message : String) × (require_auth jwt secret c ≡ abort 401 message c))
unfolding require_auth
require_auth_cases jwt secret c = elim (Bool-cases (extract_token c == "")) [
  | inl absent ↦ inr (
    λ claims a. a.given ((eq_iff (extract_token c) "").0 absent),
    "authentication required",
    rw absent,
  )
  | inr present ↦ elim (Checked-cases (parse_token jwt (extract_token c) secret)) [
    | inl bad ↦ inr (
      λ claims a. cc (bad, parse_token_complete jwt (extract_token c) secret a.parsed a.held),
      "invalid or expired token",
      rw (present, bad),
    )
    | inr (claims, good) ↦
        let (parsed, held) = parse_token_sound jwt (extract_token c) secret good in
        inl (
          claims,
          set_user c claims,
          record {
            given = λ e. ground (arith, eq_iff (extract_token c) "", e, present);
            parsed = parsed;
            held = held;
          },
          rw (present, good),
          set_user-Identified c claims,
        )
  ]
]

-- The context that a verdict leaves.
abbrev pub left : Verdict → Ctx
left (next c) = c
left (abort status message c) = c

-- `RequireAuth` and `RequireRole` set no header of the response.
pub require_auth_headers :
    (jwt : JwtLibrary) (secret : String) (c : Ctx)
    → (left (require_auth jwt secret c)).headers ≡ c.headers
unfolding require_auth set_user
require_auth_headers jwt secret c = elim (Bool-cases (extract_token c == "")) [
  | inl absent ↦ rw (absent, require_auth)
  | inr present ↦ elim (Checked-cases (parse_token jwt (extract_token c) secret)) [
    | inl bad ↦ rw (present, require_auth, bad)
    | inr (claims, good) ↦ rw (present, require_auth, good)
  ]
]

pub require_role_headers :
    (role : String) (c : Ctx) → (left (require_role role c)).headers ≡ c.headers
unfolding require_role
require_role_headers role c = elim (Bool-cases (is_role (get_key c "user_role") role)) [
  | inl has ↦ rw (has, require_role)
  | inr lacks ↦ rw (lacks, require_role)
]

-- The two guards of the admin routes, in their order.
unfoldable pub require_admin : JwtLibrary → String → Ctx → Verdict
require_admin jwt secret c = elim (require_auth jwt secret c) [
  | next c' ↦ require_role "admin" c'
  | abort status message c' ↦ abort status message c'
]

role_admin : (v : Value) → is_role v "admin" ≡ true → v ≡ str "admin"
role_admin nil h = cc
role_admin (str r) h = ap str ((eq_iff r "admin").0 h)
role_admin other h = cc

-- A request that gets past the guards of the admin routes has a token that parses under the secret
-- and whose claim `role` is the text admin.
pub require_admin_sound :
    (jwt : JwtLibrary) (secret : String) (c : Ctx) {c' : Ctx}
    → require_admin jwt secret c ≡ next c'
    → (claims : Claims) × Authenticated jwt secret c claims × (claim claims "role" ≡ str "admin")
unfolding require_admin require_role
require_admin_sound jwt secret c h = elim (require_auth_cases jwt secret c) [
  | inl (claims, d, a, e, who) ↦
      (claims, a, sym who.role ∙ role_admin (get_key d "user_role") (ground (arith, h, e)))
  | inr (never, message, e) ↦ absurd (ground (arith, h, e))
]

-- `OptionalAuth` never stops a request, and where it lets one through with other keys, it is with
-- the claims of a token that `RequireAuth` accepts.
pub optional_auth_cases :
    (jwt : JwtLibrary) (secret : String) (c : Ctx)
    → (optional_auth jwt secret c ≡ next c)
      ⊎ (optional_auth jwt secret c ≡ require_auth jwt secret c)
unfolding optional_auth require_auth
optional_auth_cases jwt secret c = elim (Bool-cases (extract_token c == "")) [
  | inl absent ↦ inl (rw absent)
  | inr present ↦ elim (Checked-cases (parse_token jwt (extract_token c) secret)) [
    | inl bad ↦ inl (rw (present, bad))
    | inr (claims, good) ↦ inr (rw (present, good))
  ]
]
