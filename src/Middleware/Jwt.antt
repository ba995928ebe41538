-- ===== src/Middleware/Jwt.antt =====
-- beatstream/internal/middleware/jwt.go. The package that parses tokens is not in the repository: it
-- is a parameter.
use system_design_lab.Prelude.{
  String, Bool, true, false, not, Option, none, some, [], ◌≡◌, ◌==◌, ◌||◌, text_eq, if◌then◌else◌,
}
use system_design_lab.Prelude.Assoc.{Assoc, get}
use system_design_lab.Prelude.Texts.{strip_prefix, has_prefix}
use system_design_lab.Gin.{
  Ctx, Value, nil, str, other, Verdict, next, abort, get_header, set_key, get_key, or_nil, or_empty,
}

abbrev pub Claims : Type 0
Claims = Assoc String Value

-- What `jwt.Parse` with HS256 as the only valid method returns: whether there is an error, the field
-- `Valid` of the token, and its claims, if they are of the type MapClaims.
pub record Parsed : Type 0 where
  pub failed : Bool
  pub valid : Bool
  pub claims : Option Claims

-- The package: it parses a token under a secret, and a token that it parses without an error is
-- valid and has its claims in a map.
pub record JwtLibrary : Type 0 where
  pub parse : String → String → Parsed
  pub valid_of_parse :
      (token secret : String)
      → (parse token secret).failed ≡ false
      → (parse token secret).valid ≡ true

pub data Checked : Type 0 where
  ok : Claims → Checked
  invalid : Checked

abbrev as_claims : Option Claims → Checked
as_claims none = invalid
as_claims (some claims) = ok claims

-- `return nil, err` on a token that is not valid: without an error the claims are the nil map.
unfoldable pub parse_token : JwtLibrary → String → String → Checked
parse_token jwt token secret =
    let parsed = jwt.parse token secret in
    if parsed.failed || not parsed.valid
    then (if parsed.failed then invalid else ok [])
    else as_claims parsed.claims

unfoldable pub extract_token : Ctx → String
extract_token c =
    let h = get_header c "Authorization" in
    if has_prefix h "Bearer "
    then or_empty (strip_prefix h "Bearer ")
    else or_empty (get c.cookies "token")

-- A missing claim reads as nil.
abbrev pub claim : Claims → String → Value
claim claims name = or_nil (get claims name)

unfoldable pub set_user : Ctx → Claims → Ctx
set_user c claims =
    set_key
      (set_key
        (set_key (set_key c "user_id" (claim claims "user_id")) "user_email" (claim claims "email"))
        "user_name" (claim claims "name"))
      "user_role" (claim claims "role")

unfoldable pub require_auth : JwtLibrary → String → Ctx → Verdict
unfolding set_user
require_auth jwt secret c =
    let token = extract_token c in
    if token == ""
    then abort 401 "authentication required" c
    else elim (parse_token jwt token secret) [
      | ok claims ↦ next (set_user c claims)
      | invalid ↦ abort 401 "invalid or expired token" c
    ]

-- `userRole != role`, a comparison of an `any` with a string.
abbrev pub is_role : Value → String → Bool
is_role nil role = false
is_role (str r) role = r == role
is_role other role = false

unfoldable pub require_role : String → Ctx → Verdict
require_role role c =
    if is_role (get_key c "user_role") role then next c else abort 403 "forbidden" c

unfoldable pub optional_auth : JwtLibrary → String → Ctx → Verdict
unfolding set_user
optional_auth jwt secret c =
    let token = extract_token c in
    if token == "" then next c else elim (parse_token jwt token secret) [
      | ok claims ↦ next (set_user c claims)
      | invalid ↦ next c
    ]
