-- ===== src/Middleware/Tests.antt =====
-- The theorems on the middleware at concrete requests, with a token package that knows one token.
use system_design_lab.Prelude.{
  String, true, false, none, some, [], ◌∷◌, ◌≡◌, text_eq, ◌==◌, if◌then◌else◌, arith,
}
use system_design_lab.Gin.{Ctx, str}
use system_design_lab.Middleware.Jwt.{JwtLibrary, Parsed, Claims}

abbrev admin_claims : Claims
admin_claims = ("user_id", str "u1") ∷ ("role", str "admin") ∷ []

abbrev parse : String → String → Parsed
parse token secret =
    if token == "good"
    then record { failed = false; valid = true; claims = some admin_claims }
    else record { failed = true; valid = false; claims = none }

parse_valid :
    (token secret : String)
    → (parse token secret).failed ≡ false
    → (parse token secret).valid ≡ true
parse_valid token secret h = ground arith

abbrev one_token : JwtLibrary
one_token = record { parse = parse; valid_of_parse = parse_valid }

abbrev request : Ctx
request = record {
  method = "GET";
  full_path = "/v1/admin/users";
  request_headers = ("Authorization", "Bearer good") ∷ ("Origin", "https://a.example") ∷ [];
  cookies = [];
  params = [];
  client_ip = "10.0.0.1";
  user_agent = "";
  keys = [];
  headers = [];
}
