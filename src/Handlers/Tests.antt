-- ===== src/Handlers/Tests.antt =====
-- The theorems on the handlers at a small database and concrete requests.
use text.Mathlib.TextEquality.{eq_iff}
use system_design_lab.Prelude.{
  Equality, list_test, list_test_iff, ◌↔◌, ◌&&◌, ap, sym, ◌∙◌, ℕ, String, Bool, true, false, Option,
  none, some, List, [], ◌∷◌, ◌≡◌, ◌≢◌, refl, ◌==◌, text_eq, number_eq, if◌then◌else◌, arith,
}
use system_design_lab.Prelude.Assoc.{get}
use system_design_lab.Gin.{Ctx, Value, nil, str, other}
use system_design_lab.Middleware.Jwt.{JwtLibrary, Parsed, Claims}
use system_design_lab.Database.{Db, Track, User}
use system_design_lab.Handlers.{Env, Reply, reply, problem, no_content}
use system_design_lab.Handlers.Playlists.{delete}
use system_design_lab.Handlers.Owners.{
  Request, create_request, add_request, delete_request, run, delete_never,
}
use system_design_lab.Handlers.Auth.{
  Bcrypt, Signer, RegisterBody, Session, token_claims, open_session, register, login, user_response,
  user_id_of, me, delete_me, export_me, is_bound, terms, find_active, is_taken,
}
use system_design_lab.Handlers.Accounts.{login-register, delete_me_final}

abbrev user : User
user = record {
  id = 5;
  email = "a@b.example";
  password_hash = "secret";
  name = "A";
  created_at = 100;
  role = "user";
  deleted_at = none;
  terms_version = 1;
}

abbrev track : Track
track = record {
  id = 7;
  title = "title";
  artist_id = 1;
  duration_ms = 0;
  audio_key = "key";
  release_date = none;
  play_count = 0;
  created_at = 0;
  status = "ready";
}

abbrev db : Db
db = record {
  artists = [];
  tracks = track ∷ [];
  playlists = [];
  playlist_tracks = [];
  play_events = [];
  users = user ∷ [];
  audit_logs = [];
  favorites = [];
  track_formats = [];
}

abbrev cast : String → Option ℕ
cast s = if s == "five" then some 5 else if s == "seven" then some 7 else none

abbrev env : Env
env = record { fails = false; cast = cast; parses = λ s. true; now = 100; new_id = 5 }

abbrev request : Ctx
request = record {
  method = "DELETE";
  full_path = "";
  request_headers = ("Authorization", "Bearer five") ∷ [];
  cookies = [];
  params = ("id", "five") ∷ ("track_id", "seven") ∷ [];
  client_ip = "10.0.0.1";
  user_agent = "";
  keys = ("user_id", str "five") ∷ [];
  headers = [];
}

abbrev requests : List (Request × Env × Ctx)
requests =
    (create_request (some "mine"), env, request)
    ∷ (add_request (some "seven"), env, request)
    ∷ (delete_request, env, request)
    ∷ []

delete_never_example :
    let db' = run requests db in
    ((delete env request db').1 ≡ db') × ((delete env request db').0 ≢ no_content)
delete_never_example = delete_never requests db env request tt

deleted : (delete_me (λ id. "five") env request db).0 ≡ no_content
unfolding delete_me find_active user_id_of is_taken get system_design_lab.Handlers.any
deleted = refl

delete_me_final_example :
    let db' = (delete_me (λ id. "five") env request db).1 in
    (me env request db' ≡ problem 404 "user not found")
    × (export_me false env request db' ≡ problem 404 "user not found")
    × (delete_me (λ id. "five") env request db'
        ≡ (problem 404 "user not found or already deleted", db'))
delete_me_final_example =
    delete_me_final (λ id. "five") env env request request false db deleted refl

plain_compare :
    (salt password hash : String) → some password ≡ some hash → (hash == password) ≡ true
plain_compare salt password hash e = ground (arith, e, eq_iff hash password)

-- A package that hashes a password to itself.
abbrev plain : Bcrypt
plain = record {
  generate = λ salt p. some p;
  compare = λ h p. h == p;
  compare_generate = plain_compare;
}

abbrev five_claims : Claims
unfolding token_claims
five_claims = token_claims (λ id. "five") (user_response user)

abbrev same_value : Value → Value → Bool
same_value nil nil = true
same_value (str s) (str t) = s == t
same_value other other = true
same_value _ _ = false

same_value_iff : (v w : Value) → (same_value v w ≡ true) ↔ (v ≡ w)
same_value_iff nil nil = (λ h. refl, λ h. refl)
same_value_iff nil (str t) = (λ h. cc, λ h. cc)
same_value_iff nil other = (λ h. cc, λ h. cc)
same_value_iff (str s) nil = (λ h. cc, λ h. cc)
same_value_iff (str s) (str t) =
    (λ h. ap str ((eq_iff s t).0 h), λ h. (eq_iff s t).1 (ground (arith, h)))
same_value_iff (str s) other = (λ h. cc, λ h. cc)
same_value_iff other nil = (λ h. cc, λ h. cc)
same_value_iff other (str t) = (λ h. cc, λ h. cc)
same_value_iff other other = (λ h. refl, λ h. refl)

abbrev same_claim : String × Value → String × Value → Bool
same_claim (a, v) (b, w) = a == b && same_value v w

same_claim_iff : (x y : String × Value) → (same_claim x y ≡ true) ↔ (x ≡ y)
same_claim_iff (a, v) (b, w) = ground (arith, eq_iff a b, same_value_iff v w)

instance abbrev claim_eq : Equality (String × Value)
claim_eq = record { test = same_claim; test_iff = same_claim_iff }

abbrev same_claims : Claims → Bool
same_claims claims = list_test ⦃e = claim_eq⦄ claims five_claims

abbrev parse : String → String → Parsed
parse token secret =
    if token == "token"
    then record { failed = false; valid = true; claims = some five_claims }
    else record { failed = true; valid = false; claims = none }

parse_valid :
    (token secret : String)
    → (parse token secret).failed ≡ false
    → (parse token secret).valid ≡ true
parse_valid token secret h = ground arith

abbrev jwt : JwtLibrary
jwt = record { parse = parse; valid_of_parse = parse_valid }

abbrev sign : String → Claims → Option String
sign secret claims = if same_claims claims then some "token" else none

is_token :
    (secret token : String) (claims : Claims) → sign secret claims ≡ some token → token ≡ "token"
is_token secret token claims h = ground (arith, h)

is_signed : (secret token : String) (claims : Claims) → sign secret claims ≡ some token → token ≢ ""
is_signed secret token claims h e =
    absurd (ground (arith, eq_iff "token" "", sym (is_token secret token claims h) ∙ e))

parse_signed :
    (secret token : String) (claims : Claims)
    → sign secret claims ≡ some token
    → jwt.parse token secret ≡ record { failed = false; valid = true; claims = some claims }
parse_signed secret token claims h =
    let same : claims ≡ five_claims =
      (list_test_iff ⦃e = claim_eq⦄ claims five_claims).0 (ground (arith, h)) in
    rw (is_token secret token claims h, same)

abbrev signer : Signer jwt
signer = record { sign = sign; signed = is_signed; parse_sign = parse_signed }

abbrev body : RegisterBody
body = record { email = "a@b.example"; password = "secret"; name = "A"; terms_version = 0 }

abbrev no_users : Db
no_users = record db { users = [] }

abbrev session : Session
session = record { token = "token"; user = user_response user }

unfolded_register :
    register plain signer "s" (λ id. "five") (λ e. true) "salt" env (some body) no_users
    ≡ (reply 201 session, db)
unfolding register is_bound terms open_session token_claims list_test system_design_lab.Handlers.any
unfolded_register = refl

login-register_example :
    (token : String) × (login plain signer "s"
        (λ id. "five")
        env
        (some (record { email = "a@b.example"; password = "secret" }))
        db
      ≡ reply 200 (record { token = token; user = user_response user }))
login-register_example =
    login-register plain signer "s" (λ id. "five") (λ e. true) "salt" env env body no_users db
      session unfolded_register refl

abbrev with_token : Ctx
with_token = record request { request_headers = ("Authorization", "Bearer token") ∷ [] }

opened : open_session plain signer "s" (λ id. "five") 200 (user_response user) ≡ reply 200 session
unfolding open_session token_claims list_test
opened = refl
