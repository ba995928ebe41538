-- ===== src/App/Fixtures.antt =====
-- A small server, database and requests for the tests of the whole.
use system_design_lab.Prelude.{
  ℕ, String, true, false, Option, none, some, [], ◌∷◌, ◌≡◌, ◌==◌, text_eq, if◌then◌else◌, arith,
}
use system_design_lab.Redis.Memory.{memory, empty}
use system_design_lab.Gin.{Ctx, str}
use system_design_lab.Middleware.Jwt.{JwtLibrary, Parsed, Claims}
use system_design_lab.Middleware.Logging.{LogRequest}
use system_design_lab.Database.{Db, Artist, User}
use system_design_lab.Handlers.{Env, any}
use system_design_lab.Handlers.Auth.{Bcrypt, Signer}
use system_design_lab.App.{Site, Input, State}

-- Two tokens, of an administrator and of a user.
abbrev pub claims_of : String → Claims
claims_of role = ("user_id", str "five") ∷ ("role", str role) ∷ []

abbrev pub parse : String → String → Parsed
parse token secret =
    if token == "admin"
    then record { failed = false; valid = true; claims = some (claims_of "admin") }
    else if token == "user"
    then record { failed = false; valid = true; claims = some (claims_of "user") }
    else record { failed = true; valid = false; claims = none }

pub parse_valid :
    (token secret : String)
    → (parse token secret).failed ≡ false
    → (parse token secret).valid ≡ true
parse_valid token secret h = ground (arith, h)

abbrev pub jwt : JwtLibrary
jwt = record { parse = parse; valid_of_parse = parse_valid }

-- Packages that sign and hash nothing.
pub never_signed : {A : Type 0} {token : String} → none ≡ some token → A
never_signed e = cc

abbrev pub no_signer : Signer jwt
no_signer = record {
  sign = λ secret claims. none;
  signed = λ secret token claims e. never_signed e;
  parse_sign = λ secret token claims e. never_signed e;
}

pub never_hashed : (salt password hash : String) → none ≡ some hash → false ≡ true
never_hashed salt password hash e = cc

abbrev pub no_bcrypt : Bcrypt
no_bcrypt = record {
  generate = λ salt password. none;
  compare = λ hash password. false;
  compare_generate = never_hashed;
}

abbrev pub site : Site ℕ
site = record {
  jwt = jwt;
  signer = no_signer;
  secret = "s";
  bcrypt = no_bcrypt;
  print = λ id. "five";
  is_email = λ s. true;
  before = λ s t. true;
  cast_int = λ s. if s == "128" then some 128 else none;
  presign = λ key. some key;
  client = none;
  rows = memory system_design_lab.Handlers.TrackRow;
  answers = memory system_design_lab.Handlers.Recommendations.SearchResponse;
  buckets = memory system_design_lab.Limits.Bucket.BucketHash;
  counters = memory ℕ;
}

abbrev pub user : ℕ → User
user id = record {
  id = id;
  email = "a@b.example";
  password_hash = "secret";
  name = "A";
  created_at = 100;
  role = "admin";
  deleted_at = none;
  terms_version = 1;
}

abbrev pub artist : Artist
artist = record { id = 5; name = "A"; created_at = 0 }

abbrev pub db : Db
db = record {
  artists = artist ∷ [];
  tracks = [];
  playlists = [];
  playlist_tracks = [];
  play_events = [];
  users = user 5 ∷ user 6 ∷ [];
  audit_logs = [];
  favorites = record { user_id = 6; track_id = 7; created_at = 2 } ∷ [];
  track_formats = [];
}

abbrev pub first : State site
first = record {
  uploads = record { db = db; objects = []; published = [] };
  plays = [];
  rows = empty;
  answers = empty;
  buckets = empty;
  counters = empty;
}

abbrev pub cast : String → Option ℕ
cast s = if s == "five" then some 5 else if s == "nine" then some 9 else none

abbrev pub input : Input
input = record {
  env = record { fails = false; cast = cast; parses = λ s. true; now = 100; new_id = 9 };
  registration = none;
  credentials = none;
  body = none;
  form = record { title = "title"; artist_id = "five"; audio = some (1 ∷ 2 ∷ []) };
  q = "";
  after = "";
  quality = none;
  queries = record {
    by_id_fails = false;
    by_text_fails = false;
    sent = λ ts. ts;
    cast = cast;
    ranked = λ q ts. ts;
  };
  failures = record {
    has_store = true;
    has_producer = true;
    lookup = false;
    read = false;
    upload = false;
    insert = false;
    publish = false;
  };
  faults = record { incr = false; expire = false };
  second_fails = false;
  formats_fail = false;
  publish_fails = false;
  audit_fails = false;
  redis_down = false;
  clock = 0;
  salt = "";
  uuid = "nine";
  timestamp = "now";
}

abbrev pub request_of : String → String → String → String → Ctx
request_of token method path id = record {
  method = method;
  full_path = path;
  request_headers = ("Authorization", token) ∷ [];
  cookies = [];
  params = ("id", id) ∷ [];
  client_ip = "10.0.0.1";
  user_agent = "";
  keys = [];
  headers = [];
}

abbrev pub log_request : LogRequest
log_request = record {
  path = "/v1/me";
  query = "";
  latency = 0;
  latency_ms = 0;
  errors = "";
  span = none;
}

abbrev pub leave : Ctx
leave = request_of "Bearer user" "DELETE" "/v1/me" ""
