-- ===== src/Startup/Tests.antt =====
-- The theorems on the start of the API in a concrete environment.
use system_design_lab.Prelude.{
  ℕ, elem, true, false, none, some, [], ◌∷◌, ◌==◌, text_eq, if◌then◌else◌, ◌≡◌, refl, ◌||◌,
}
use system_design_lab.Prelude.Assoc.{get, put}
use system_design_lab.Gin.{Ctx, param}
use system_design_lab.Database.{Db, Track, find_track}
use system_design_lab.Search.{Transport}
use system_design_lab.Handlers.{Env}
use system_design_lab.Handlers.Stream.{crash, stream}
use system_design_lab.Startup.{made, Environ, get_env, must_env}
use system_design_lab.Database.Schema.{run, exec, migrate_from, migrate}
use system_design_lab.Startup.Api.{
  connect, open_database, World, Deps, start, open_store, open_producer, new_redis, open_search,
}
use system_design_lab.Startup.Unqueued.{services_of, unqueued_crash}

abbrev silent : Transport ℕ
silent = record {
  send = λ r. none;
  contains = λ body text. false;
  read_hits = λ body. none;
  read_suggest = λ body. none;
}

abbrev world : World ℕ
world = record {
  loads_credentials = λ region credentials. true;
  head_bucket = λ bucket. true;
  create_bucket = λ bucket. true;
  loads_region = λ region. true;
  connects = λ opts. true;
  db_parses = λ dsn. true;
  db_opens = λ dsn. true;
  db_pings = λ dsn. true;
  schema = record { tables = []; indexes = [] };
  schema_fails = λ k. false;
  redis_parses = λ url. true;
  redis_pings = λ url. true;
  transport = silent;
}

-- Only the two variables that must be set.
abbrev bare : Environ
bare key = if key == "DATABASE_URL" || key == "REDIS_URL" then "url" else ""

abbrev deps : Deps ℕ
deps = record {
  store = none;
  producer = none;
  client = none;
  jwt_secret = "dev-secret-change-in-production";
  port = "8080";
  metrics_port = "9090";
}

started : start world bare ≡ made deps
unfolding start open_database connect migrate migrate_from exec run get put elem open_store
    open_producer new_redis open_search must_env get_env
started = refl

abbrev track : Track
track = record {
  id = 7;
  title = "title";
  artist_id = 1;
  duration_ms = 0;
  audio_key = "original";
  release_date = none;
  play_count = 4;
  created_at = 0;
  status = "ready";
}

abbrev db : Db
db = record {
  artists = [];
  tracks = track ∷ [];
  playlists = [];
  playlist_tracks = [];
  play_events = [];
  users = [];
  audit_logs = [];
  favorites = [];
  track_formats = [];
}

abbrev env : Env
env = record {
  fails = false;
  cast = λ s. if s == "seven" then some 7 else none;
  parses = λ s. true;
  now = 100;
  new_id = 5;
}

abbrev request : Ctx
request = record {
  method = "GET";
  full_path = "/v1/tracks/:id/stream";
  request_headers = [];
  cookies = [];
  params = ("id", "seven") ∷ [];
  client_ip = "10.0.0.1";
  user_agent = "";
  keys = [];
  headers = [];
}

seven_named : env.cast (param request "id") ≡ some 7
unfolding get
seven_named = refl

seven_found : find_track 7 db.tracks ≡ some track
unfolding find_track
seven_found = refl

unqueued_crash_example :
    (stream
      (services_of deps false (λ key. some key))
      env
      (λ s. none)
      false
      request
      none
      "now"
      db).1
    ≡ crash
unqueued_crash_example =
    unqueued_crash world bare deps false (λ key. some key) env (λ s. none) request none "now" db 7
      track started refl refl seven_named seven_found
