-- ===== src/Handlers/PlayTests.antt =====
-- The theorems on streaming and on the deletion of a user at a small database.
use system_design_lab.Prelude.{
  ℕ, ◌+◌, String, true, false, Option, none, some, List, [], ◌∷◌, suc, length, ◌≡◌, refl, ◌⊎◌, ◌==◌,
  text_eq, if◌then◌else◌, arith,
}
use system_design_lab.Prelude.Assoc.{get}
use system_design_lab.Gin.{Ctx, str, param}
use system_design_lab.Database.{Db, Track, User, find_track}
use system_design_lab.Worker.Queue.{consume}
use system_design_lab.Worker.Analytics.{Connection}
use system_design_lab.Worker.Plays.{count_of, events_of, handle}
use system_design_lab.Handlers.{Env, problem, no_content, any}
use system_design_lab.Handlers.Auth.{me, user_id_of}
use system_design_lab.Handlers.Admin.{delete_user}
use system_design_lab.Handlers.Erasure.{IsErased, delete_user-IsErased}
use system_design_lab.Handlers.Stream.{
  Services, failure, no_event, published, find_key, publish_play, play_message, quality_of,
  stream_key, stream, new_bytes_reader,
}
use system_design_lab.Handlers.Listening.{
  Unformatted, Serves, Signed, Published, IsMissing, IsUp, stream_cases, stream_counted,
}
use system_design_lab.Handlers.Reading.{read_until, read_until-new_bytes_reader}

abbrev user : ℕ → User
user id = record {
  id = id;
  email = "a@b.example";
  password_hash = "secret";
  name = "A";
  created_at = 100;
  role = "user";
  deleted_at = none;
  terms_version = 1;
}

abbrev track : Track
track = record {
  id = 7;
  title = "title";
  artist_id = 1;
  duration_ms = 0;
  audio_key = "original";
  release_date = none;
  play_count = 4;
  created_at = 0;
  status = "ready";
}

abbrev db : Db
db = record {
  artists = [];
  tracks = track ∷ [];
  playlists = [];
  playlist_tracks = [];
  play_events = [];
  users = user 5 ∷ user 6 ∷ [];
  audit_logs = [];
  favorites =
      record { user_id = 5; track_id = 7; created_at = 1 }
      ∷ record { user_id = 6; track_id = 7; created_at = 2 }
      ∷ [];
  track_formats = [];
}

abbrev cast : String → Option ℕ
cast s = if s == "five" then some 5 else if s == "seven" then some 7 else none

abbrev env : Env
env = record { fails = false; cast = cast; parses = λ s. true; now = 100; new_id = 5 }

abbrev request : String → Ctx
request id = record {
  method = "GET";
  full_path = "";
  request_headers = [];
  cookies = [];
  params = ("id", id) ∷ [];
  client_ip = "10.0.0.1";
  user_agent = "";
  keys = ("user_id", str "five") ∷ [];
  headers = [];
}

abbrev services : Services
services = record {
  has_producer = true;
  has_store = true;
  fails = false;
  presign = λ key. some key;
}

abbrev no_producer : Services
no_producer = record services { has_producer = false }

abbrev cast_int : String → Option ℕ
cast_int s = if s == "128" then some 128 else none

stream_cases_example :
    ((env.parses (param (request "seven") "id") ≡ false)
      × (stream no_producer env cast_int false (request "seven") none "now" db
          ≡ (failure 400 "invalid track id", no_event)))
    ⊎ ((Unformatted env.fails
            (env.cast (param (request "seven") "id"))
            (cast_int (quality_of none))
            db
          × IsMissing false (env.cast (param (request "seven") "id")) db
          × (stream no_producer env cast_int false (request "seven") none "now" db
              ≡ (failure 404 "track not found", no_event)))
        ⊎ ((key : String) × Serves env.fails false db
              (env.cast (param (request "seven") "id"))
              (cast_int (quality_of none))
              key
            × Signed no_producer key
                (stream no_producer env cast_int false (request "seven") none "now" db).0
            × Published no_producer
                (play_message (request "seven") "now")
                (stream no_producer env cast_int false (request "seven") none "now" db).1))
stream_cases_example = stream_cases no_producer env cast_int false (request "seven") none "now" db

was_published :
    (stream services env cast_int false (request "seven") none "now" db).1
    ≡ published (play_message (request "seven") "now")
unfolding stream stream_key find_key find_track publish_play get
was_published = refl

abbrev conn : Connection
conn = record { fails = λ s. false; cast = cast; now = 1 }

conn-IsUp : IsUp conn
conn-IsUp = record { begins = refl; inserts = refl; updates = refl; commits = refl }

four_plays : count_of 7 db ≡ some 4
unfolding find_track
four_plays = refl

seven_named : conn.cast (param (request "seven") "id") ≡ some 7
unfolding get
seven_named = refl

stream_counted_example :
    let db' = (consume handle ((conn, play_message (request "seven") "now") ∷ []) db).1 in
    (count_of 7 db' ≡ some (4 + 1)) × (events_of 7 db'.play_events ≡ events_of 7 db.play_events + 1)
stream_counted_example =
    stream_counted services env cast_int false (request "seven") none "now" db conn
      (play_message (request "seven") "now") 7 4 was_published seven_named conn-IsUp four_plays

abbrev three_bytes : List ℕ
three_bytes = 1 ∷ 2 ∷ 3 ∷ []

read_until-new_bytes_reader_example :
    read_until (suc (length three_bytes)) 2 (new_bytes_reader three_bytes) ≡ some three_bytes
read_until-new_bytes_reader_example = read_until-new_bytes_reader three_bytes 2 (omega arith)

user_deleted : (delete_user env (request "five") db).0 ≡ no_content
unfolding delete_user any get
user_deleted = refl

five_named : env.cast (param (request "five") "id") ≡ some 5
unfolding get
five_named = refl

five_asks : user_id_of env (request "seven") ≡ some 5
unfolding user_id_of get
five_asks = refl

delete_user-IsErased_example :
    let db' = (delete_user env (request "five") db).1 in
    IsErased env.cast 5 db db' × (me env (request "seven") db' ≡ problem 404 "user not found")
delete_user-IsErased_example =
    delete_user-IsErased env env (request "five") (request "seven") db 5 five_named user_deleted
      five_asks
