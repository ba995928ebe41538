-- ===== src/Handlers/Stream.antt =====
-- The streaming handler of beatstream/internal/handler/tracks.go, and its reader of bytes. Kafka and
-- the object store are optional in beatstream/cmd/api/main.go: without them the handler holds a nil
-- pointer, whose methods panic.
use system_design_lab.Prelude.{
  ℕ, ◌+◌, String, Bool, Option, none, some, List, [], ◌∷◌, length, take, drop, eqb, leb, text_eq,
  if◌then◌else◌, ◌&&◌, not,
}
use system_design_lab.Gin.{Ctx, param, get_header}
use system_design_lab.Database.{Db, TrackFormat, find_track}
use system_design_lab.Worker.Analytics.{PlayMessage}
use system_design_lab.Handlers.{Env}

-- The queue's producer and the object store. `presign` signs a key, and `fails` says that a publication
-- fails.
pub record Services : Type 0 where
  pub has_producer : Bool
  pub has_store : Bool
  pub fails : Bool
  pub presign : String → Option String

-- The answer to the client; a panic of the handler is caught by gin.
pub data Answer : Type 0 where
  redirect : String → Answer
  failure : ℕ → String → Answer
  handler_panic : Answer

-- What becomes of the event that the handler's goroutine publishes. A panic there ends the process.
pub data Event : Type 0 where
  no_event lost crash : Event
  published : PlayMessage → Event

-- `SELECT s3_key FROM track_formats WHERE track_id = $1 AND bitrate = $2`
unfoldable pub find_key : ℕ → ℕ → List TrackFormat → Option String
find_key id bitrate [] = none
find_key id bitrate (f ∷ fs) =
    let rest = find_key id bitrate fs in
    if eqb f.track_id id && eqb f.bitrate bitrate then some f.s3_key else rest

-- `SELECT audio_key FROM tracks WHERE id = $1`
abbrev pub original_key : Bool → ℕ → Db → Option String
original_key fails id db =
    if fails
    then none
    else elim (find_track id db.tracks) [ none ↦ none | some t ↦ some t.audio_key ]

abbrev pub first_key : Bool → ℕ → ℕ → Db → Option String
first_key fails id bitrate db = if fails then none else find_key id bitrate db.track_formats

-- The two queries; `bitrate` is the quality as PostgreSQL reads it, and each may fail.
unfoldable pub stream_key : Bool → Bool → Option ℕ → Option ℕ → Db → Option String
unfolding find_key
stream_key first_fails second_fails none bitrate db = none
stream_key first_fails second_fails (some id) none db = original_key second_fails id db
stream_key first_fails second_fails (some id) (some bitrate) db =
    elim (first_key first_fails id bitrate db) [
      | none ↦ original_key second_fails id db
      | some key ↦ some key
    ]

unfoldable pub publish_play : Services → PlayMessage → Event
publish_play services ev =
    if not services.has_producer then crash else if services.fails then lost else published ev

unfoldable pub presigned : Services → String → Answer
presigned services key =
    if not services.has_store then handler_panic else elim (services.presign key) [
      | none ↦ failure 500 "could not generate stream URL"
      | some url ↦ redirect url
    ]

abbrev pub play_message : Ctx → String → PlayMessage
play_message c now = record {
  track_id = param c "id";
  source = get_header c "X-Source";
  timestamp = now;
}

abbrev pub quality_of : Option String → String
quality_of none = "128"
quality_of (some q) = q

-- `cast_int` is PostgreSQL's reading of an INT; `quality` is the parameter of the query.
unfoldable pub stream :
    Services → Env → (String → Option ℕ) → Bool → Ctx → Option String → String → Db → Answer × Event
unfolding stream_key publish_play presigned
stream services env cast_int second_fails c quality now db =
    if not (env.parses (param c "id"))
    then (failure 400 "invalid track id", no_event)
    else elim (stream_key env.fails second_fails (env.cast (param c "id"))
        (cast_int (quality_of quality)) db) [
          | none ↦ (failure 404 "track not found", no_event)
          | some key ↦ (presigned services key, publish_play services (play_message c now))
        ]

pub record BytesReader : Type 0 where
  pub bytes : List ℕ
  pub offset : ℕ

abbrev pub new_bytes_reader : List ℕ → BytesReader
new_bytes_reader bytes = record { bytes = bytes; offset = 0 }

-- `Read` into a buffer of `n` bytes: `none` is io.EOF.
unfoldable pub read : BytesReader → ℕ → Option (List ℕ) × BytesReader
read r n =
    if leb (length r.bytes) r.offset
    then (none, r)
    else let got = take n (drop r.offset r.bytes) in
      (some got, record r { offset = r.offset + length got })
