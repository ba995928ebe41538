-- ===== src/Handlers/Tracks.antt =====
-- beatstream/internal/handler/tracks.go. The cache is the interface Redis at the rows that the
-- handler stores as JSON; the object store and the queue are lists of what they were given.
use system_design_lab.Prelude.{
  ℕ, ◌*◌, String, Bool, Option, none, some, List, [], ◌∷◌, map, take, eqb, ltb, ◌==◌, text_eq,
  if◌then◌else◌, ◌||◌, not,
}
use system_design_lab.Prelude.Assoc.{Assoc, put}
use system_design_lab.Prelude.Texts.{◌<>◌}
use system_design_lab.Redis.{Redis, cache_get, cache_set}
use system_design_lab.Gin.{Ctx, param}
use system_design_lab.Database.{Db, Track, TrackFormat, find_track, has_track}
use system_design_lab.Worker.Upload.{UploadEvent}
use system_design_lab.Handlers.{
  Env, Reply, reply, problem, FormatRow, TrackRow, track_row, order_by, select, any,
}

abbrev newer : Track → Track → Bool
newer t u = ltb u.created_at t.created_at

abbrev pub full_row : Track → TrackRow
full_row t = track_row t.status t

unfoldable pub list : Env → Db → Reply (List TrackRow)
list env db =
    if env.fails
    then problem 500 "failed to list tracks"
    else reply 200 (map full_row (take 50 (order_by newer db.tracks)))

abbrev lower : TrackFormat → TrackFormat → Bool
lower f g = ltb f.bitrate g.bitrate

abbrev format_row : TrackFormat → FormatRow
format_row f = record { bitrate = f.bitrate; codec = f.codec; size_bytes = f.size_bytes }

-- The formats of a track, none where their query fails.
unfoldable pub formats_of : Bool → ℕ → Db → List FormatRow
formats_of fails id db =
    if fails
    then []
    else map format_row (order_by lower (select (λ f. eqb f.track_id id) db.track_formats))

-- The row that the table has for a track.
unfoldable pub read_track : Env → Bool → String → Db → Option TrackRow
unfolding formats_of
read_track env formats_fail text db = if env.fails then none else elim (env.cast text) [
  | none ↦ none
  | some id ↦ elim (find_track id db.tracks) [
    | none ↦ none
    | some t ↦ some (record (full_row t) { formats = formats_of formats_fail id db })
  ]
]

abbrev pub cache_key : String → String
cache_key id = "track:" <> id

module _ (R : Redis TrackRow) where
  -- `cache.Set` with a time to live of an hour, if the status is ready.
  unfoldable pub keep_ready : Bool → String → TrackRow → R.State → R.State
  keep_ready down id t s =
      if t.status == "ready" then cache_set R down (cache_key id) t (3600 * 1000000000) s else s

  -- `down` says that the calls of the cache fail.
  unfoldable pub get_row : Bool → Env → Bool → String → Db → R.State → Reply TrackRow × R.State
  unfolding read_track keep_ready
  get_row down env formats_fail id db s =
      let cached = cache_get R down (cache_key id) s in
      elim cached [
        | some t ↦ (reply 200 t, s)
        | none ↦ elim (read_track env formats_fail id db) [
          | none ↦ (problem 404 "track not found", s)
          | some t ↦ (reply 200 t, keep_ready down id t s)
        ]
      ]

  unfoldable pub get : Bool → Env → Bool → Ctx → Db → R.State → Reply TrackRow × R.State
  unfolding get_row
  get down env formats_fail c db s =
      if not (env.parses (param c "id"))
      then (problem 400 "invalid track id", s)
      else get_row down env formats_fail (param c "id") db s

-- Whether the handler has an object store and a producer, which are nil pointers without S3_BUCKET and
-- KAFKA_BROKERS, and the steps of an upload that can fail.
pub record Failures : Type 0 where
  pub has_store : Bool
  pub has_producer : Bool
  pub lookup : Bool
  pub read : Bool
  pub upload : Bool
  pub insert : Bool
  pub publish : Bool

pub record Uploads : Type 0 where
  pub db : Db
  pub objects : Assoc String (List ℕ)
  pub published : List UploadEvent

-- The form of the request; a missing field is the empty text.
pub record Form : Type 0 where
  pub title : String
  pub artist_id : String
  pub audio : Option (List ℕ)

abbrev pub audio_key : String → String
audio_key id = "tracks/" <> (id <> "/audio")

abbrev pub new_track : Env → String → String → ℕ → Track
new_track env text title artist = record {
  id = env.new_id;
  title = title;
  artist_id = artist;
  duration_ms = 0;
  audio_key = audio_key text;
  release_date = none;
  play_count = 0;
  created_at = env.now;
  status = "pending";
}

abbrev pub event_of : String → UploadEvent
event_of text = record { track_id = text; audio_key = audio_key text }

-- The artist that the form names, if the table has it and the query does not fail.
unfoldable pub known_artist : Env → Failures → String → Db → Option ℕ
known_artist env failures text db = if failures.lookup then none else elim (env.cast text) [
  | none ↦ none
  | some id ↦ if any (λ a. eqb a.id id) db.artists then some id else none
]

-- gin's answer to a panic of the handler, which has no body.
abbrev pub recovered : Reply TrackRow
recovered = problem 500 ""

-- What follows the checks of the form; `text` is the new UUID as a text.
unfoldable pub save_track :
    Env → Failures → String → String → ℕ → List ℕ → Uploads → Reply TrackRow × Uploads
save_track env failures text title artist audio s =
    if failures.read
    then (problem 500 "failed to read file", s)
    else if not failures.has_store
    then (recovered, s)
    else if failures.upload
    then (problem 500 "failed to upload audio", s)
    else let s1 = record s { objects = put s.objects (audio_key text) audio } in
      if failures.insert || has_track env.new_id s.db.tracks
      then (problem 500 "failed to save track", s1)
      else let t = new_track env text title artist in
        let s2 = record s1 { db = record (s.db) { tracks = t ∷ s.db.tracks } } in
        if not failures.has_producer
        then (recovered, s2)
        else if failures.publish
        then (problem 500 "failed to queue upload", s2)
        else (reply 202 (full_row t), record s2 { published = event_of text ∷ s.published })

unfoldable pub create : Env → Failures → String → Form → Uploads → Reply TrackRow × Uploads
unfolding save_track known_artist
create env failures text form s =
    if form.title == "" || form.artist_id == ""
    then (problem 400 "title and artist_id are required", s)
    else elim form.audio [
      | none ↦ (problem 400 "audio file is required", s)
      | some audio ↦ elim (known_artist env failures form.artist_id s.db) [
        | none ↦ (problem 400 "artist not found", s)
        | some artist ↦ save_track env failures text form.title artist audio s
      ]
    ]
