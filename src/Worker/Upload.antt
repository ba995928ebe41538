-- ===== src/Worker/Upload.antt =====
-- beatstream/internal/worker/upload.go and transcode.go. ffmpeg, ffprobe, the files, the object
-- store and the connection to the database are parameters: for each call whether it fails, and
-- what it yields.
use system_design_lab.Prelude.{
  ℕ, String, Bool, Option, none, some, List, [], ◌∷◌, length, eqb, ◌==◌, text_eq, if◌then◌else◌,
  ◌||◌, not, ◌&&◌,
}
use system_design_lab.Prelude.Assoc.{Assoc, put}
use system_design_lab.Prelude.Texts.{◌<>◌, itoa}
use system_design_lab.Database.{
  Db, Track, TrackFormat, find_track, update_track, set_status, has_track,
}
use system_design_lab.Worker.Queue.{Result, done, failed}

pub record UploadEvent : Type 0 where
  pub track_id : String
  pub audio_key : String

-- The calls that can fail.
pub data Call : Type 0 where
  check_status set_processing make_temp_dir download create_file copy_file run_ffprobe set_ready
        mark_error :
      Call
  run_ffmpeg stat_output read_file upload insert_format : ℕ → Call

-- `cast` reads a text as a UUID; `seconds_ms` is what ffprobe says, in milliseconds, if it parses;
-- `encoded` is the file that ffmpeg writes for a bitrate.
pub record Outside : Type 0 where
  pub fails : Call → Bool
  pub cast : String → Option ℕ
  pub seconds_ms : Option ℕ
  pub encoded : ℕ → List ℕ

pub record Store : Type 0 where
  pub db : Db
  pub objects : Assoc String (List ℕ)

abbrev pub bitrates : List ℕ
bitrates = 64 ∷ 128 ∷ 320 ∷ []

pub record TranscodeResult : Type 0 where
  pub bitrate : ℕ
  pub output_key : String
  pub size_bytes : ℕ

abbrev pub output_key : String → ℕ → String
output_key track_id bitrate = "tracks/" <> (track_id <> ("/" <> (itoa bitrate <> ".ogg")))

module _ (out : Outside) where
  unfoldable pub transcode : String → ℕ → Option TranscodeResult
  transcode track_id bitrate =
      if out.fails (run_ffmpeg bitrate) || out.fails (stat_output bitrate)
      then none
      else some (record {
        bitrate = bitrate;
        output_key = output_key track_id bitrate;
        size_bytes = length (out.encoded bitrate);
      })

  unfoldable pub probe_duration : Option ℕ
  probe_duration = if out.fails run_ffprobe then none else out.seconds_ms

  -- Whether downloadFromS3 returns an error.
  abbrev pub download_fails : Bool
  download_fails = out.fails download || (out.fails create_file || out.fails copy_file)

abbrev pub is_format : ℕ → ℕ → TrackFormat → Bool
is_format id bitrate f = eqb f.track_id id && (eqb f.bitrate bitrate && f.codec == "ogg")

-- `INSERT ... ON CONFLICT (track_id, bitrate, codec) DO UPDATE`
unfoldable pub upsert_format : ℕ → ℕ → String → ℕ → List TrackFormat → List TrackFormat
upsert_format id bitrate key size [] =
    record { track_id = id; bitrate = bitrate; codec = "ogg"; s3_key = key; size_bytes = size } ∷ []
upsert_format id bitrate key size (f ∷ fs) =
    let rest = upsert_format id bitrate key size fs in
    if is_format id bitrate f then record f { s3_key = key; size_bytes = size } ∷ fs else f ∷ rest

abbrev pub set_tracks : Store → List Track → Store
set_tracks s ts = record s { db = record (s.db) { tracks = ts } }

module _ (out : Outside) (ev : UploadEvent) (id : ℕ) where
  -- The error of markError is dropped.
  unfoldable pub mark_track : Store → Store
  mark_track s =
      if out.fails mark_error
      then s
      else set_tracks s (update_track id (set_status "error") s.db.tracks)

  abbrev pub give_up : String → Store → Result × Store
  give_up message s = (failed message, mark_track s)

  -- The body of the loop over the bitrates up to its insertion, without markError: the error's
  -- message, or none. The row refers to the track.
  unfoldable pub encode : ℕ → Store → Option String × Store
  unfolding transcode
  encode bitrate s = elim (transcode out ev.track_id bitrate) [
    | none ↦ (some "transcode", s)
    | some result ↦
        if out.fails (read_file bitrate)
        then (some "read transcoded file", s)
        else if out.fails (upload bitrate)
        then (some "upload to s3", s)
        else let s1 = record s {
          objects = put s.objects result.output_key (out.encoded bitrate);
        } in
          if out.fails (insert_format bitrate) || not (has_track id s1.db.tracks)
          then (some "insert track_format", s1)
          else (
            none,
            record s1 {
              db = record (s1.db) {
                track_formats =
                    upsert_format id bitrate result.output_key result.size_bytes
                      s1.db.track_formats;
              };
            },
          )
  ]

  unfoldable pub encode_all : List ℕ → Store → Option String × Store
  unfolding encode
  encode_all [] s = (none, s)
  encode_all (b ∷ bs) s =
      let (error, s1) = encode b s in
      elim error [ some message ↦ (some message, s1) | none ↦ encode_all bs s1 ]

  abbrev pub ready : ℕ → Track → Track
  ready duration t = record t { status = "ready"; duration_ms = duration }

  -- What follows the loop, up to the search index, whose errors are dropped.
  unfoldable pub finish : ℕ → Option String × Store → Result × Store
  unfolding mark_track
  finish duration (some message, s) = give_up message s
  finish duration (none, s) =
      if out.fails set_ready
      then give_up "set ready" s
      else (done, set_tracks s (update_track id (ready duration) s.db.tracks))

  -- What follows the update to processing.
  unfoldable pub work : Store → Result × Store
  unfolding finish encode_all mark_track probe_duration
  work s =
      if out.fails make_temp_dir
      then give_up "create temp dir" s
      else if download_fails out
      then give_up "download original" s
      else elim (probe_duration out) [
        | none ↦ give_up "probe duration" s
        | some duration ↦ finish duration (encode_all bitrates s)
      ]

abbrev pub begin_processing : Track → Track
begin_processing t = if t.status == "pending" then set_status "processing" t else t

abbrev pub mark_processing : ℕ → Store → Store
mark_processing id s = set_tracks s (update_track id begin_processing s.db.tracks)

-- `UploadWorker.process`
unfoldable pub process : Outside → UploadEvent → Store → Result × Store
unfolding work
process out ev s =
    if out.fails check_status then (failed "status check", s) else elim (out.cast ev.track_id) [
      | none ↦ (failed "status check", s)
      | some id ↦ elim (find_track id s.db.tracks) [
        | none ↦ (failed "status check", s)
        | some t ↦
            if not (t.status == "pending")
            then (done, s)
            else if out.fails set_processing
            then (failed "set processing", s)
            else work out ev id (mark_processing id s)
      ]
    ]
