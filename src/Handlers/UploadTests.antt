-- ===== src/Handlers/UploadTests.antt =====
-- The theorems on uploads at a concrete form.
use system_design_lab.Prelude.{
  ℕ, String, true, false, Option, none, some, [], ◌∷◌, ◌≡◌, refl, ◌⊎◌, ◌==◌, text_eq, if◌then◌else◌,
}
use system_design_lab.Database.{Artist}
use system_design_lab.Worker.Queue.{done, failed}
use system_design_lab.Worker.Upload.{Outside, process}
use system_design_lab.Worker.Pipeline.{status_of}
use system_design_lab.Handlers.{Env, reply, any}
use system_design_lab.Handlers.Tracks.{
  Failures, Form, Uploads, create, event_of, full_row, known_artist, new_track, save_track,
}
use system_design_lab.Handlers.Releases.{Ending, create-Ending, create_settles, store_of}

abbrev artist : Artist
artist = record { id = 5; name = "A"; created_at = 0 }

abbrev uploads : Uploads
uploads = record {
  db = record {
    artists = artist ∷ [];
    tracks = [];
    playlists = [];
    playlist_tracks = [];
    play_events = [];
    users = [];
    audit_logs = [];
    favorites = [];
    track_formats = [];
  };
  objects = [];
  published = [];
}

abbrev cast : String → Option ℕ
cast s = if s == "five" then some 5 else if s == "nine" then some 9 else none

abbrev env : Env
env = record { fails = false; cast = cast; parses = λ s. true; now = 100; new_id = 9 }

abbrev none_fail : Failures
none_fail = record {
  has_store = true;
  has_producer = true;
  lookup = false;
  read = false;
  upload = false;
  insert = false;
  publish = false;
}

abbrev form : Form
form = record { title = "title"; artist_id = "five"; audio = some (1 ∷ 2 ∷ []) }

create-Ending_example :
    let (answer, s') = create env none_fail "nine" form uploads in
    Ending env none_fail "nine" form uploads answer s'
create-Ending_example = create-Ending env none_fail "nine" form uploads

abbrev up : Outside
up = record { fails = λ call. false; cast = cast; seconds_ms = some 3000; encoded = λ b. b ∷ [] }

created :
    (create env none_fail "nine" form uploads).0
    ≡ reply 202 (full_row (new_track env "nine" "title" 5))
unfolding create known_artist save_track any
created = refl

create_settles_example :
    let (result, s') =
      process up (event_of "nine") (store_of (create env none_fail "nine" form uploads).1) in
    ((result ≡ done) × (status_of 9 s' ≡ some "ready"))
    ⊎ ((message : String) × (result ≡ failed message) × (status_of 9 s' ≡ some "error"))
create_settles_example =
    create_settles up env none_fail "nine" form uploads (full_row (new_track env "nine" "title" 5))
      created refl refl refl refl
