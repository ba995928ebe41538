-- ===== src/Worker/Tests.antt =====
-- The theorems on the workers at a small database and concrete failures.
use system_design_lab.Prelude.{
  ℕ, suc, max, ◌≤◌, ◌↔◌, ◌+◌, String, Bool, true, false, Option, none, some, List, [], ◌∷◌, ◌≡◌,
  ◌≢◌, refl, ◌⊎◌, eqb, ◌==◌, text_eq, if◌then◌else◌, arith,
}
use system_design_lab.Database.{update_track, Db, Track, find_track}
use system_design_lab.Worker.Queue.{Result, done, failed, consume}
use system_design_lab.Worker.Upload.{
  UploadEvent, Call, read_file, Outside, Store, work, finish, encode_all, encode, transcode,
  probe_duration, upsert_format, mark_track, process,
}
use system_design_lab.Worker.Analytics.{PlayMessage, Statement, commit_tx}
use system_design_lab.Worker.Pipeline.{status_of, Starts, process_settles}
use system_design_lab.Worker.Delivery.{process_redelivery}
use system_design_lab.Worker.Formats.{HoldsAll, process_formats}
use system_design_lab.Worker.Offsets.{Partition, poll, marked, AllBelow, poll_redelivers}
use system_design_lab.Search.{TrackDocument}
use system_design_lab.Worker.Indexing.{artist_name, names_of, document, indexed}
use system_design_lab.Worker.Catalogue.{IsListed, indexed_ready}
use system_design_lab.Worker.Race.{
  Pc, checked, working, stopped, System, move, claim, Step, check, claims, succeeds, initial, Reach,
  here, next, Reach-settled, two_deliveries,
}
use system_design_lab.Worker.Plays.{count_of, events_of, plays_of, handle, Delivered, plays_counted}

abbrev track : ℕ → String → Track
track id status = record {
  id = id;
  title = "title";
  artist_id = 1;
  duration_ms = 0;
  audio_key = "key";
  release_date = none;
  play_count = 4;
  created_at = 0;
  status = status;
}

abbrev db : Db
db = record {
  artists = [];
  tracks = track 7 "pending" ∷ track 8 "ready" ∷ [];
  playlists = [];
  playlist_tracks = [];
  play_events = [];
  users = [];
  audit_logs = [];
  favorites = [];
  track_formats = [];
}

abbrev store : Store
store = record { db = db; objects = [] }

abbrev cast : String → Option ℕ
cast s = if s == "seven" then some 7 else none

-- The file of the second bitrate cannot be read.
abbrev unread_fails : Call → Bool
unread_fails (read_file b) = eqb b 128
unread_fails _ = false

abbrev unread : Outside
unread = record { fails = unread_fails; cast = cast; seconds_ms = some 3000; encoded = λ b. b ∷ [] }

abbrev up : Outside
up = record { fails = λ call. false; cast = cast; seconds_ms = some 3000; encoded = λ b. b ∷ [] }

abbrev event : UploadEvent
event = record { track_id = "seven"; audio_key = "key" }

starts : Starts unread event 7 (track 7 "pending") store
unfolding find_track
starts = record { names = refl; checked = refl; found = refl; pending = refl; claimed = refl }

process_settles_example :
    let (result, s') = process unread event store in
    ((result ≡ done) × (status_of 7 s' ≡ some "ready"))
    ⊎ ((message : String) × (result ≡ failed message) × (status_of 7 s' ≡ some "error"))
process_settles_example = process_settles unread event 7 (track 7 "pending") store starts refl

process_redelivery_example :
    let (result, s') = process unread event store in process up event s' ≡ (done, s')
process_redelivery_example =
    process_redelivery unread up event 7 (track 7 "pending") store starts refl refl

Starts-up : Starts up event 7 (track 7 "pending") store
unfolding find_track
Starts-up = record { names = refl; checked = refl; found = refl; pending = refl; claimed = refl }

all_up : (process up event store).0 ≡ done
unfolding process work finish encode_all encode transcode probe_duration find_track upsert_format
    update_track mark_track
all_up = refl

process_formats_example : HoldsAll up event 7 (process up event store).1
process_formats_example = process_formats up event 7 (track 7 "pending") store Starts-up all_up

abbrev message : PlayMessage
message = record { track_id = "seven"; source = "web"; timestamp = "" }

abbrev commit_fails : Statement → Bool
commit_fails commit_tx = true
commit_fails _ = false

abbrev deliveries : List Delivered
deliveries =
    (record { fails = λ s. false; cast = cast; now = 1 }, message)
    ∷ (record { fails = commit_fails; cast = cast; now = 2 }, message)
    ∷ (record { fails = λ s. false; cast = cast; now = 3 }, message)
    ∷ []

four_plays : count_of 7 db ≡ some 4
unfolding find_track
four_plays = refl

plays_counted_example :
    let (marked, db') = consume handle deliveries db in
    (count_of 7 db' ≡ some (plays_of 7 marked + 4))
    × (events_of 7 db'.play_events ≡ plays_of 7 marked + events_of 7 db.play_events)
plays_counted_example = plays_counted 7 4 deliveries db four_plays

-- One delivery, from its first statement to its end.
abbrev passed : Pc → System
passed p = record initial { pc = move initial.pc 0 p }

abbrev claimed : System
claimed = record (passed checked) {
  status = claim "pending";
  pc = move (passed checked).pc 0 working;
}

abbrev settled : System
settled = record claimed { status = "ready"; pc = move claimed.pc 0 stopped }

reach_settled : Reach settled
reach_settled = next (next (next here (check 0 refl refl)) (claims 0 refl)) (succeeds 0 refl)

idle_settled : (i : ℕ) → settled.pc i ≢ working
idle_settled i e = ground (arith, e)

Reach-settled_example :
    (settled.status ≡ "pending") ⊎ ((settled.status ≡ "ready") ⊎ (settled.status ≡ "error"))
Reach-settled_example = Reach-settled settled reach_settled idle_settled refl refl

two_deliveries_example :
    ((s : System) × Reach s × (s.pc 0 ≡ working) × (s.pc 1 ≡ working))
    × ((s : System) × (t : System) × Reach s
        × (s.status ≡ "ready")
        × Step s t
        × (t.status ≡ "error"))
two_deliveries_example = two_deliveries 0 1 (omega arith)

-- The offsets of a partition in memory.
abbrev offsets : Partition
offsets = record {
  State = ℕ;
  mark = λ s o. max s (suc o);
  resume = λ s. s;
  resume-mark = λ s o. refl;
}

abbrev accept : Bool → ℕ → Result × ℕ
accept good w = (if good then done else failed "bad", w)

-- The first record fails and the second does not.
abbrev two_records : List (ℕ × Bool)
two_records = (0, false) ∷ (1, true) ∷ []

poll_redelivers_example :
    (poll offsets accept two_records 0 7).0 ≤ 0
    ↔ AllBelow offsets accept 0 (marked offsets accept two_records 7)
poll_redelivers_example = poll_redelivers offsets accept two_records 0 7 0 (omega arith)

abbrev listed_store : Store
listed_store = record store {
  db = record db { artists = record { id = 1; name = "A"; created_at = 0 } ∷ [] };
}

abbrev listed : TrackDocument
listed = record {
  id = "seven";
  title = "title";
  artist_name = "A";
  play_count = 0;
  status = "ready";
}

sent : indexed false up event listed_store ≡ some listed
unfolding indexed document names_of artist_name process work finish encode_all encode transcode
    probe_duration find_track upsert_format update_track mark_track
sent = refl

indexed_ready_example :
    (id : ℕ) × (t : Track) × (up.cast event.track_id ≡ some id)
    × (find_track id (process up event listed_store).1.db.tracks ≡ some t)
    × (t.status ≡ "ready")
    × IsListed event t listed
indexed_ready_example = indexed_ready false up event listed_store sent
