-- ===== src/Worker/Plays.antt =====
-- The play counts of beatstream/internal/worker/analytics.go, run by the consumer of
-- beatstream/internal/queue/kafka.go.
use mathlib.Core.Option
use system_design_lab.Prelude.{
  ℕ, suc, ◌+◌, String, Bool, true, false, not, Option, none, some, List, [], ◌∷◌, ◌≡◌, refl, ap,
  ◌∙◌, inl, inr, eqb, if◌then◌else◌, ◌||◌, arith, Bool-cases, Option-cases,
}
use system_design_lab.Database.{Db, PlayEvent, find_track, update_track, has_track}
use system_design_lab.Database.Tracks.{find_track-update_track}
use system_design_lab.Worker.Queue.{Result, done, failed, consume}
use system_design_lab.Worker.Analytics.{
  PlayMessage, begin_tx, insert_event, update_count, commit_tx, Connection, one_play, record_play,
}

-- How many rows of play_events are of a track.
abbrev pub events_of : ℕ → List PlayEvent → ℕ
events_of id [] = 0
events_of id (e ∷ es) = if eqb e.track_id id then suc (events_of id es) else events_of id es

abbrev pub count_of : ℕ → Db → Option ℕ
count_of id db = Option.map (λ t. t.play_count) (find_track id db.tracks)

-- A message with the connection as it is when the message is handled.
abbrev pub Delivered : Type 0
Delivered = Connection × PlayMessage

abbrev pub is_named : ℕ → Option ℕ → Bool
is_named id none = false
is_named id (some j) = eqb j id

abbrev pub names_track : ℕ → Delivered → Bool
names_track id d = is_named id (d.0.cast d.1.track_id)

abbrev pub plays_of : ℕ → List Delivered → ℕ
plays_of id [] = 0
plays_of id (d ∷ ds) = if names_track id d then suc (plays_of id ds) else plays_of id ds

-- A transaction is committed with both statements or leaves the database as it was.
pub data Recorded (conn : Connection) (ev : PlayMessage) (db : Db) : Result → Db → Type 0 where
  undone : (message : String) → Recorded conn ev db (failed message) db
  committed :
      (id : ℕ)
      → conn.cast ev.track_id ≡ some id
      → (e : PlayEvent) → e.track_id ≡ id
      → e.user_id ≡ none
      → Recorded conn ev db done (record db {
        play_events = e ∷ db.play_events;
        tracks = update_track id one_play db.tracks;
      })

pub record_play-Recorded :
    (conn : Connection) (ev : PlayMessage) (db : Db)
    → let (result, db') = record_play conn ev db in Recorded conn ev db result db'
unfolding record_play
record_play-Recorded conn ev db = elim (Bool-cases (conn.fails begin_tx)) [
  | inl down ↦ rw (down, record_play) (undone "begin tx")
  | inr up ↦ elim (Option-cases (conn.cast ev.track_id)) [
    | inl unread ↦ rw (up, record_play, unread) (undone "insert play_event")
    | inr (id, names) ↦
        elim (Bool-cases (conn.fails insert_event || not (has_track id db.tracks))) [
          | inl refused ↦ rw (up, record_play, names, refused) (undone "insert play_event")
          | inr inserted ↦ elim (Bool-cases (conn.fails update_count)) [
            | inl lost ↦ rw (up, record_play, names, inserted, lost) (undone "update play_count")
            | inr counted ↦ elim (Bool-cases (conn.fails commit_tx)) [
              | inl unkept ↦
                  rw (up, record_play, names, inserted, counted, unkept) (undone "commit")
              | inr kept ↦
                  rw (up, record_play, names, inserted, counted, kept)
                    (committed id names
                      (record {
                        user_id = none;
                        track_id = id;
                        played_at = conn.now;
                        ms_played = none;
                        source = some ev.source;
                      })
                      refl refl)
            ]
          ]
        ]
  ]
]

abbrev pub handle : Delivered → Db → Result × Db
handle d db = record_play d.0 d.1 db

count_of-update_track :
    (j id : ℕ) (db : Db) (es : List PlayEvent) {n : ℕ}
    → count_of id db ≡ some n
    → count_of id (record db { play_events = es; tracks = update_track j one_play db.tracks })
      ≡ some (if eqb j id then suc n else n)
count_of-update_track j id db es {n = n} e = elim (Option-cases (find_track id db.tracks)) [
  | inl missing ↦ absurd (ground (arith, missing, e))
  | inr (t, found) ↦
      let count : t.play_count ≡ n = ground (arith, found, e) in
      ap (Option.map (λ t. t.play_count))
        (find_track-update_track one_play j id db.tracks (λ t. refl))
      ∙ ground (arith, found, count)
]

-- Both counts of a track have grown by the plays of it among the marked messages.
abbrev Counts : ℕ → ℕ → Db → List Delivered × Db → Type 0
Counts id n db (marked, db') =
    (count_of id db' ≡ some (plays_of id marked + n))
    × (events_of id db'.play_events ≡ plays_of id marked + events_of id db.play_events)

abbrev pub mark : Delivered → Result → List Delivered × Db → List Delivered × Db
mark d done (marked, db) = (d ∷ marked, db)
mark d (failed message) (marked, db) = (marked, db)

consume_step :
    (id n : ℕ) (d : Delivered) {db db' : Db} {r : Result} (rest : List Delivered × Db)
    → Recorded d.0 d.1 db r db'
    → count_of id db ≡ some n
    → ((m : ℕ) → count_of id db' ≡ some m → Counts id m db' rest)
    → Counts id n db (mark d r rest)
consume_step id n d rest (undone message) e counts = counts n e
consume_step id n d {db = db} (marked, db2) (committed j names event here nobody) e counts =
    elim (Bool-cases (eqb j id)) [
      | inl same ↦
          let named : names_track id d ≡ true = ap (is_named id) names ∙ same in
          let now : eqb event.track_id id ≡ true = rw (here, same) in
          let (count, events) =
            counts (suc n) (count_of-update_track j id db (event ∷ db.play_events) e ∙ rw same) in
          (rw named (count ∙ ap some (omega arith)), rw named (events ∙ rw now (omega arith)))
      | inr other ↦
          let named : names_track id d ≡ false = ap (is_named id) names ∙ other in
          let now : eqb event.track_id id ≡ false = rw (here, other) in
          let (count, events) =
            counts n (count_of-update_track j id db (event ∷ db.play_events) e ∙ rw other) in
          (rw named count, rw named (events ∙ rw now))
    ]

pub consume-mark :
    (d : Delivered) (ds : List Delivered) (db : Db)
    → let (r, db') = handle d db in consume handle (d ∷ ds) db ≡ mark d r (consume handle ds db')
unfolding consume
consume-mark d ds db = go (handle d db).0 (consume handle ds (handle d db).1)
  where
    go :
        (r : Result) (rest : List Delivered × Db)
        → (elim r [ done ↦ (d ∷ rest.0, rest.1) | failed message ↦ (rest.0, rest.1) ])
          ≡ mark d r rest
    go done rest = refl
    go (failed message) rest = refl

consume_nothing : (db : Db) → consume handle [] db ≡ ([], db)
unfolding consume
consume_nothing db = refl

-- Whatever fails, and in whatever order the messages arrive, the play count of a track and its rows
-- in play_events both grow by the number of marked messages that name it: a message that is not
-- marked leaves no trace.
pub plays_counted :
    (id n : ℕ) (ds : List Delivered) (db : Db)
    → count_of id db ≡ some n
    → let (marked, db') = consume handle ds db in
      (count_of id db' ≡ some (plays_of id marked + n))
      × (events_of id db'.play_events ≡ plays_of id marked + events_of id db.play_events)
plays_counted id n [] db e = rw (consume_nothing db) (e ∙ ap some (omega arith), omega arith)
plays_counted id n (d ∷ ds) db e = rw (consume-mark d ds db) (
    consume_step id n d (consume handle ds (handle d db).1) (record_play-Recorded d.0 d.1 db) e
      (λ m e'. plays_counted id m ds (handle d db).1 e'))
