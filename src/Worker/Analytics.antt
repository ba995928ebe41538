-- ===== src/Worker/Analytics.antt =====
-- beatstream/internal/worker/analytics.go: the transaction that records a play.
use system_design_lab.Prelude.{
  ℕ, ◌+◌, String, Bool, Option, none, some, ◌∷◌, if◌then◌else◌, ◌||◌, not,
}
use system_design_lab.Database.{Db, Track, update_track, has_track}
use system_design_lab.Worker.Queue.{Result, done, failed}

pub record PlayMessage : Type 0 where
  pub track_id : String
  pub source : String
  pub timestamp : String

pub data Statement : Type 0 where
  begin_tx insert_event update_count commit_tx : Statement

-- The connection: which statements fail, how a text is read as a UUID, and the time.
pub record Connection : Type 0 where
  pub fails : Statement → Bool
  pub cast : String → Option ℕ
  pub now : ℕ

abbrev pub one_play : Track → Track
one_play t = record t { play_count = t.play_count + 1 }

-- `AnalyticsWorker.record`. The statements run on a copy that the commit puts in place; a return
-- before it rolls back. The row refers to the track.
unfoldable pub record_play : Connection → PlayMessage → Db → Result × Db
record_play conn ev db =
    if conn.fails begin_tx then (failed "begin tx", db) else elim (conn.cast ev.track_id) [
      | none ↦ (failed "insert play_event", db)
      | some id ↦
          if conn.fails insert_event || not (has_track id db.tracks)
          then (failed "insert play_event", db)
          else let tx1 = record db {
            play_events =
                record {
                  user_id = none;
                  track_id = id;
                  played_at = conn.now;
                  ms_played = none;
                  source = some ev.source;
                }
                ∷ db.play_events;
          } in
            if conn.fails update_count
            then (failed "update play_count", db)
            else let tx2 = record tx1 { tracks = update_track id one_play tx1.tracks } in
              if conn.fails commit_tx then (failed "commit", db) else (done, tx2)
    ]
