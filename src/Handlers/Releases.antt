-- ===== src/Handlers/Releases.antt =====
-- Uploading a track and reading it, in beatstream/internal/handler/tracks.go.
use mathlib.Core.Path.{subst}
use system_design_lab.Prelude.{
  ℕ, String, true, false, some, List, ◌∷◌, ◌≡◌, sym, inl, inr, ◌⊎◌, refl, eqb_iff, ◌==◌, text_eq,
  ◌||◌, arith, Bool-cases, Option-cases,
}
use system_design_lab.Prelude.Assoc.{Assoc, put}
use system_design_lab.Database.{Track, find_track, has_track}
use system_design_lab.Worker.Queue.{done, failed}
use system_design_lab.Worker.Upload.{
  Outside, Store, check_status, set_processing, mark_error, process,
}
use system_design_lab.Worker.Pipeline.{status_of, Starts, process_settles}
use system_design_lab.Handlers.{Env, Reply, reply, problem, TrackRow}
use system_design_lab.Handlers.Tracks.{
  full_row, recovered, Failures, Uploads, Form, audio_key, new_track, event_of, known_artist,
  save_track, create,
}

-- No object is new, or one with the audio.
abbrev pub IsStored : String → Assoc String (List ℕ) → Assoc String (List ℕ) → Type 0
IsStored text objects objects' =
    (objects' ≡ objects) ⊎ ((audio : List ℕ) × (objects' ≡ put objects (audio_key text) audio))

-- How an upload ends: refused with nothing in the tables and the queue, saved but not published, for
-- want of a producer or otherwise, or accepted.
pub data Ending (env : Env) (failures : Failures) (text : String) (form : Form) (s : Uploads)
    : Reply TrackRow → Uploads → Type 0 where
  refused :
      (status : ℕ) (message : String) (s' : Uploads)
      → s'.db ≡ s.db
      → s'.published ≡ s.published
      → IsStored text s.objects s'.objects
      → Ending env failures text form s (problem status message) s'
  unqueued :
      (artist : ℕ) (audio : List ℕ)
      → failures.has_producer ≡ false
      → Ending env failures text form s recovered (record s {
        db = record (s.db) { tracks = new_track env text form.title artist ∷ s.db.tracks };
        objects = put s.objects (audio_key text) audio;
      })
  unpublished :
      (artist : ℕ) (audio : List ℕ)
      → Ending env failures text form s (problem 500 "failed to queue upload") (record s {
        db = record (s.db) { tracks = new_track env text form.title artist ∷ s.db.tracks };
        objects = put s.objects (audio_key text) audio;
      })
  accepted :
      (artist : ℕ) (audio : List ℕ)
      → form.audio ≡ some audio
      → Ending env failures text form s
          (reply 202 (full_row (new_track env text form.title artist)))
          (record s {
            db = record (s.db) { tracks = new_track env text form.title artist ∷ s.db.tracks };
            objects = put s.objects (audio_key text) audio;
            published = event_of text ∷ s.published;
          })

-- An upload ends the way of what it computes to.
Ending-same :
    {env : Env} {failures : Failures} {text : String} {form : Form} {s : Uploads}
    {r r' : Reply TrackRow × Uploads}
    → r ≡ r'
    → Ending env failures text form s r'.0 r'.1
    → Ending env failures text form s r.0 r.1
Ending-same {env = env} {failures = failures} {text = text} {form = form} {s = s} e h =
    subst (λ (r : Reply TrackRow × Uploads). Ending env failures text form s r.0 r.1) (sym e) h

module _ (env : Env) (failures : Failures) (text : String) (form : Form) (artist : ℕ)
    (audio : List ℕ) (s : Uploads) (given : form.audio ≡ some audio) where
  abbrev saved_answer : Reply TrackRow × Uploads
  saved_answer = save_track env failures text form.title artist audio s

  abbrev with_object : Uploads
  with_object = record s { objects = put s.objects (audio_key text) audio }

  abbrev with_row : Uploads
  with_row = record with_object {
    db = record (s.db) { tracks = new_track env text form.title artist ∷ s.db.tracks };
  }

  row-Ending :
      failures.read ≡ false
      → failures.has_store ≡ true
      → failures.upload ≡ false
      → (failures.insert || has_track env.new_id s.db.tracks) ≡ false
      → Ending env failures text form s saved_answer.0 saved_answer.1
  unfolding save_track
  row-Ending read there sent saved = elim (Bool-cases failures.has_producer) [
    | inr mute ↦
        let e : saved_answer ≡ (recovered, with_row) =
          rw (read, save_track, there, sent, saved, mute) in
        Ending-same e (unqueued artist audio mute)
    | inl queues ↦ elim (Bool-cases failures.publish) [
      | inl lost ↦
          let e : saved_answer ≡ (problem 500 "failed to queue upload", with_row) =
            rw (read, save_track, there, sent, saved, queues, lost) in
          Ending-same e (unpublished artist audio)
      | inr queued ↦
          let e : saved_answer ≡ (
            reply 202 (full_row (new_track env text form.title artist)),
            record with_row { published = event_of text ∷ s.published },
          ) =
            rw (read, save_track, there, sent, saved, queues, queued) in
          Ending-same e (accepted artist audio given)
    ]
  ]

  object-Ending :
      failures.read ≡ false
      → failures.has_store ≡ true
      → failures.upload ≡ false
      → Ending env failures text form s saved_answer.0 saved_answer.1
  unfolding save_track
  object-Ending read there sent =
      elim (Bool-cases (failures.insert || has_track env.new_id s.db.tracks)) [
        | inl unsaved ↦
            let e : saved_answer ≡ (problem 500 "failed to save track", with_object) =
              rw (read, save_track, there, sent, unsaved) in
            Ending-same e
              (refused 500 "failed to save track" with_object refl refl (inr (audio, refl)))
        | inr saved ↦ row-Ending read there sent saved
      ]

  save_track-Ending : Ending env failures text form s saved_answer.0 saved_answer.1
  unfolding save_track
  save_track-Ending = elim (Bool-cases failures.read) [
    | inl unread ↦
        let e : saved_answer ≡ (problem 500 "failed to read file", s) = rw (unread, save_track) in
        Ending-same e (refused 500 "failed to read file" s refl refl (inl refl))
    | inr read ↦ elim (Bool-cases failures.has_store) [
      | inr storeless ↦
          let e : saved_answer ≡ (recovered, s) = rw (read, save_track, storeless) in
          Ending-same e (refused 500 "" s refl refl (inl refl))
      | inl there ↦ elim (Bool-cases failures.upload) [
        | inl unsent ↦
            let e : saved_answer ≡ (problem 500 "failed to upload audio", s) =
              rw (read, save_track, there, unsent) in
            Ending-same e (refused 500 "failed to upload audio" s refl refl (inl refl))
        | inr sent ↦ object-Ending read there sent
      ]
    ]
  ]

-- Every upload ends in one of three ways: it is refused, with the tables and the queue as they were
-- and at most the audio in the object store, without an object store too; or its event cannot be
-- published, for want of a producer or otherwise, which answers 500 and leaves the pending track in the
-- table without an event; or it is accepted with 202, the pending track, its audio and its event.
pub create-Ending :
    (env : Env) (failures : Failures) (text : String) (form : Form) (s : Uploads)
    → let (answer, s') = create env failures text form s in
      Ending env failures text form s answer s'
unfolding create
create-Ending env failures text form s =
    elim (Bool-cases (form.title == "" || form.artist_id == "")) [
      | inl empty ↦
          rw (empty, create) (refused 400 "title and artist_id are required" s refl refl (inl refl))
      | inr filled ↦ elim (Option-cases form.audio) [
        | inl silent ↦
            rw (filled, create, silent)
              (refused 400 "audio file is required" s refl refl (inl refl))
        | inr (audio, given) ↦ elim (Option-cases (known_artist env failures form.artist_id s.db)) [
          | inl unknown ↦
              rw (filled, create, given, unknown)
                (refused 400 "artist not found" s refl refl (inl refl))
          | inr (artist, known) ↦
              let same : create env failures text form s
                  ≡ save_track env failures text form.title artist audio s =
                rw (filled, create, given, known) in
              Ending-same same (save_track-Ending env failures text form artist audio s given)
        ]
      ]
    ]

abbrev pub store_of : Uploads → Store
store_of s = record { db = s.db; objects = s.objects }

find_new : (id : ℕ) (t : Track) (ts : List Track) → t.id ≡ id → find_track id (t ∷ ts) ≡ some t
unfolding find_track
find_new id t ts e = ground (arith, e, eqb_iff t.id id)

accepted-Starts :
    (out : Outside) (env : Env) (text : String) (form : Form) (s s' : Uploads) (row : TrackRow)
    {failures : Failures} {answer : Reply TrackRow}
    → Ending env failures text form s answer s'
    → answer ≡ reply 202 row
    → out.cast text ≡ some env.new_id
    → out.fails check_status ≡ false
    → out.fails set_processing ≡ false
    → (t : Track) × Starts out (event_of text) env.new_id t (store_of s')
accepted-Starts out env text form s s' row (refused status message kept a b stored) e names up set =
    absurd (ground (arith, e))
accepted-Starts out env text form s s' row (unqueued artist audio mute) e names up set =
    absurd (ground (arith, e))
accepted-Starts out env text form s s' row (unpublished artist audio) e names up set =
    absurd (ground (arith, e))
accepted-Starts out env text form s s' row (accepted artist audio given) e names up set =
    let t = new_track env text form.title artist in
    (
      t,
      record {
        names = names;
        checked = up;
        found = find_new env.new_id t s.db.tracks refl;
        pending = refl;
        claimed = set;
      },
    )

-- When an upload is accepted, the delivery of its event to the worker leaves its track ready and
-- succeeds, or leaves it in error and fails, if the worker reads the UUID of the track as the handler
-- generated it and its statements that read and write the status do not fail.
pub create_settles :
    (out : Outside) (env : Env) (failures : Failures) (text : String) (form : Form) (s : Uploads)
    (row : TrackRow)
    → (create env failures text form s).0 ≡ reply 202 row
    → out.cast text ≡ some env.new_id
    → out.fails check_status ≡ false
    → out.fails set_processing ≡ false
    → out.fails mark_error ≡ false
    → let (result, s') =
        process out (event_of text) (store_of (create env failures text form s).1) in
      ((result ≡ done) × (status_of env.new_id s' ≡ some "ready"))
      ⊎ ((message : String) × (result ≡ failed message) × (status_of env.new_id s' ≡ some "error"))
create_settles out env failures text form s row e names up set marks =
    let s' = (create env failures text form s).1 in
    let (t, starts) =
      accepted-Starts out env text form s s' row (create-Ending env failures text form s) e names up
        set in
    process_settles out (event_of text) env.new_id t (store_of s') starts marks
