-- ===== src/Worker/Pipeline.antt =====
-- The status of a track through beatstream/internal/worker/upload.go.
use mathlib.Core.Option
use mathlib.Core.Path.{subst}
use text.Mathlib.TextEquality.{eq_iff}
use system_design_lab.Prelude.{
  ℕ, String, true, false, not, Option, none, some, List, [], ◌∷◌, ◌≡◌, refl, sym, ap, ◌∙◌, ◌⊎◌, inl,
  inr, eqb_iff, ◌==◌, text_eq, ◌||◌, arith, Bool-cases, Option-cases,
}
use system_design_lab.Database.{Track, find_track, update_track, set_status, has_track}
use system_design_lab.Database.Tracks.{find_track-update_track}
use system_design_lab.Worker.Queue.{Result, done, failed}
use system_design_lab.Worker.Upload.{
  UploadEvent, check_status, set_processing, make_temp_dir, mark_error, set_ready, Outside, Store,
  bitrates, transcode, probe_duration, download_fails, mark_track, encode, encode_all, ready,
  finish, work, begin_processing, mark_processing, process, read_file, upload, insert_format,
}

abbrev pub status_of : ℕ → Store → Option String
status_of id s = Option.map (λ t. t.status) (find_track id s.db.tracks)

module _ (out : Outside) (ev : UploadEvent) (id : ℕ) where
  encode_tracks : (b : ℕ) (s : Store) → (encode out ev id b s).1.db.tracks ≡ s.db.tracks
  unfolding encode
  encode_tracks b s = elim (Option-cases (transcode out ev.track_id b)) [
    | inl none_left ↦ rw (none_left, encode)
    | inr (result, e) ↦ elim (Bool-cases (out.fails (read_file b))) [
      | inl unread ↦ rw (e, encode, unread)
      | inr read ↦ elim (Bool-cases (out.fails (upload b))) [
        | inl unsent ↦ rw (e, encode, read, unsent)
        | inr sent ↦
            elim (Bool-cases (out.fails (insert_format b) || not (has_track id s.db.tracks))) [
              | inl refused ↦ rw (e, encode, read, sent, refused)
              | inr inserted ↦ rw (e, encode, read, sent, inserted)
            ]
      ]
    ]
  ]

  encode_all_tracks :
      (bs : List ℕ) (s : Store) → (encode_all out ev id bs s).1.db.tracks ≡ s.db.tracks
  unfolding encode_all
  encode_all_tracks [] s = refl
  encode_all_tracks (b ∷ bs) s = elim (Option-cases (encode out ev id b s).0) [
    | inl good ↦
        rw (good, encode_all) (encode_all_tracks bs (encode out ev id b s).1 ∙ encode_tracks b s)
    | inr (message, e) ↦ rw (e, encode_all) (encode_tracks b s)
  ]

  -- How the work on a track ends, in the tracks before and after it.
  pub data Ends (ts : List Track) : List Track → Result → Type 0 where
    finished : (duration : ℕ) → Ends ts (update_track id (ready out ev id duration) ts) done
    marked :
        (message : String)
        → out.fails mark_error ≡ false
        → Ends ts (update_track id (set_status "error") ts) (failed message)
    stuck : (message : String) → out.fails mark_error ≡ true → Ends ts ts (failed message)

  give_up_Ends :
      (message : String) (s : Store)
      → Ends s.db.tracks (mark_track out ev id s).db.tracks (failed message)
  unfolding mark_track
  give_up_Ends message s = elim (Bool-cases (out.fails mark_error)) [
    | inl lost ↦ rw lost (stuck message lost)
    | inr kept ↦ rw kept (marked message kept)
  ]

  finish-Ends :
      (duration : ℕ) (r : Option String × Store)
      → let (result, s') = finish out ev id duration r in Ends r.1.db.tracks s'.db.tracks result
  unfolding finish
  finish-Ends duration (some message, s) = give_up_Ends message s
  finish-Ends duration (none, s) = elim (Bool-cases (out.fails set_ready)) [
    | inl refused ↦ rw refused (give_up_Ends "set ready" s)
    | inr set ↦ rw set (finished duration)
  ]

  pub work-Ends :
      (s : Store) → let (result, s') = work out ev id s in Ends s.db.tracks s'.db.tracks result
  unfolding work
  work-Ends s = elim (Bool-cases (out.fails make_temp_dir)) [
    | inl no_dir ↦ rw no_dir (give_up_Ends "create temp dir" s)
    | inr dir ↦ elim (Bool-cases (download_fails out)) [
      | inl no_file ↦ rw (dir, no_file) (give_up_Ends "download original" s)
      | inr file ↦ elim (Option-cases (probe_duration out)) [
        | inl no_probe ↦ rw (dir, file, no_probe) (give_up_Ends "probe duration" s)
        | inr (duration, probed) ↦
            rw (dir, file, probed)
              (subst
                (λ ts.
                  let (result, s') = finish out ev id duration (encode_all out ev id bitrates s) in
                  Ends ts s'.db.tracks result)
                (encode_all_tracks bitrates s)
                (finish-Ends duration (encode_all out ev id bitrates s)))
      ]
    ]
  ]

-- The facts under which `process` starts to work on a track.
pub record Starts (out : Outside) (ev : UploadEvent) (id : ℕ) (t : Track) (s : Store) : Type 0 where
  pub names : out.cast ev.track_id ≡ some id
  pub checked : out.fails check_status ≡ false
  pub found : find_track id s.db.tracks ≡ some t
  pub pending : t.status ≡ "pending"
  pub claimed : out.fails set_processing ≡ false

pub process-Starts :
    (out : Outside) (ev : UploadEvent) {id : ℕ} {t : Track} (s : Store)
    → Starts out ev id t s
    → process out ev s ≡ work out ev id (mark_processing id s)
unfolding process
process-Starts out ev {t = t} s h =
    rw (h.checked, process, h.names, h.found, (eq_iff t.status "pending").1 h.pending, h.claimed)

-- A track that is not pending is skipped.
pub process_skips :
    (out : Outside) (ev : UploadEvent) {id : ℕ} {status : String} (s : Store)
    → out.cast ev.track_id ≡ some id
    → out.fails check_status ≡ false
    → status_of id s ≡ some status
    → (status == "pending") ≡ false
    → process out ev s ≡ (done, s)
unfolding process
process_skips out ev {id = id} {status = status} s names checked found other =
    elim (Option-cases (find_track id s.db.tracks)) [
      | inl missing ↦ absurd (ground (arith, missing, found))
      | inr (t, e) ↦
          let same : t.status ≡ status = ground (arith, e, found) in
          rw (checked, process, names, e, same, other)
    ]

pub status-update_track :
    (f : Track → Track) (id : ℕ) (ts : List Track) {t : Track}
    → ((t : Track) → (f t).id ≡ t.id)
    → find_track id ts ≡ some t
    → find_track id (update_track id f ts) ≡ some (f t)
status-update_track f id ts {t = t} k e =
    find_track-update_track f id id ts k ∙ ground (arith, eqb_iff id id, e)

pub find_track-mark_processing :
    (id : ℕ) (s : Store) {t : Track}
    → find_track id s.db.tracks ≡ some t
    → t.status ≡ "pending"
    → find_track id (mark_processing id s).db.tracks ≡ some (set_status "processing" t)
find_track-mark_processing id s {t = t} e pending =
    status-update_track begin_processing id s.db.tracks (λ t. ground arith) e
    ∙ ap some (ground (arith, (eq_iff t.status "pending").1 pending))

-- A delivery that starts to work on a track leaves it ready and succeeds, or leaves it in error and
-- fails, if the update that marks the error does not fail itself.
pub process_settles :
    (out : Outside) (ev : UploadEvent) (id : ℕ) (t : Track) (s : Store)
    → Starts out ev id t s
    → out.fails mark_error ≡ false
    → let (result, s') = process out ev s in
      ((result ≡ done) × (status_of id s' ≡ some "ready"))
      ⊎ ((message : String) × (result ≡ failed message) × (status_of id s' ≡ some "error"))
process_settles out ev id t s h kept =
    rw (process-Starts out ev s h) (go (work-Ends out ev id (mark_processing id s)))
  where
    go :
        {ts : List Track} {r : Result}
        → Ends out ev id (mark_processing id s).db.tracks ts r
        → ((r ≡ done) × (Option.map (λ t. t.status) (find_track id ts) ≡ some "ready"))
          ⊎ ((message : String) × (r ≡ failed message)
              × (Option.map (λ t. t.status) (find_track id ts) ≡ some "error"))
    go (finished duration) = inl (
      refl,
      rw (
          status-update_track (ready out ev id duration) id (mark_processing id s).db.tracks
            (λ t. refl) (find_track-mark_processing id s h.found h.pending)),
    )
    go (marked message e) = inr (
      message,
      refl,
      rw (
          status-update_track (set_status "error") id (mark_processing id s).db.tracks (λ t. refl)
            (find_track-mark_processing id s h.found h.pending)),
    )
    go (stuck message e) = absurd (ground (arith, e, kept))

-- A delivery that starts to work on a track and succeeds leaves it ready, whatever fails otherwise.
pub process_ready :
    (out : Outside) (ev : UploadEvent) (id : ℕ) (t : Track) (s : Store)
    → Starts out ev id t s
    → (process out ev s).0 ≡ done
    → status_of id (process out ev s).1 ≡ some "ready"
process_ready out ev id t s h succeeded =
    let same = process-Starts out ev s h in
    rw same (go (work-Ends out ev id (mark_processing id s)) (sym (ap (λ r. r.0) same) ∙ succeeded))
  where
    go :
        {ts : List Track} {r : Result}
        → Ends out ev id (mark_processing id s).db.tracks ts r
        → r ≡ done
        → Option.map (λ t. t.status) (find_track id ts) ≡ some "ready"
    go (finished duration) e = rw (
        status-update_track (ready out ev id duration) id (mark_processing id s).db.tracks
          (λ t. refl) (find_track-mark_processing id s h.found h.pending))
    go (marked message kept) e = cc
    go (stuck message lost) e = cc
