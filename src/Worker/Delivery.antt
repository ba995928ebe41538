-- ===== src/Worker/Delivery.antt =====
-- Upload events that are delivered more than once, and the other tracks, in
-- beatstream/internal/worker/upload.go.
use mathlib.Core.Option
use system_design_lab.Prelude.{
  ℕ, String, false, some, List, ◌≡◌, ◌≢◌, refl, ◌∙◌, ◌⊎◌, inl, inr, eqb, eqb_iff, ◌==◌, text_eq,
  arith, Bool-cases, Option-cases,
}
use system_design_lab.Database.{Track, find_track, update_track, set_status}
use system_design_lab.Database.Tracks.{find_track-update_track}
use system_design_lab.Worker.Queue.{Result, done}
use system_design_lab.Worker.Upload.{
  UploadEvent, check_status, set_processing, Outside, Store, ready, work, begin_processing,
  mark_processing, process,
}
use system_design_lab.Worker.Pipeline.{
  Ends, finished, marked, stuck, work-Ends, Starts, process-Starts, process_skips,
  status-update_track, find_track-mark_processing,
}

-- A status that the worker gives a track.
abbrev IsLater : String → Type 0
IsLater status = (status ≡ "ready") ⊎ ((status ≡ "error") ⊎ (status ≡ "processing"))

IsLater-pending : (status : String) → IsLater status → (status == "pending") ≡ false
IsLater-pending status (inl e) = rw e
IsLater-pending status (inr (inl e)) = rw e
IsLater-pending status (inr (inr e)) = rw e

work_leaves :
    (out : Outside) (ev : UploadEvent) (id : ℕ) (t : Track) {ts ts' : List Track} {r : Result}
    → find_track id ts ≡ some (set_status "processing" t)
    → Ends out ev id ts ts' r
    → (status : String) × (Option.map (λ t. t.status) (find_track id ts') ≡ some status)
      × IsLater status
work_leaves out ev id t {ts = ts} e (finished duration) =
    ("ready", rw (status-update_track (ready out ev id duration) id ts (λ t. refl) e), inl refl)
work_leaves out ev id t {ts = ts} e (marked message kept) =
    ("error", rw (status-update_track (set_status "error") id ts (λ t. refl) e), inr (inl refl))
work_leaves out ev id t e (stuck message lost) = ("processing", rw e, inr (inr refl))

-- However a delivery that starts to work on a track ends, a later delivery of its event that can
-- read the track's status reports success and does nothing: what failed once is not tried again.
pub process_redelivery :
    (out out' : Outside) (ev : UploadEvent) (id : ℕ) (t : Track) (s : Store)
    → Starts out ev id t s
    → out'.cast ev.track_id ≡ some id
    → out'.fails check_status ≡ false
    → let (result, s') = process out ev s in process out' ev s' ≡ (done, s')
process_redelivery out out' ev id t s h names checked =
    let (status, e, later) =
      work_leaves out ev id t (find_track-mark_processing id s h.found h.pending)
        (work-Ends out ev id (mark_processing id s)) in
    let s' = (work out ev id (mark_processing id s)).1 in
    rw (process-Starts out ev s h)
      (process_skips out' ev s' names checked e (IsLater-pending status later))

module _ (out : Outside) (ev : UploadEvent) (id j : ℕ) (other : eqb id j ≡ false) where
  kept :
      (f : Track → Track) (ts : List Track)
      → ((t : Track) → (f t).id ≡ t.id)
      → find_track j (update_track id f ts) ≡ find_track j ts
  kept f ts k = find_track-update_track f id j ts k ∙ rw other

  kept_Ends :
      {ts ts' : List Track} {r : Result}
      → Ends out ev id ts ts' r
      → find_track j ts' ≡ find_track j ts
  kept_Ends {ts = ts} (finished duration) = kept (ready out ev id duration) ts (λ t. refl)
  kept_Ends {ts = ts} (marked message e) = kept (set_status "error") ts (λ t. refl)
  kept_Ends (stuck message e) = refl

-- Whatever fails, a delivery changes no track but the one that its event names.
pub process_others :
    (out : Outside) (ev : UploadEvent) (j : ℕ) (s : Store)
    → ((id : ℕ) → out.cast ev.track_id ≡ some id → id ≢ j)
    → find_track j (process out ev s).1.db.tracks ≡ find_track j s.db.tracks
unfolding process
process_others out ev j s h = elim (Bool-cases (out.fails check_status)) [
  | inl down ↦ rw (down, process)
  | inr up ↦ elim (Option-cases (out.cast ev.track_id)) [
    | inl unread ↦ rw (up, process, unread)
    | inr (id, names) ↦ elim (Option-cases (find_track id s.db.tracks)) [
      | inl missing ↦ rw (up, process, names, missing)
      | inr (t, e) ↦ elim (Bool-cases (t.status == "pending")) [
        | inr later ↦ rw (up, process, names, e, later)
        | inl pending ↦ elim (Bool-cases (out.fails set_processing)) [
          | inl refused ↦ rw (up, process, names, e, pending, refused)
          | inr set ↦
              let other : eqb id j ≡ false = ground (arith, eqb_iff id j, h id names) in
              rw (up, process, names, e, pending, set)
                (kept_Ends out ev id j other (work-Ends out ev id (mark_processing id s))
                  ∙ kept out ev id j other begin_processing s.db.tracks (λ t. ground arith))
        ]
      ]
    ]
  ]
]
