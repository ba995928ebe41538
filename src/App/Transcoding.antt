-- ===== src/App/Transcoding.antt =====
-- What a delivery to beatstream/internal/worker/upload.go keeps true of tables and objects.
use system_design_lab.Prelude.{
  ℕ, String, true, false, Option, none, some, List, [], ◌∷◌, all, length, ◌≡◌, refl, ap, ◌∙◌, inl,
  inr, ◌==◌, text_eq, arith, Bool-cases, Option-cases,
}
use system_design_lab.Prelude.Assoc.{put}
use system_design_lab.Database.{TrackFormat, find_track, update_track, set_status}
use system_design_lab.Worker.Upload.{
  UploadEvent, Outside, Store, bitrates, output_key, upsert_format, encode, encode_all, mark_track,
  finish, work, begin_processing, mark_processing, process, ready, make_temp_dir, mark_error,
  set_ready, download_fails, probe_duration, check_status, set_processing,
}
use system_design_lab.Worker.Formats.{
  Holds, HoldsAll, Encoded, nothing, only_stored, all_done, encode-Encoded, encode_all-HoldsAll,
}
use system_design_lab.App.Audio.{
  is_status, has_formats, is_complete, IsServable, all_weaken, is_stored-put_self,
  all-upsert_format, find_key-upsert_format, find_key-has_row, put-IsServable, update-IsServable,
}

abbrev pub IsServed : Store → Type 0
IsServed s = IsServable s.objects s.db

has_formats-upsert_format :
    (id b j : ℕ) (key : String) (size : ℕ) (fs : List TrackFormat)
    → has_formats j fs ≡ true
    → has_formats j (upsert_format id b key size fs) ≡ true
has_formats-upsert_format id b j key size fs h =
    let fmt = λ (a : ℕ). find_key-upsert_format id b j a key size fs in
    ground (arith, h, fmt 64, fmt 128, fmt 320)

module _ (out : Outside) (ev : UploadEvent) (id : ℕ) where
  Encoded-IsServed :
      {b : ℕ} {s s' : Store} {error : Option String}
      → Encoded out ev id b s error s'
      → IsServed s
      → IsServed s'
  Encoded-IsServed (nothing message) h = h
  Encoded-IsServed {b = b} {s = s} (only_stored message) h =
      put-IsServable s.objects s.db h (output_key ev.track_id b) (out.encoded b)
  Encoded-IsServed {b = b} {s = s} all_done h =
      let key = output_key ev.track_id b in
      let size = length (out.encoded b) in
      let more = put-IsServable s.objects s.db h key (out.encoded b) in
      record {
        audio = more.audio;
        keys =
            all-upsert_format (put s.objects key (out.encoded b)) id b key size s.db.track_formats
              (is_stored-put_self s.objects key (out.encoded b)) more.keys;
        complete =
            all_weaken (is_complete s.db.track_formats)
              (is_complete (upsert_format id b key size s.db.track_formats)) s.db.tracks
              (λ t c.
                ground (arith, c, has_formats-upsert_format id b t.id key size s.db.track_formats))
              h.complete;
        known = h.known;
      }

  encode_all-IsServed :
      (bs : List ℕ) (s : Store) → IsServed s → IsServed (encode_all out ev id bs s).1
  unfolding encode_all
  encode_all-IsServed [] s h = h
  encode_all-IsServed (b ∷ bs) s h =
      let first = Encoded-IsServed (encode-Encoded out ev id b s) h in
      elim (Option-cases (encode out ev id b s).0) [
        | inr (message, e) ↦ rw (e, encode_all) first
        | inl good ↦ rw (good, encode_all) (encode_all-IsServed bs (encode out ev id b s).1 first)
      ]

  -- A status that is not ready.
  set_status-IsServed :
      (status : String) (s : Store)
      → (status == "ready") ≡ false
      → is_status status ≡ true
      → IsServed s
      → IsServable s.objects
          (record (s.db) { tracks = update_track id (set_status status) s.db.tracks })
  set_status-IsServed status s other known h =
      update-IsServable s.objects s.db id (set_status status) h (λ t. refl)
        (λ t e c. ground (arith, other)) (λ t a. known)

  mark_track-IsServed : (s : Store) → IsServed s → IsServed (mark_track out ev id s)
  unfolding mark_track
  mark_track-IsServed s h = elim (Bool-cases (out.fails mark_error)) [
    | inl lost ↦ rw (lost, mark_track) h
    | inr kept ↦ rw (kept, mark_track) (set_status-IsServed "error" s refl refl h)
  ]

  HoldsAll-formats : (s : Store) → HoldsAll out ev id s → has_formats id s.db.track_formats ≡ true
  HoldsAll-formats s h =
      let fmt = λ (b : ℕ) (g : Holds out ev id b s).
        find_key-has_row id b (output_key ev.track_id b) (length (out.encoded b)) s.db.track_formats
          g.row in
      ground (arith, fmt 64 h.low, fmt 128 h.middle, fmt 320 h.high)

  ready-IsServed :
      (duration : ℕ) (s : Store)
      → HoldsAll out ev id s
      → IsServed s
      → IsServable s.objects
          (record (s.db) { tracks = update_track id (ready out ev id duration) s.db.tracks })
  ready-IsServed duration s all h =
      update-IsServable s.objects s.db id (ready out ev id duration) h (λ t. refl)
        (λ t e c. ap (λ j. has_formats j s.db.track_formats) e ∙ HoldsAll-formats s all)
        (λ t a. refl)

  finish-IsServed :
      (duration : ℕ) (r : Option String × Store)
      → IsServed r.1
      → (r.0 ≡ none → HoldsAll out ev id r.1)
      → IsServed (finish out ev id duration r).1
  unfolding finish
  finish-IsServed duration (some message, s) h all = mark_track-IsServed s h
  finish-IsServed duration (none, s) h all = elim (Bool-cases (out.fails set_ready)) [
    | inl refused ↦ rw (refused, finish) (mark_track-IsServed s h)
    | inr set ↦ rw (set, finish) (ready-IsServed duration s (all refl) h)
  ]

  work-IsServed : (s : Store) → IsServed s → IsServed (work out ev id s).1
  unfolding work
  work-IsServed s h = elim (Bool-cases (out.fails make_temp_dir)) [
    | inl no_dir ↦ rw (no_dir, work) (mark_track-IsServed s h)
    | inr dir ↦ elim (Bool-cases (download_fails out)) [
      | inl no_file ↦ rw (dir, work, no_file) (mark_track-IsServed s h)
      | inr file ↦ elim (Option-cases (probe_duration out)) [
        | inl no_probe ↦ rw (dir, work, file, no_probe) (mark_track-IsServed s h)
        | inr (duration, probed) ↦
            rw (dir, work, file, probed)
              (finish-IsServed duration (encode_all out ev id bitrates s)
                (encode_all-IsServed bitrates s h) (encode_all-HoldsAll out ev id s))
      ]
    ]
  ]

  mark_processing-IsServed : (s : Store) → IsServed s → IsServed (mark_processing id s)
  mark_processing-IsServed s h =
      update-IsServable s.objects s.db id begin_processing h (λ t. ground arith)
        (λ t e c. elim (Bool-cases (t.status == "pending")) [
          | inl pending ↦ rw pending refl
          | inr other ↦ rw other c
        ])
        (λ t a. elim (Bool-cases (t.status == "pending")) [
          | inl pending ↦ rw pending refl
          | inr other ↦ rw other a
        ])

-- A delivery to the upload worker, wherever it fails, leaves a servable state.
pub process-IsServed :
    (out : Outside) (ev : UploadEvent) (s : Store) → IsServed s → IsServed (process out ev s).1
unfolding process
process-IsServed out ev s h = elim (Bool-cases (out.fails check_status)) [
  | inl unread ↦ rw (unread, process) h
  | inr checked ↦ elim (Option-cases (out.cast ev.track_id)) [
    | inl unnamed ↦ rw (checked, process, unnamed) h
    | inr (id, names) ↦ elim (Option-cases (find_track id s.db.tracks)) [
      | inl missing ↦ rw (checked, process, names, missing) h
      | inr (t, found) ↦ elim (Bool-cases (t.status == "pending")) [
        | inr other ↦ rw (checked, process, names, found, other) h
        | inl pending ↦ elim (Bool-cases (out.fails set_processing)) [
          | inl refused ↦ rw (checked, process, names, found, pending, refused) h
          | inr claimed ↦
              rw (checked, process, names, found, pending, claimed)
                (work-IsServed out ev id (mark_processing id s)
                  (mark_processing-IsServed out ev id s h))
        ]
      ]
    ]
  ]
]
