-- ===== src/Worker/Formats.antt =====
-- The rows and objects that beatstream/internal/worker/upload.go leaves for a track.
use system_design_lab.Prelude.{
  ℕ, String, true, false, not, Option, none, some, List, [], ◌∷◌, length, ◌≡◌, refl, sym, ap, ◌∙◌,
  inl, inr, eqb, ◌==◌, text_eq, ==-refl, ◌||◌, arith, Bool-cases, Option-cases,
}
use system_design_lab.Prelude.Assoc.{get, put, get-put, is_some}
use system_design_lab.Database.{Track, has_track, update_track}
use system_design_lab.Worker.Queue.{done}
use system_design_lab.Worker.Upload.{
  UploadEvent, Outside, Store, make_temp_dir, set_ready, run_ffmpeg, stat_output, read_file, upload,
  insert_format, bitrates, output_key, transcode, probe_duration, download_fails, upsert_format,
  encode, encode_all, finish, work, mark_processing, process, set_tracks, ready,
}
use system_design_lab.Worker.Rows.{has_row, has_row-upsert_format, has_row-upsert_other}
use system_design_lab.Worker.Pipeline.{Starts, process-Starts}

module _ (out : Outside) (ev : UploadEvent) (id : ℕ) where
  -- A bitrate's row names its key and its size, and there is an object under the key.
  pub record Holds (b : ℕ) (s : Store) : Type 0 where
    pub row :
        has_row id b (output_key ev.track_id b) (length (out.encoded b)) s.db.track_formats ≡ true
    pub object : is_some (get s.objects (output_key ev.track_id b)) ≡ true

  abbrev pub stored : ℕ → Store → Store
  stored b s = record s { objects = put s.objects (output_key ev.track_id b) (out.encoded b) }

  abbrev pub inserted : ℕ → Store → Store
  inserted b s = record (stored b s) {
    db = record (s.db) {
      track_formats =
          upsert_format id b (output_key ev.track_id b) (length (out.encoded b)) s.db.track_formats;
    };
  }

  -- What the loop's body leaves.
  pub data Encoded (b : ℕ) (s : Store) : Option String → Store → Type 0 where
    nothing : (message : String) → Encoded b s (some message) s
    only_stored : (message : String) → Encoded b s (some message) (stored b s)
    all_done : Encoded b s none (inserted b s)

  pub encode-Encoded :
      (b : ℕ) (s : Store) → let (error, s') = encode out ev id b s in Encoded b s error s'
  unfolding encode transcode
  encode-Encoded b s = elim (Bool-cases (out.fails (run_ffmpeg b) || out.fails (stat_output b))) [
    | inl unmade ↦ rw (encode, transcode, unmade) (nothing "transcode")
    | inr made ↦ elim (Bool-cases (out.fails (read_file b))) [
      | inl unread ↦ rw (encode, transcode, made, unread) (nothing "read transcoded file")
      | inr read ↦ elim (Bool-cases (out.fails (upload b))) [
        | inl unsent ↦ rw (encode, transcode, made, read, unsent) (nothing "upload to s3")
        | inr sent ↦
            elim (Bool-cases (out.fails (insert_format b) || not (has_track id s.db.tracks))) [
              | inl refused ↦
                  rw (encode, transcode, made, read, sent, refused)
                    (only_stored "insert track_format")
              | inr kept ↦ rw (encode, transcode, made, read, sent, kept) all_done
            ]
      ]
    ]
  ]

  object-stored :
      (b b' : ℕ) (s : Store)
      → is_some (get s.objects (output_key ev.track_id b)) ≡ true
      → is_some (get (stored b' s).objects (output_key ev.track_id b)) ≡ true
  object-stored b b' s h =
      ap is_some
        (get-put s.objects (output_key ev.track_id b') (output_key ev.track_id b) (out.encoded b'))
      ∙ elim (Bool-cases (output_key ev.track_id b' == output_key ev.track_id b)) [
        | inl same ↦ rw same
        | inr other ↦ rw other h
      ]

  Encoded-Holds : {b : ℕ} {s s' : Store} → Encoded b s none s' → Holds b s'
  Encoded-Holds {b = b} {s = s} all_done = record {
    row =
        has_row-upsert_format id b (output_key ev.track_id b) (length (out.encoded b))
          s.db.track_formats;
    object =
        ap is_some
          (get-put s.objects (output_key ev.track_id b) (output_key ev.track_id b) (out.encoded b))
        ∙ rw (==-refl (output_key ev.track_id b));
  }

  Encoded-keeps :
      {b b' : ℕ} {s s' : Store} {error : Option String}
      → Encoded b' s error s'
      → eqb b' b ≡ false
      → Holds b s
      → Holds b s'
  Encoded-keeps (nothing message) other h = h
  Encoded-keeps {b = b} {b' = b'} {s = s} (only_stored message) other h = record {
    row = h.row;
    object = object-stored b b' s h.object;
  }
  Encoded-keeps {b = b} {b' = b'} {s = s} all_done other h = record {
    row =
        has_row-upsert_other id b b' (output_key ev.track_id b) (output_key ev.track_id b')
          (length (out.encoded b)) (length (out.encoded b')) s.db.track_formats other h.row;
    object = object-stored b b' s h.object;
  }

  encode_all-none :
      (b : ℕ) (bs : List ℕ) (s : Store)
      → (encode_all out ev id (b ∷ bs) s).0 ≡ none
      → Encoded b s none (encode out ev id b s).1
        × ((encode_all out ev id bs (encode out ev id b s).1).0 ≡ none)
        × (encode_all out ev id (b ∷ bs) s ≡ encode_all out ev id bs (encode out ev id b s).1)
  unfolding encode_all
  encode_all-none b bs s h = elim (Option-cases (encode out ev id b s).0) [
    | inr (message, e) ↦ absurd (ground (arith, h, e))
    | inl good ↦
        let same : encode_all out ev id (b ∷ bs) s
            ≡ encode_all out ev id bs (encode out ev id b s).1 =
          rw (good, encode_all) in
        (rw⁻¹ good (encode-Encoded b s), sym (ap (λ r. r.0) same) ∙ h, same)
  ]

  encode_all_end : (s : Store) → encode_all out ev id [] s ≡ (none, s)
  unfolding encode_all
  encode_all_end s = refl

  Holds-set_tracks : {b : ℕ} (s : Store) (ts : List Track) → Holds b s → Holds b (set_tracks s ts)
  Holds-set_tracks s ts h = record { row = h.row; object = h.object }

  -- The rows and objects of the three bitrates.
  pub record HoldsAll (s : Store) : Type 0 where
    pub low : Holds 64 s
    pub middle : Holds 128 s
    pub high : Holds 320 s

  pub encode_all-HoldsAll :
      (s : Store)
      → (encode_all out ev id bitrates s).0 ≡ none
      → HoldsAll (encode_all out ev id bitrates s).1
  encode_all-HoldsAll s h =
      let (low, h1, e1) = encode_all-none 64 (128 ∷ 320 ∷ []) s h in
      let s1 = (encode out ev id 64 s).1 in
      let (middle, h2, e2) = encode_all-none 128 (320 ∷ []) s1 h1 in
      let s2 = (encode out ev id 128 s1).1 in
      let (high, h3, e3) = encode_all-none 320 [] s2 h2 in
      rw (e1, e2, e3, encode_all_end (encode out ev id 320 s2).1)
        (record {
          low = Encoded-keeps high refl (Encoded-keeps middle refl (Encoded-Holds low));
          middle = Encoded-keeps high refl (Encoded-Holds middle);
          high = Encoded-Holds high;
        })

  finish-HoldsAll :
      (duration : ℕ) (r : Option String × Store)
      → (finish out ev id duration r).0 ≡ done
      → (r.0 ≡ none → HoldsAll r.1)
      → HoldsAll (finish out ev id duration r).1
  unfolding finish
  finish-HoldsAll duration (some message, s) h all = absurd (ground (arith, h))
  finish-HoldsAll duration (none, s) h all = elim (Bool-cases (out.fails set_ready)) [
    | inl refused ↦ absurd (ground (arith, h, refused))
    | inr set ↦
        let h = all refl in
        let ts = update_track id (ready out ev id duration) s.db.tracks in
        rw (set, finish)
          (record {
            low = Holds-set_tracks s ts h.low;
            middle = Holds-set_tracks s ts h.middle;
            high = Holds-set_tracks s ts h.high;
          })
  ]

  work-HoldsAll : (s : Store) → (work out ev id s).0 ≡ done → HoldsAll (work out ev id s).1
  unfolding work
  work-HoldsAll s h = elim (Bool-cases (out.fails make_temp_dir)) [
    | inl no_dir ↦ absurd (ground (arith, h, no_dir))
    | inr dir ↦ elim (Bool-cases (download_fails out)) [
      | inl no_file ↦ absurd (ground (arith, h, dir, no_file))
      | inr file ↦ elim (Option-cases (probe_duration out)) [
        | inl no_probe ↦ absurd (ground (arith, h, dir, file, no_probe))
        | inr (duration, probed) ↦
            let same : work out ev id s
                ≡ finish out ev id duration (encode_all out ev id bitrates s) =
              rw (dir, work, file, probed) in
            rw same (
              finish-HoldsAll duration (encode_all out ev id bitrates s)
                (sym (ap (λ r. r.0) same) ∙ h) (encode_all-HoldsAll s))
      ]
    ]
  ]

-- After a delivery that works on a track and succeeds, each of the three bitrates has a row of the
-- track with its key and the size of its file, and an object under that key.
pub process_formats :
    (out : Outside) (ev : UploadEvent) (id : ℕ) (t : Track) (s : Store)
    → Starts out ev id t s
    → (process out ev s).0 ≡ done
    → HoldsAll out ev id (process out ev s).1
process_formats out ev id t s h succeeded =
    let same = process-Starts out ev s h in
    rw same (work-HoldsAll out ev id (mark_processing id s) (sym (ap (λ r. r.0) same) ∙ succeeded))
