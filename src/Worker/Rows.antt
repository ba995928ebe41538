-- ===== src/Worker/Rows.antt =====
-- The table of formats after the insertions of beatstream/internal/worker/upload.go.
use system_design_lab.Prelude.{
  ℕ, String, Bool, true, false, List, [], ◌∷◌, ◌≡◌, eqb, eqb_iff, ◌==◌, text_eq, ==-refl,
  if◌then◌else◌, ◌&&◌, arith,
}
use system_design_lab.Database.{TrackFormat}
use system_design_lab.Worker.Upload.{is_format, upsert_format}

-- The row of a track's format, with its key and size.
abbrev pub is_row : ℕ → ℕ → String → ℕ → TrackFormat → Bool
is_row id bitrate key size f = is_format id bitrate f && (f.s3_key == key && eqb f.size_bytes size)

abbrev pub has_row : ℕ → ℕ → String → ℕ → List TrackFormat → Bool
has_row id bitrate key size [] = false
has_row id bitrate key size (f ∷ fs) =
    if is_row id bitrate key size f then true else has_row id bitrate key size fs

pub has_row-upsert_format :
    (id b : ℕ) (key : String) (size : ℕ) (fs : List TrackFormat)
    → has_row id b key size (upsert_format id b key size fs) ≡ true
unfolding upsert_format
has_row-upsert_format id b key size [] =
    ground (arith, eqb_iff id id, eqb_iff b b, eqb_iff size size, ==-refl key)
has_row-upsert_format id b key size (f ∷ fs) =
    ground (arith, has_row-upsert_format id b key size fs, eqb_iff size size, ==-refl key)

pub has_row-upsert_other :
    (id b b' : ℕ) (key key' : String) (size size' : ℕ) (fs : List TrackFormat)
    → eqb b' b ≡ false
    → has_row id b key size fs ≡ true
    → has_row id b key size (upsert_format id b' key' size' fs) ≡ true
unfolding upsert_format
has_row-upsert_other id b b' key key' size size' [] other h = absurd (ground (arith, h))
has_row-upsert_other id b b' key key' size size' (f ∷ fs) other h = ground (
  arith,
  other,
  h,
  has_row-upsert_other id b b' key key' size size' fs other,
  eqb_iff f.bitrate b,
  eqb_iff f.bitrate b',
  eqb_iff b' b,
)
