-- ===== src/Database/Tracks.antt =====
-- Reading the tracks of beatstream/internal/db/postgres.go after they are updated.
use system_design_lab.Prelude.{ℕ, List, [], ◌∷◌, ◌≡◌, refl, eqb, eqb_iff, if◌then◌else◌, arith}
use system_design_lab.Prelude.Assoc.{is_some}
use system_design_lab.Database.{Track, find_track, update_track, has_track}
use mathlib.Core.Option

-- An update that keeps the key changes what its own key finds and nothing else.
pub find_track-update_track :
    (f : Track → Track) (id j : ℕ) (ts : List Track)
    → ((t : Track) → (f t).id ≡ t.id)
    → find_track j (update_track id f ts)
      ≡ (if eqb id j then Option.map f (find_track j ts) else find_track j ts)
unfolding find_track update_track
find_track-update_track f id j [] k = ground arith
find_track-update_track f id j (t ∷ ts) k =
    ground (
      arith,
      find_track-update_track f id j ts k,
      k t,
      eqb_iff t.id id,
      eqb_iff t.id j,
      eqb_iff id j,
    )

pub has_track-find_track : (id : ℕ) (ts : List Track) → has_track id ts ≡ is_some (find_track id ts)
unfolding find_track
has_track-find_track id [] = refl
has_track-find_track id (t ∷ ts) = ground (arith, has_track-find_track id ts)
