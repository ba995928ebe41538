-- ===== src/Ring/Tests.antt =====
-- The theorems on the ring at concrete inputs.
use system_design_lab.Prelude.{
  ℕ, ◌≡◌, ◌≢◌, refl, ◌⊎◌, false, String, some, [], ◌∷◌, elem, number_eq, true, arith, eqb, length,
}
use text.Mathlib.TextEquality.{eq_iff}
use system_design_lab.Prelude.Assoc
use system_design_lab.Prelude.Assoc.{is_some}
use system_design_lab.Prelude.Texts.{itoa, bytes}
use system_design_lab.Ring.Crc.{hash}
use system_design_lab.Ring.Sorting.{sort}
use system_design_lab.Ring.Search.{search}
use system_design_lab.Ring.Owner.{before}
use system_design_lab.Ring.{Ring, new_ring, add, get, position}
use system_design_lab.Ring.Invariant.{IsRing, adds, removes, run, run-new_ring-IsRing}
use system_design_lab.Ring.Lookup.{get-nearest}
use system_design_lab.Ring.Remap.{get-add_node}

two_caches : Ring
unfolding run
two_caches = run (new_ring 2) (adds "cache-1" ∷ adds "cache-2" ∷ [])

two_caches-IsRing : IsRing two_caches
unfolding two_caches
two_caches-IsRing = run-new_ring-IsRing 2 (adds "cache-1" ∷ adds "cache-2" ∷ [])

two_caches_pos : eqb (length two_caches.sorted) 0 ≡ false
unfolding two_caches run new_ring add hash bytes itoa sort position
two_caches_pos = refl

get_served : get two_caches "track:7" ≡ some "cache-2"
unfolding two_caches run new_ring add get hash bytes itoa sort search position Assoc.get Assoc.put
get_served = refl

get-nearest_example :
    (p : ℕ) × (node : String) × (Assoc.get two_caches.nodes p ≡ some node)
    × (get two_caches "track:7" ≡ some node)
    × ((q : ℕ) → is_some (Assoc.get two_caches.nodes q) ≡ true → before (hash "track:7") p q ≡ true)
get-nearest_example = get-nearest two_caches "track:7" two_caches-IsRing two_caches_pos

run-new_ring-IsRing_example : IsRing (run (new_ring 3) (adds "a" ∷ adds "b" ∷ removes "a" ∷ []))
run-new_ring-IsRing_example = run-new_ring-IsRing 3 (adds "a" ∷ adds "b" ∷ removes "a" ∷ [])

get-add_node_example :
    (get (add two_caches "cache-3") "track:7" ≡ some "cache-3")
    ⊎ (get (add two_caches "cache-3") "track:7" ≡ get two_caches "track:7")
get-add_node_example = get-add_node two_caches "cache-3" "track:7" two_caches-IsRing

one_cache : Ring
unfolding run
one_cache = run (new_ring 2) (adds "cache-1" ∷ [])

one_cache-absent : (p : ℕ) → Assoc.get one_cache.nodes p ≢ some "cache-2"
unfolding one_cache run new_ring add hash bytes itoa position Assoc.get Assoc.put elem
one_cache-absent p = ground (arith, eq_iff "cache-1" "cache-2")
