-- ===== src/Ring/Lookup.antt =====
-- `Get` against its specification: the node at the nearest position clockwise.
use system_design_lab.Prelude.{
  ℕ, ◌≡◌, ap, ◌∙◌, inl, inr, true, false, String, some, length, number_eq, eqb, arith, Option-cases,
  get_elem?,
}
use system_design_lab.Prelude.Assoc
use system_design_lab.Prelude.Assoc.{is_some}
use system_design_lab.Ring.Crc.{hash}
use system_design_lab.Ring.Owner.{before, owner, search-rank, wrapped_rank, owner_lem, owner_exists}
use system_design_lab.Ring.{Ring, get, find_index, or_empty}
use system_design_lab.Ring.Invariant.{IsRing}

find_index-owner :
    (r : Ring) (h : ℕ) → IsRing r → get_elem? r.sorted (find_index r.sorted h) ≡ owner h r.sorted
unfolding find_index
find_index-owner r h v = rw (search-rank h r.sorted v.ordered) (wrapped_rank h r.sorted)

-- What `Get` returns, by the owner.
pub get-owner :
    (r : Ring) (key : String) {p : ℕ}
    → IsRing r
    → eqb (length r.sorted) 0 ≡ false
    → owner (hash key) r.sorted ≡ some p
    → get r key ≡ some (or_empty (Assoc.get r.nodes p))
unfolding get
get-owner r key v e o = rw (e, find_index-owner r (hash key) v, o)

-- On a ring with a position, `Get` does not panic: it returns the node of a position of the map,
-- and going clockwise from the key's hash no other position is met earlier.
pub get-nearest :
    (r : Ring) (key : String)
    → IsRing r
    → eqb (length r.sorted) 0 ≡ false
    → (p : ℕ) × (node : String) × (Assoc.get r.nodes p ≡ some node)
      × (get r key ≡ some node)
      × ((q : ℕ) → is_some (Assoc.get r.nodes q) ≡ true → before (hash key) p q ≡ true)
get-nearest r key v e =
    let (p, o) = owner_exists (hash key) r.sorted e in
    elim (Option-cases (Assoc.get r.nodes p)) [
      | inl missing ↦
          absurd (ground (arith, owner_lem (hash key) p p r.sorted v.ordered o, v.same p))
      | inr (node, found) ↦ (
        p,
        node,
        found,
        get-owner r key v e o ∙ ap (λ x. some (or_empty x)) found,
        λ q m. (owner_lem (hash key) p q r.sorted v.ordered o).1 (v.same q ∙ m),
      )
    ]
