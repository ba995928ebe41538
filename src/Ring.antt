-- ===== src/Ring.antt =====
-- The consistent-hashing ring of interview-prep/consistent-hashing/main.go. The children hold the
-- hash function, the sort and the binary search that it calls, and the proofs.
pub mod Crc
pub mod Sorting
pub mod Search
pub mod Owner
pub mod Invariant
pub mod Lookup
pub mod Remap
pub mod Demo
mod Tests
use system_design_lab.Prelude.{
  ℕ, zero, suc, ◌+◌, String, Bool, Option, none, some, List, [], ◌∷◌, ◌++◌, length, get_or,
  number_eq, get_elem?, leb, eqb, if◌then◌else◌,
}
use mathlib.Core.Option
use system_design_lab.Prelude.Assoc
use system_design_lab.Prelude.Assoc.{Assoc}
use system_design_lab.Prelude.Texts.{◌<>◌, itoa}
use Crc.{hash}
use Sorting.{sort}
use Search.{search}

-- `vnodes` is the number of virtual nodes; a negative one makes no round, like 0.
pub record Ring : Type 0 where
  pub nodes : Assoc ℕ String
  pub sorted : List ℕ
  pub vnodes : ℕ

unfoldable pub new_ring : ℕ → Ring
new_ring vnodes = record { nodes = []; sorted = []; vnodes = vnodes }

-- The hash of the key "<node>-v<i>".
unfoldable pub position : String → ℕ → ℕ
position node i = hash (node <> "-v" <> itoa i)

-- The positions of rounds i, i + 1, …, in the order of the loop `for i := 0; i < n; i++`.
pub positions_from : String → ℕ → ℕ → List ℕ
positions_from node i zero = []
positions_from node i (suc n) = position node i ∷ positions_from node (i + 1) n

unfoldable pub positions : String → ℕ → List ℕ
unfolding positions_from
positions node n = positions_from node 0 n

-- The loop of `Add`: each round writes the map and appends to the positions.
unfoldable pub add_all : String → List ℕ → Ring → Ring
add_all node [] r = r
add_all node (h ∷ hs) r =
    add_all node hs (record r { nodes = Assoc.put r.nodes h node; sorted = r.sorted ++ h ∷ [] })

unfoldable pub add : Ring → String → Ring
unfolding positions add_all
add r node =
    let added = add_all node (positions node r.vnodes) r in
    record added { sorted = sort added.sorted }

-- The loop of `Remove` over the map.
unfoldable pub delete_all : List ℕ → Assoc ℕ String → Assoc ℕ String
delete_all [] m = m
delete_all (h ∷ hs) m = delete_all hs (Assoc.remove m h)

unfoldable pub remove : Ring → String → Ring
unfolding positions delete_all
remove r node =
    let left = delete_all (positions node r.vnodes) r.nodes in
    record r { nodes = left; sorted = sort (Assoc.keys left) }

-- `r.nodes[p]`, the empty string for a missing key.
abbrev pub or_empty : Option String → String
or_empty none = ""
or_empty (some node) = node

-- `sort.Search` with `r.sorted[i] >= h`, and the wrap-around.
unfoldable pub find_index : List ℕ → ℕ → ℕ
find_index sorted h =
    let idx = search (length sorted) (λ i. leb h (get_or sorted i 0)) in
    if eqb idx (length sorted) then 0 else idx

-- `none` is an index out of range, which panics.
unfoldable pub get : Ring → String → Option String
unfolding find_index
get r key =
    if eqb (length r.sorted) 0
    then some ""
    else Option.map (λ p. or_empty (Assoc.get r.nodes p))
        (get_elem? r.sorted (find_index r.sorted (hash key)))
