-- ===== src/Ring/Invariant.antt =====
-- What holds of a ring between two calls: the positions are the map's keys, in order.
use system_design_lab.Prelude.{
  ℕ, ◌≡◌, refl, ◌∙◌, ◌||◌, String, none, some, List, [], ◌∷◌, ◌++◌, elem, elem-append, number_eq,
  if◌then◌else◌, arith,
}
use system_design_lab.Prelude.Assoc
use system_design_lab.Prelude.Assoc.{Assoc, is_some, get-put, get-remove, elem-keys}
use system_design_lab.Ring.Sorting.{IsSorted, sort-IsSorted, elem-sort}
use system_design_lab.Ring.{Ring, new_ring, positions, add_all, add, delete_all, remove}

pub record IsRing (r : Ring) : Type 0 where
  pub ordered : IsSorted r.sorted
  pub same : (h : ℕ) → elem h r.sorted ≡ is_some (Assoc.get r.nodes h)

-- The positions of a node in this ring.
abbrev pub vnode_positions : Ring → String → List ℕ
vnode_positions r node = positions node r.vnodes

vnodes-add_all : (node : String) (hs : List ℕ) (r : Ring) → (add_all node hs r).vnodes ≡ r.vnodes
unfolding add_all
vnodes-add_all node [] r = refl
vnodes-add_all node (h ∷ hs) r = vnodes-add_all node hs _

get-add_all :
    (node : String) (hs : List ℕ) (r : Ring) (p : ℕ)
    → Assoc.get (add_all node hs r).nodes p ≡ (if elem p hs then some node else Assoc.get r.nodes p)
unfolding add_all elem
get-add_all node [] r p = refl
get-add_all node (h ∷ hs) r p = ground (
  arith,
  get-add_all node hs (record r { nodes = Assoc.put r.nodes h node; sorted = r.sorted ++ h ∷ [] })
      p,
  get-put r.nodes h p node,
)

elem-add_all :
    (node : String) (hs : List ℕ) (r : Ring) (p : ℕ)
    → elem p (add_all node hs r).sorted ≡ (elem p r.sorted || elem p hs)
unfolding add_all elem
elem-add_all node [] r p = ground arith
elem-add_all node (h ∷ hs) r p = ground (
  arith,
  elem-add_all node hs (record r { nodes = Assoc.put r.nodes h node; sorted = r.sorted ++ h ∷ [] })
      p,
  elem-append p r.sorted (h ∷ []),
)

get-delete_all :
    (hs : List ℕ) (m : Assoc ℕ String) (p : ℕ)
    → Assoc.get (delete_all hs m) p ≡ (if elem p hs then none else Assoc.get m p)
unfolding delete_all elem
get-delete_all [] m p = refl
get-delete_all (h ∷ hs) m p =
    ground (arith, get-delete_all hs (Assoc.remove m h) p, get-remove m h p)

pub vnodes-add : (r : Ring) (node : String) → (add r node).vnodes ≡ r.vnodes
unfolding add
vnodes-add r node = vnodes-add_all node (positions node r.vnodes) r

-- The map after `Add`: the node's positions, and the old entries elsewhere.
pub get-add :
    (r : Ring) (node : String) (p : ℕ)
    → Assoc.get (add r node).nodes p
      ≡ (if elem p (vnode_positions r node) then some node else Assoc.get r.nodes p)
unfolding add
get-add r node p = get-add_all node (positions node r.vnodes) r p

pub elem-add :
    (r : Ring) (node : String) (p : ℕ)
    → elem p (add r node).sorted ≡ (elem p r.sorted || elem p (vnode_positions r node))
unfolding add
elem-add r node p = elem-sort p _ ∙ elem-add_all node (positions node r.vnodes) r p

-- The map after `Remove`: no position of the node, and the old entries elsewhere.
pub get-remove_node :
    (r : Ring) (node : String) (p : ℕ)
    → Assoc.get (remove r node).nodes p
      ≡ (if elem p (vnode_positions r node) then none else Assoc.get r.nodes p)
unfolding remove
get-remove_node r node p = get-delete_all (positions node r.vnodes) r.nodes p

new_ring-IsRing : (n : ℕ) → IsRing (new_ring n)
unfolding new_ring elem Assoc.get
new_ring-IsRing n = record { ordered = tt; same = λ h. refl }

pub add-IsRing : (r : Ring) (node : String) → IsRing r → IsRing (add r node)
add-IsRing r node v = record {
  ordered = unfold add in sort-IsSorted _;
  same = λ h. ground (arith, elem-add r node h, get-add r node h, v.same h);
}

pub remove-IsRing : (r : Ring) (node : String) → IsRing (remove r node)
remove-IsRing r node = record {
  ordered = unfold remove in sort-IsSorted _;
  same = λ h. unfold remove in elem-sort h _ ∙ elem-keys _ h;
}

pub data Change : Type 0 where
  adds removes : String → Change

unfoldable pub apply : Ring → Change → Ring
apply r (adds node) = add r node
apply r (removes node) = remove r node

unfoldable pub run : Ring → List Change → Ring
unfolding apply
run r [] = r
run r (c ∷ cs) = run (apply r c) cs

run-IsRing : (r : Ring) (cs : List Change) → IsRing r → IsRing (run r cs)
unfolding run
run-IsRing r [] v = v
run-IsRing r (adds node ∷ cs) v = run-IsRing (add r node) cs (add-IsRing r node v)
run-IsRing r (removes node ∷ cs) v = run-IsRing (remove r node) cs (remove-IsRing r node)

-- After any sequence of `Add` and `Remove` on a new ring, the positions are in ascending order, and
-- they are exactly the keys of the map.
pub run-new_ring-IsRing : (vnodes : ℕ) (cs : List Change) → IsRing (run (new_ring vnodes) cs)
run-new_ring-IsRing vnodes cs = run-IsRing (new_ring vnodes) cs (new_ring-IsRing vnodes)
