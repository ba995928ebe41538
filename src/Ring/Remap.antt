-- ===== src/Ring/Remap.antt =====
-- Which keys move when the ring of interview-prep/consistent-hashing/main.go changes.
use system_design_lab.Prelude.{
  ℕ, ◌≡◌, ◌≢◌, ◌↔◌, refl, sym, ap, ◌∙◌, ◌⊎◌, inl, inr, true, String, none, some, List, [], ◌∷◌,
  elem, length, number_eq, eqb, if◌then◌else◌, arith, Bool-cases, ==-refl, ◌||◌,
}
use system_design_lab.Prelude.Assoc
use system_design_lab.Prelude.Assoc.{is_some}
use system_design_lab.Ring.Crc.{hash}
use system_design_lab.Ring.Owner.{owner, owner_lem, owner_exists, owner_shrink, elem_pos}
use system_design_lab.Ring.{Ring, get, add, remove, or_empty}
use system_design_lab.Ring.Lookup.{get-owner}
use system_design_lab.Ring.Invariant.{
  IsRing, vnode_positions, get-add, elem-add, get-remove_node, vnodes-add, add-IsRing,
  remove-IsRing,
}

-- The positions of `t` are among those of `r`, and the owner of the hash in `r` is one of `t`'s:
-- `t` and `r` then have the same owner.
module _ (r t : Ring) (key : String) (v : IsRing r) (w : IsRing t)
    (sub : (q : ℕ) → elem q t.sorted ≡ true → elem q r.sorted ≡ true) where
  same_owner :
      {p : ℕ}
      → owner (hash key) r.sorted ≡ some p
      → elem p t.sorted ≡ true
      → Assoc.get t.nodes p ≡ Assoc.get r.nodes p
      → get t key ≡ get r key
  same_owner {p} o m e =
      get-owner t key w (elem_pos p t.sorted m)
        (owner_shrink (hash key) p t.sorted r.sorted w.ordered v.ordered sub o m)
      ∙ ap (λ x. some (or_empty x)) e
      ∙ sym (get-owner r key v (elem_pos p r.sorted (sub p m)) o)

empty_get : (r : Ring) (key : String) → eqb (length r.sorted) 0 ≡ true → get r key ≡ some ""
unfolding get
empty_get r key e = rw e

empty_sub :
    (xs ys : List ℕ)
    → ((q : ℕ) → elem q xs ≡ true → elem q ys ≡ true)
    → eqb (length ys) 0 ≡ true
    → eqb (length xs) 0 ≡ true
empty_sub [] ys sub e = refl
empty_sub (x ∷ xs) ys sub e =
    absurd (ground (arith, elem_pos x ys (sub x (unfold elem in rw (==-refl x) refl))))

-- Adding a node moves keys to that node only: every key is served by the new node, or by the node
-- that served it before.
pub get-add_node :
    (r : Ring) (node key : String)
    → IsRing r
    → (get (add r node) key ≡ some node) ⊎ (get (add r node) key ≡ get r key)
get-add_node r node key v = elim (Bool-cases (eqb (length (add r node).sorted) 0)) [
  | inl e ↦ inr (
      empty_get (add r node) key e
      ∙ sym (empty_get r key (empty_sub r.sorted (add r node).sorted grows e)))
  | inr e ↦
      let (p, o) = owner_exists (hash key) (add r node).sorted e in
      elim (Bool-cases (elem p (vnode_positions r node))) [
        | inl new ↦ inl (
            get-owner (add r node) key w e o
            ∙ ap (λ x. some (or_empty x))
                (get-add r node p ∙ ap (λ b. if b then some node else Assoc.get r.nodes p) new))
        | inr old ↦ inr (
            sym (
              same_owner (add r node) r key w v grows o
                (ground (
                  arith,
                  owner_lem (hash key) p p (add r node).sorted w.ordered o,
                  elem-add r node p,
                ))
                (sym
                  (get-add r node p ∙ ap (λ b. if b then some node else Assoc.get r.nodes p) old))))
      ]
]
  where
    w : IsRing (add r node)
    w = add-IsRing r node v

    grows : (q : ℕ) → elem q r.sorted ≡ true → elem q (add r node).sorted ≡ true
    grows q h = elem-add r node q ∙ ap (λ b. b || elem q (vnode_positions r node)) h

-- The node holds its own positions and no other: none was lost to a colliding hash.
abbrev pub HoldsItsOwn : Ring → String → Type 0
HoldsItsOwn r node =
    (p : ℕ) → (Assoc.get r.nodes p ≡ some node) ↔ (elem p (vnode_positions r node) ≡ true)

-- Removing a node that holds exactly its own positions leaves every key that another node serves
-- where it was.
pub get-remove_other :
    (r : Ring) (node key : String)
    → IsRing r
    → HoldsItsOwn r node
    → get r key ≢ some node
    → get (remove r node) key ≡ get r key
get-remove_other r node key v own other = elim (Bool-cases (eqb (length r.sorted) 0)) [
  | inl e ↦
      empty_get (remove r node) key (empty_sub (remove r node).sorted r.sorted shrinks e)
      ∙ sym (empty_get r key e)
  | inr e ↦
      let (p, o) = owner_exists (hash key) r.sorted e in
      elim (Bool-cases (elem p (vnode_positions r node))) [
        | inl gone ↦
            absurd (other (get-owner r key v e o ∙ ap (λ x. some (or_empty x)) ((own p).1 gone)))
        | inr kept ↦
            same_owner r (remove r node) key v w shrinks o
              (ground (
                arith,
                owner_lem (hash key) p p r.sorted v.ordered o,
                w.same p,
                v.same p,
                get-remove_node r node p,
              ))
              (get-remove_node r node p ∙ ap (λ b. if b then none else Assoc.get r.nodes p) kept)
      ]
]
  where
    w : IsRing (remove r node)
    w = remove-IsRing r node

    shrinks : (q : ℕ) → elem q (remove r node).sorted ≡ true → elem q r.sorted ≡ true
    shrinks q h = ground (arith, w.same q, v.same q, get-remove_node r node q)

-- It also leaves no key with the removed node, whose name is not the empty string.
pub get-remove_self :
    (r : Ring) (node key : String)
    → HoldsItsOwn r node
    → node ≢ ""
    → get (remove r node) key ≢ some node
get-remove_self r node key own named served =
    elim (Bool-cases (eqb (length (remove r node).sorted) 0)) [
      | inl e ↦ named (ground (arith, empty_get (remove r node) key e))
      | inr e ↦
          let (p, o) = owner_exists (hash key) (remove r node).sorted e in
          ground (
            arith,
            get-owner (remove r node) key w e o,
            owner_lem (hash key) p p (remove r node).sorted w.ordered o,
            w.same p,
            get-remove_node r node p,
            (own p).0,
          )
    ]
  where
    w : IsRing (remove r node)
    w = remove-IsRing r node

-- A node that is added to a ring where it held nothing holds exactly its own positions.
pub add-HoldsItsOwn :
    (r : Ring) (node : String)
    → ((p : ℕ) → Assoc.get r.nodes p ≢ some node)
    → HoldsItsOwn (add r node) node
add-HoldsItsOwn r node absent p = (
  λ e. ground (arith, get-add r node p, absent p, vnodes-add r node),
  λ e. ground (arith, get-add r node p, vnodes-add r node),
)

-- Adding a node whose positions are all free and removing it again gives every key back to the node
-- that served it.
pub get-remove-add :
    (r : Ring) (node key : String)
    → IsRing r
    → ((p : ℕ) → elem p (vnode_positions r node) ≡ true → Assoc.get r.nodes p ≡ none)
    → get (remove (add r node) node) key ≡ get r key
get-remove-add r node key v free = elim (Bool-cases (eqb (length r.sorted) 0)) [
  | inl e ↦
      empty_get _ key (empty_sub (remove (add r node) node).sorted r.sorted back e)
      ∙ sym (empty_get r key e)
  | inr e ↦
      let (p, o) = owner_exists (hash key) r.sorted e in
      same_owner r (remove (add r node) node) key v w back o
        (ground
          (arith, owner_lem (hash key) p p r.sorted v.ordered o, w.same p, v.same p, restored p))
        (restored p)
]
  where
    w : IsRing (remove (add r node) node)
    w = remove-IsRing (add r node) node

    restored : (p : ℕ) → Assoc.get (remove (add r node) node).nodes p ≡ Assoc.get r.nodes p
    restored p =
        ground
          (arith, get-remove_node (add r node) node p, get-add r node p, free p, vnodes-add r node)

    back : (q : ℕ) → elem q (remove (add r node) node).sorted ≡ true → elem q r.sorted ≡ true
    back q h = ground (arith, w.same q, v.same q, restored q)
