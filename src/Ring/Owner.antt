-- ===== src/Ring/Owner.antt =====
-- The position that serves a hash: the next one clockwise. A specification of the search and the
-- wrap-around in `Get`.
use mathlib.Core.List.{head?}
use system_design_lab.Prelude.{
  ℕ, zero, suc, ◌≤◌, ◌<◌, ◌≡◌, refl, inl, inr, Bool, true, false, ◌||◌, ◌&&◌, Option, none, some,
  List, [], ◌∷◌, length, get_elem?, get_or, All, elem, number_eq, leb, eqb, if◌then◌else◌, arith,
  Option-cases, Bool-cases,
}
use system_design_lab.Ring.Sorting.{IsSorted}
use system_design_lab.Ring.Search.{search, search_lem}

-- Going clockwise from `h`, `p` is met no later than `q`.
abbrev pub before : ℕ → ℕ → ℕ → Bool
before h p q = if leb h q then leb h p && leb p q else leb h p || leb p q

pub first_from : ℕ → List ℕ → Option ℕ
first_from h [] = none
first_from h (x ∷ xs) = if leb h x then some x else first_from h xs

abbrev or_else : Option ℕ → Option ℕ → Option ℕ
or_else none o = o
or_else (some p) o = some p

pub owner : ℕ → List ℕ → Option ℕ
unfolding first_from
owner h xs = or_else (first_from h xs) (head? xs)

-- The number of positions before `h`, in a sorted list.
pub rank : ℕ → List ℕ → ℕ
rank h [] = 0
rank h (x ∷ xs) = if leb h x then 0 else suc (rank h xs)

All-get_or : (x : ℕ) (xs : List ℕ) (i : ℕ) → All (λ y. x ≤ y) xs → i < length xs → x ≤ get_or xs i 0
All-get_or x [] i a h = absurd (omega arith)
All-get_or x (y ∷ ys) zero a h = a.0
All-get_or x (y ∷ ys) (suc i) a h = All-get_or x ys i a.1 (omega arith)

pub All-elem : (x q : ℕ) (xs : List ℕ) → All (λ y. x ≤ y) xs → elem q xs ≡ true → x ≤ q
unfolding elem
All-elem x q [] a h = absurd (ground arith)
All-elem x q (y ∷ ys) a h = ground (arith, All-elem x q ys a.1)

rank-le : (h : ℕ) (xs : List ℕ) → rank h xs ≤ length xs
unfolding rank
rank-le h [] = omega arith
rank-le h (x ∷ xs) = ground (arith, rank-le h xs)

rank_passes :
    (h : ℕ) (xs : List ℕ) (i : ℕ)
    → IsSorted xs
    → i < length xs
    → leb h (get_or xs i 0) ≡ leb (rank h xs) i
unfolding rank
rank_passes h [] i s b = absurd (omega arith)
rank_passes h (x ∷ xs) zero s b = ground arith
rank_passes h (x ∷ xs) (suc i) s b = ground (arith, rank_passes h xs i s.1, All-get_or x xs i s.0)

pub search-rank :
    (h : ℕ) (xs : List ℕ)
    → IsSorted xs
    → search (length xs) (λ i. leb h (get_or xs i 0)) ≡ rank h xs
search-rank h xs s =
    search_lem (length xs) (rank h xs) (λ i. leb h (get_or xs i 0))
      (record { bounded = rank-le h xs; passes = λ i b. rank_passes h xs i s b })

get_elem?-rank : (h : ℕ) (xs : List ℕ) → get_elem? xs (rank h xs) ≡ first_from h xs
unfolding rank first_from
get_elem?-rank h [] = refl
get_elem?-rank h (x ∷ xs) = ground (arith, get_elem?-rank h xs)

rank-length : (h : ℕ) (xs : List ℕ) → eqb (rank h xs) (length xs) ≡ true → first_from h xs ≡ none
unfolding rank first_from
rank-length h [] e = refl
rank-length h (x ∷ xs) e = ground (arith, rank-length h xs)

rank-ne-length :
    (h p : ℕ) (xs : List ℕ) → eqb (rank h xs) (length xs) ≡ false → first_from h xs ≡ none → ⊥
unfolding rank first_from
rank-ne-length h p [] e n = ground arith
rank-ne-length h p (x ∷ xs) e n = ground (arith, rank-ne-length h p xs)

get_elem?-zero : (xs : List ℕ) → get_elem? xs 0 ≡ head? xs
get_elem?-zero [] = refl
get_elem?-zero (x ∷ xs) = refl

-- The index that `Get` reads holds the owner.
pub wrapped_rank :
    (h : ℕ) (xs : List ℕ)
    → get_elem? xs (if eqb (rank h xs) (length xs) then 0 else rank h xs) ≡ owner h xs
unfolding owner
wrapped_rank h xs = elim (Bool-cases (eqb (rank h xs) (length xs))) [
  | inl e ↦ rw (e, rank-length h xs e) (get_elem?-zero xs)
  | inr e ↦ ground (arith, get_elem?-rank h xs, rank-ne-length h 0 xs e)
]

first_from_lem :
    (h p q : ℕ) (xs : List ℕ)
    → IsSorted xs
    → first_from h xs ≡ some p
    → (h ≤ p) × (elem p xs ≡ true) × (elem q xs ≡ true → h ≤ q → p ≤ q)
unfolding first_from elem
first_from_lem h p q [] s e = absurd (ground arith)
first_from_lem h p q (x ∷ xs) s e = ground (arith, first_from_lem h p q xs s.1, All-elem x q xs s.0)

first_from-none : (h q : ℕ) (xs : List ℕ) → first_from h xs ≡ none → elem q xs ≡ true → q < h
unfolding first_from elem
first_from-none h q [] e m = absurd (ground arith)
first_from-none h q (x ∷ xs) e m = ground (arith, first_from-none h q xs)

-- The owner is one of the positions, and no other is met earlier.
pub owner_lem :
    (h p q : ℕ) (xs : List ℕ)
    → IsSorted xs
    → owner h xs ≡ some p
    → (elem p xs ≡ true) × (elem q xs ≡ true → before h p q ≡ true)
unfolding owner elem
owner_lem h p q [] s e = absurd (ground arith)
owner_lem h p q (x ∷ xs) s e = elim (Option-cases (first_from h (x ∷ xs))) [
  | inl none_left ↦ ground (
    arith,
    first_from-none h q (x ∷ xs) none_left,
    first_from-none h x (x ∷ xs) none_left,
    All-elem x q xs s.0,
  )
  | inr (r, found) ↦ ground (arith, first_from_lem h r q (x ∷ xs) s found)
]

pub owner_exists :
    (h : ℕ) (xs : List ℕ) → eqb (length xs) 0 ≡ false → (p : ℕ) × (owner h xs ≡ some p)
unfolding owner
owner_exists h [] e = absurd (ground arith)
owner_exists h (x ∷ xs) e = elim (Option-cases (first_from h (x ∷ xs))) [
  | inl none_left ↦ (x, rw none_left)
  | inr (r, found) ↦ (r, rw found)
]

-- Two positions that are each met no later than the other are the same.
pub before_antisym : (h p q : ℕ) → before h p q ≡ true → before h q p ≡ true → p ≡ q
before_antisym h p q a b = ground arith

pub elem_pos : (p : ℕ) (xs : List ℕ) → elem p xs ≡ true → eqb (length xs) 0 ≡ false
unfolding elem
elem_pos p [] e = absurd (ground arith)
elem_pos p (x ∷ xs) e = ground arith

-- With fewer positions the owner stays, if it is still there.
pub owner_shrink :
    (h p : ℕ) (xs ys : List ℕ)
    → IsSorted xs
    → IsSorted ys
    → ((q : ℕ) → elem q xs ≡ true → elem q ys ≡ true)
    → owner h ys ≡ some p
    → elem p xs ≡ true
    → owner h xs ≡ some p
owner_shrink h p xs ys s t sub e m =
    let (r, found) = owner_exists h xs (elem_pos p xs m) in
    let a = (owner_lem h r p xs s found).1 m in
    let b = (owner_lem h p r ys t e).1 (sub r (owner_lem h r p xs s found).0) in
    rw (before_antisym h p r b a) found
