-- ===== src/Ring/Sorting.antt =====
-- `sort.Slice` with `<` on positions: an insertion sort. Equal positions cannot be told apart, so
-- that sort.Slice is not stable makes no difference.
use system_design_lab.Prelude.{
  ℕ, ◌≤◌, ◌≡◌, refl, List, [], ◌∷◌, leb, if◌then◌else◌, arith, All, elem, number_eq,
}

insert : ℕ → List ℕ → List ℕ
insert x [] = x ∷ []
insert x (y ∷ ys) = if leb x y then x ∷ y ∷ ys else y ∷ insert x ys

unfoldable pub sort : List ℕ → List ℕ
unfolding insert
sort [] = []
sort (x ∷ xs) = insert x (sort xs)

-- In ascending order.
abbrev pub IsSorted : List ℕ → Type 0
IsSorted [] = Unit {0}
IsSorted (x ∷ xs) = All (λ y. x ≤ y) xs × IsSorted xs

All-le : (x y : ℕ) (xs : List ℕ) → x ≤ y → All (λ z. y ≤ z) xs → All (λ z. x ≤ z) xs
All-le x y [] h a = tt
All-le x y (z ∷ zs) h a = (omega arith, All-le x y zs h a.1)

All-insert : (b x : ℕ) (xs : List ℕ) → b ≤ x → All (λ z. b ≤ z) xs → All (λ z. b ≤ z) (insert x xs)
unfolding insert
All-insert b x [] h a = (h, tt)
All-insert b x (y ∷ ys) h a = ground (arith, All-insert b x ys h a.1)

insert-IsSorted : (x : ℕ) (xs : List ℕ) → IsSorted xs → IsSorted (insert x xs)
unfolding insert
insert-IsSorted x [] s = (tt, tt)
insert-IsSorted x (y ∷ ys) s =
    ground (arith, All-le x y ys, All-insert y x ys, insert-IsSorted x ys s.1)

pub sort-IsSorted : (xs : List ℕ) → IsSorted (sort xs)
unfolding sort
sort-IsSorted [] = tt
sort-IsSorted (x ∷ xs) = insert-IsSorted x (sort xs) (sort-IsSorted xs)

elem-insert : (a x : ℕ) (xs : List ℕ) → elem a (insert x xs) ≡ elem a (x ∷ xs)
unfolding insert elem
elem-insert a x [] = refl
elem-insert a x (y ∷ ys) = ground (arith, elem-insert a x ys)

-- Sorting keeps the elements.
pub elem-sort : (a : ℕ) (xs : List ℕ) → elem a (sort xs) ≡ elem a xs
unfolding sort elem
elem-sort a [] = refl
elem-sort a (x ∷ xs) = ground (arith, elem-insert a x (sort xs), elem-sort a xs)
