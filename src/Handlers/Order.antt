-- ===== src/Handlers/Order.antt =====
-- What `ORDER BY key DESC LIMIT n` sends, as the queries of beatstream/internal/handler use it.
use mathlib.Core.List.{Perm}
use system_design_lab.Prelude.{
  ℕ, zero, suc, ◌≤◌, Bool, List, [], ◌∷◌, ◌++◌, All, length, take, drop, ◌≡◌, ◌≢◌, refl, ap, inl,
  inr, ltb, arith, Bool-cases,
}
use system_design_lab.Handlers.{insert, order_by}
use system_design_lab.Handlers.Cursor.{perm-order_by}

module _ {A : Type 0} (key : A → ℕ) where
  -- The order of a key that descends.
  abbrev pub greater : A → A → Bool
  greater a b = ltb (key b) (key a)

  abbrev pub IsBelow : A → List A → Type 0
  IsBelow a bs = All (λ b. key b ≤ key a) bs

  abbrev pub IsRanked : List A → Type 0
  IsRanked [] = Unit
  IsRanked (a ∷ as') = IsBelow a as' × IsRanked as'

  -- The rows shown are the first `n` of a list by the key.
  pub record IsTop (n : ℕ) (rows shown : List A) : Type 0 where
    pub rest : List A
    pub perm : Perm (shown ++ rest) rows
    pub ranked : IsRanked shown
    pub above : All (λ a. IsBelow a rest) shown
    pub short : length shown ≤ n
    pub full : rest ≢ [] → length shown ≡ n

  IsBelow-weaken : {a b : A} (cs : List A) → key b ≤ key a → IsBelow b cs → IsBelow a cs
  IsBelow-weaken [] h below = tt
  IsBelow-weaken (c ∷ cs) h below = (omega (arith, below.0), IsBelow-weaken cs h below.1)

  IsBelow-insert :
      (a x : A) (ys : List A) → key x ≤ key a → IsBelow a ys → IsBelow a (insert greater x ys)
  unfolding insert
  IsBelow-insert a x [] h below = (h, tt)
  IsBelow-insert a x (y ∷ ys) h below = elim (Bool-cases (greater y x)) [
    | inl later ↦ rw (insert, later) (below.0, IsBelow-insert a x ys h below.1)
    | inr here ↦ rw (insert, here) (h, below)
  ]

  IsRanked-insert : (x : A) (ys : List A) → IsRanked ys → IsRanked (insert greater x ys)
  unfolding insert
  IsRanked-insert x [] h = (tt, tt)
  IsRanked-insert x (y ∷ ys) (below, ranked) = elim (Bool-cases (greater y x)) [
    | inl later ↦
        rw (insert, later)
          (IsBelow-insert y x ys (ground (arith, later)) below, IsRanked-insert x ys ranked)
    | inr here ↦
        let h : key y ≤ key x = ground (arith, here) in
        rw (insert, here) ((h, IsBelow-weaken ys h below), (below, ranked))
  ]

  pub order_by-IsRanked : (xs : List A) → IsRanked (order_by greater xs)
  unfolding order_by
  order_by-IsRanked [] = tt
  order_by-IsRanked (x ∷ xs) = IsRanked-insert x (order_by greater xs) (order_by-IsRanked xs)

  IsBelow-split :
      (n : ℕ) (a : A) (xs : List A) → IsBelow a xs → IsBelow a (take n xs) × IsBelow a (drop n xs)
  IsBelow-split zero a xs h = (tt, h)
  IsBelow-split (suc n) a [] h = (tt, tt)
  IsBelow-split (suc n) a (x ∷ xs) (below, h) =
      let (first, later) = IsBelow-split n a xs h in ((below, first), later)

  IsRanked-split :
      (n : ℕ) (xs : List A)
      → IsRanked xs
      → IsRanked (take n xs) × All (λ a. IsBelow a (drop n xs)) (take n xs)
  IsRanked-split zero xs h = (tt, tt)
  IsRanked-split (suc n) [] h = (tt, tt)
  IsRanked-split (suc n) (x ∷ xs) (below, h) =
      let (near, far) = IsBelow-split n x xs below in
      let (ranked, above) = IsRanked-split n xs h in ((near, ranked), (far, above))

  take-append-drop : (n : ℕ) (xs : List A) → take n xs ++ drop n xs ≡ xs
  take-append-drop zero xs = refl
  take-append-drop (suc n) [] = refl
  take-append-drop (suc n) (x ∷ xs) = ap (◌∷◌ x) (take-append-drop n xs)

  take_full : (n : ℕ) (xs : List A) → drop n xs ≢ [] → length (take n xs) ≡ n
  take_full zero xs h = omega arith
  take_full (suc n) [] h = absurd (h refl)
  take_full (suc n) (x ∷ xs) h = omega (arith, take_full n xs h)

  take_short : (n : ℕ) (xs : List A) → length (take n xs) ≤ n
  take_short zero xs = omega arith
  take_short (suc n) [] = omega arith
  take_short (suc n) (x ∷ xs) = omega (arith, take_short n xs)

  -- `ORDER BY key DESC LIMIT n` shows the first `n` rows by the key.
  pub take-order_by-IsTop : (n : ℕ) (xs : List A) → IsTop n xs (take n (order_by greater xs))
  take-order_by-IsTop n xs =
      let sorted = order_by greater xs in
      let (ranked, above) = IsRanked-split n sorted (order_by-IsRanked xs) in
      record {
        rest = drop n sorted;
        perm = rw (take-append-drop n sorted) (perm-order_by greater xs);
        ranked = ranked;
        above = above;
        short = take_short n sorted;
        full = take_full n sorted;
      }
