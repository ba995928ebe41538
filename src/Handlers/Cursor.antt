-- ===== src/Handlers/Cursor.antt =====
-- `WHERE key > cursor ORDER BY key`, as the query of beatstream/internal/handler/playlists.go uses it.
use mathlib.Core.List.Perm
use mathlib.Core.List.{Perm}
use system_design_lab.Prelude.{
  ℕ, suc, length, ◌<◌, ◌≤◌, Bool, true, false, List, [], ◌∷◌, ◌++◌, All, ◌≡◌, ◌≢◌, refl, sym, ap,
  ◌∙◌, inl, inr, ltb, arith, Bool-cases,
}
use system_design_lab.Handlers.{insert, order_by, select}

module _ {A : Type 0} (P : A → Type 0) where
  All-insert :
      (before : A → A → Bool) (x : A) (ys : List A) → P x → All P ys → All P (insert before x ys)
  unfolding insert
  All-insert before x [] p h = (p, tt)
  All-insert before x (y ∷ ys) p h = elim (Bool-cases (before y x)) [
    | inl later ↦ rw (insert, later) (h.0, All-insert before x ys p h.1)
    | inr here ↦ rw (insert, here) (p, h)
  ]

  pub All-order_by : (before : A → A → Bool) (xs : List A) → All P xs → All P (order_by before xs)
  unfolding order_by
  All-order_by before [] h = tt
  All-order_by before (x ∷ xs) h =
      All-insert before x (order_by before xs) h.0 (All-order_by before xs h.1)

  pub All-front : (front rest : List A) → All P (front ++ rest) → All P front
  All-front [] rest h = tt
  All-front (a ∷ front) rest h = (h.0, All-front front rest h.1)

  pub All-drop : (front rest : List A) → All P (front ++ rest) → All P rest
  All-drop [] rest h = h
  All-drop (a ∷ front) rest h = All-drop front rest h.1

  pub All-select : (p : A → Bool) (xs : List A) → All P xs → All P (select p xs)
  unfolding select
  All-select p [] h = tt
  All-select p (x ∷ xs) h = elim (Bool-cases (p x)) [
    | inl keeps ↦ rw (select, keeps) (h.0, All-select p xs h.1)
    | inr drops ↦ rw (select, drops) (All-select p xs h.1)
  ]

  -- Two orders that agree where P holds.
  insert_ext :
      (f g : A → A → Bool) (x : A) (ys : List A)
      → ((a b : A) → P a → P b → f a b ≡ g a b)
      → P x
      → All P ys
      → insert f x ys ≡ insert g x ys
  unfolding insert
  insert_ext f g x [] same p h = refl
  insert_ext f g x (y ∷ ys) same p h =
      ground (arith, same y x h.0 p, insert_ext f g x ys same p h.1)

  pub order_by_ext :
      (f g : A → A → Bool) (xs : List A)
      → ((a b : A) → P a → P b → f a b ≡ g a b)
      → All P xs
      → order_by f xs ≡ order_by g xs
  unfolding order_by
  order_by_ext f g [] same h = refl
  order_by_ext f g (x ∷ xs) same h =
      insert_ext f g x (order_by f xs) same h.0 (All-order_by f xs h.1)
      ∙ ap (insert g x) (order_by_ext f g xs same h.1)

module _ {A : Type 0} (before : A → A → Bool) where
  perm-insert : (x : A) (ys : List A) → Perm (insert before x ys) (x ∷ ys)
  unfolding insert
  perm-insert x [] = Perm.refl (x ∷ [])
  perm-insert x (y ∷ ys) = elim (Bool-cases (before y x)) [
    | inl later ↦
        rw (insert, later) (Perm.trans (Perm.cons y (perm-insert x ys)) (Perm.swap x y ys))
    | inr here ↦ rw (insert, here) (Perm.refl (x ∷ y ∷ ys))
  ]

  -- Ordering changes neither the rows nor their number.
  pub perm-order_by : (xs : List A) → Perm (order_by before xs) xs
  unfolding order_by
  perm-order_by [] = Perm.nil
  perm-order_by (x ∷ xs) =
      Perm.trans (perm-insert x (order_by before xs)) (Perm.cons x (perm-order_by xs))

  length-insert : (x : A) (ys : List A) → length (insert before x ys) ≡ suc (length ys)
  unfolding insert
  length-insert x [] = refl
  length-insert x (y ∷ ys) = ground (arith, length-insert x ys)

  pub length-order_by : (xs : List A) → length (order_by before xs) ≡ length xs
  unfolding order_by
  length-order_by [] = refl
  length-order_by (x ∷ xs) =
      length-insert x (order_by before xs) ∙ omega (arith, length-order_by xs)

module _ {A : Type 0} (key : A → ℕ) where
  abbrev pub smaller : A → A → Bool
  smaller a b = ltb (key a) (key b)

  abbrev pub IsAbove : ℕ → List A → Type 0
  IsAbove n as' = All (λ a. n < key a) as'

  abbrev pub IsAscending : List A → Type 0
  IsAscending [] = Unit {0}
  IsAscending (a ∷ as') = IsAbove (key a) as' × IsAscending as'

  abbrev IsApart : A → List A → Type 0
  IsApart a as' = All (λ b. key a ≢ key b) as'

  -- No two rows have the same key.
  abbrev pub IsDistinct : List A → Type 0
  IsDistinct [] = Unit {0}
  IsDistinct (a ∷ as') = IsApart a as' × IsDistinct as'

  IsAbove-weaken : (m n : ℕ) (as' : List A) → m ≤ n → IsAbove n as' → IsAbove m as'
  IsAbove-weaken m n [] h above = tt
  IsAbove-weaken m n (a ∷ as') h above = (omega (arith, above.0), IsAbove-weaken m n as' h above.1)

  IsAscending-insert :
      (x : A) (ys : List A) → IsApart x ys → IsAscending ys → IsAscending (insert smaller x ys)
  unfolding insert
  IsAscending-insert x [] apart h = (tt, tt)
  IsAscending-insert x (y ∷ ys) apart h = elim (Bool-cases (smaller y x)) [
    | inl later ↦
        let less : key y < key x = ground (arith, later) in
        rw (insert, later)
          (
            All-insert (λ a. key y < key a) smaller x ys less h.0,
            IsAscending-insert x ys apart.1 h.1,
          )
    | inr here ↦
        let differs : key x ≢ key y = apart.0 in
        let less : key x < key y = ground (arith, here, differs) in
        rw (insert, here) ((less, IsAbove-weaken (key x) (key y) ys (omega arith) h.0), h)
  ]

  pub order_by-IsAscending : (xs : List A) → IsDistinct xs → IsAscending (order_by smaller xs)
  unfolding order_by
  order_by-IsAscending [] h = tt
  order_by-IsAscending (x ∷ xs) h =
      IsAscending-insert x (order_by smaller xs) (All-order_by (λ b. key x ≢ key b) smaller xs h.0)
        (order_by-IsAscending xs h.1)

  insert_front : (x : A) (ys : List A) → IsAbove (key x) ys → insert smaller x ys ≡ x ∷ ys
  unfolding insert
  insert_front x [] h = refl
  insert_front x (y ∷ ys) h = ground (arith, h.0)

  insert-select :
      (p : A → Bool) (x : A) (ys : List A)
      → p x ≡ true
      → IsApart x ys
      → IsAscending ys
      → insert smaller x (select p ys) ≡ select p (insert smaller x ys)
  unfolding insert select
  insert-select p x [] keeps apart h = ground (arith, keeps)
  insert-select p x (y ∷ ys) keeps apart h = elim (Bool-cases (smaller y x)) [
    | inl later ↦ ground (arith, later, insert-select p x ys keeps apart.1 h.1)
    | inr here ↦
        let differs : key x ≢ key y = apart.0 in
        let less : key x < key y = ground (arith, here, differs) in
        let above : IsAbove (key x) (y ∷ ys) =
          (less, IsAbove-weaken (key x) (key y) ys (omega arith) h.0) in
        insert_front x (select p (y ∷ ys)) (All-select (λ a. key x < key a) p (y ∷ ys) above)
        ∙ ground (arith, here, keeps)
  ]

  select-insert_dropped :
      (p : A → Bool) (x : A) (ys : List A)
      → p x ≡ false
      → select p (insert smaller x ys) ≡ select p ys
  unfolding insert select
  select-insert_dropped p x [] drops = ground (arith, drops)
  select-insert_dropped p x (y ∷ ys) drops =
      ground (arith, drops, select-insert_dropped p x ys drops)

  -- Selecting rows and ordering them may change places.
  pub order_by-select :
      (p : A → Bool) (xs : List A)
      → IsDistinct xs
      → order_by smaller (select p xs) ≡ select p (order_by smaller xs)
  unfolding order_by select
  order_by-select p [] h = refl
  order_by-select p (x ∷ xs) h =
      let sorted = order_by smaller xs in
      elim (Bool-cases (p x)) [
        | inl keeps ↦ rw keeps (
            ap (insert smaller x) (order_by-select p xs h.1)
            ∙ insert-select p x sorted keeps (All-order_by (λ b. key x ≢ key b) smaller xs h.0)
                (order_by-IsAscending xs h.1))
        | inr drops ↦
            rw drops (order_by-select p xs h.1 ∙ sym (select-insert_dropped p x sorted drops))
      ]

  select_none : (n : ℕ) (as' : List A) → IsAbove n as' → select (λ a. ltb n (key a)) as' ≡ as'
  unfolding select
  select_none n [] h = refl
  select_none n (a ∷ as') h = ground (arith, h.0, select_none n as' h.1)

  -- The rows of an ascending list after one of them are those with a greater key.
  pub select_after :
      (front : List A) (e : A) (rest : List A)
      → IsAscending (front ++ e ∷ rest)
      → select (λ a. ltb (key e) (key a)) (front ++ e ∷ rest) ≡ rest
  unfolding select
  select_after [] e rest h = ground (arith, select_none (key e) rest h.0)
  select_after (a ∷ front) e rest h =
      let less : key a < key e = (All-drop (λ b. key a < key b) front (e ∷ rest) h.0).0 in
      ground (arith, less, select_after front e rest h.1)
