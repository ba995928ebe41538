-- ===== src/Handlers/Pages.antt =====
-- One page of a playlist as beatstream/internal/handler/playlists.go sends it.
use system_design_lab.Prelude.{
  ℕ, zero, suc, ◌+◌, ◌≤◌, ◌<◌, true, false, none, some, List, [], ◌∷◌, ◌++◌, map, length,
  length-append, take, take_all, ◌≡◌, refl, ap, ◌∙◌, ltb, text_eq, arith,
}
use system_design_lab.Database.{Track}
use system_design_lab.Handlers.{TrackRow, track_row}
use system_design_lab.Handlers.Playlists.{page, last_id}

abbrev pub row : Track → TrackRow
row t = track_row "" t

module _ {A : Type 0} where
  take-append :
      (m k : ℕ) (front rest : List A)
      → m ≡ length front + k
      → take m (front ++ rest) ≡ front ++ take k rest
  take-append m k [] rest h = ap (λ n. take n rest) (omega (arith, h))
  take-append zero k (a ∷ front) rest h = absurd (omega (arith, h))
  take-append (suc m) k (a ∷ front) rest h =
      ap (◌∷◌ a) (take-append m k front rest (omega (arith, h)))

  -- The row with a number of rows before it.
  pub split_at :
      (n : ℕ) (as' : List A)
      → n < length as'
      → (front : List A) × (a : A) × (rest : List A) × (as' ≡ front ++ a ∷ rest)
        × (length front ≡ n)
  split_at n [] h = absurd (omega (arith, h))
  split_at zero (a ∷ as') h = ([], a, as', refl, refl)
  split_at (suc n) (a ∷ as') h =
      let (front, b, rest, e, l) = split_at n as' (omega (arith, h)) in
      (a ∷ front, b, rest, ap (◌∷◌ a) e, omega (arith, l))

  -- The two rows after a number of rows.
  pub split_two :
      (n : ℕ) (as' : List A)
      → suc n < length as'
      → (front : List A) × (a : A) × (b : A) × (rest : List A) × (as' ≡ front ++ a ∷ b ∷ rest)
        × (length front ≡ n)
  split_two n as' h =
      let (front, a, rest, e, l) = split_at n as' (omega (arith, h)) in
      let size : length as' ≡ length front + length (a ∷ rest) =
        ap length e ∙ length-append front (a ∷ rest) in
      elim rest
          as (λ rest.
            as' ≡ front ++ a ∷ rest
            → length as' ≡ length front + length (a ∷ rest)
            → (front : List A) × (a : A) × (b : A) × (rest : List A) × (as' ≡ front ++ a ∷ b ∷ rest)
              × (length front ≡ n)) [
                | [] ↦ λ e size. absurd (omega (arith, size, h, l))
                | b ∷ rest ↦ λ e size. (front, a, b, rest, e, l)
              ]
        e size

pub map-append :
    {A B : Type 0} (f : A → B) (xs ys : List A) → map f (xs ++ ys) ≡ map f xs ++ map f ys
map-append f [] ys = refl
map-append f (x ∷ xs) ys = ap (◌∷◌ (f x)) (map-append f xs ys)

length-map : {A B : Type 0} (f : A → B) (xs : List A) → length (map f xs) ≡ length xs
length-map f [] = refl
length-map f (x ∷ xs) = omega (arith, length-map f xs)

last_id-append : (rs : List TrackRow) (r : TrackRow) → last_id (rs ++ r ∷ []) ≡ some r.id
last_id-append [] r = refl
last_id-append (s ∷ []) r = refl
last_id-append (s ∷ s' ∷ rs) r = last_id-append (s' ∷ rs) r

page_rest :
    (ts : List Track)
    → length ts ≤ 50
    → page ts ≡ record { items = map row ts; next_cursor = none; has_more = false }
unfolding page
page_rest ts h =
    let few : ltb 50 (length (map row ts)) ≡ false = ground (arith, length-map row ts, h) in
    rw (page, few)

pub last_page :
    (ts : List Track)
    → length ts ≤ 50
    → page (take 51 ts) ≡ record { items = map row ts; next_cursor = none; has_more = false }
last_page ts h = ap page (take_all 51 ts (omega (arith, h))) ∙ page_rest ts h

page_more :
    (front : List Track) (t u : Track)
    → length front ≡ 49
    → page (front ++ t ∷ u ∷ [])
      ≡ record { items = map row front ++ row t ∷ []; next_cursor = some t.id; has_more = true }
unfolding page
page_more front t u h =
    let rows : map row (front ++ t ∷ u ∷ []) ≡ map row front ++ row t ∷ row u ∷ [] =
      map-append row front (t ∷ u ∷ []) in
    let many : ltb 50 (length (map row front ++ row t ∷ row u ∷ [])) ≡ true =
      ground (arith, length-append (map row front) (row t ∷ row u ∷ []), length-map row front, h) in
    let shown : take 50 (map row front ++ row t ∷ row u ∷ []) ≡ map row front ++ row t ∷ [] =
      take-append 50 1 (map row front) (row t ∷ row u ∷ [])
        (omega (arith, length-map row front, h)) in
    rw (page, rows, many, shown, last_id-append (map row front) (row t))

pub full_page :
    (front : List Track) (t u : Track) (rest : List Track)
    → length front ≡ 49
    → page (take 51 (front ++ t ∷ u ∷ rest))
      ≡ record { items = map row front ++ row t ∷ []; next_cursor = some t.id; has_more = true }
full_page front t u rest h =
    ap page (take-append 51 2 front (t ∷ u ∷ rest) (omega (arith, h))) ∙ page_more front t u h
