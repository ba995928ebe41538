-- ===== src/Shortener/Tests.antt =====
-- The theorems on short links at concrete inputs.
use system_design_lab.Prelude.{ℕ, ◌≡◌, ◌≢◌, refl, List, [], ◌∷◌, ◌++◌, arith, number_eq, list_eq}
use text.Mathlib.TextEquality.{eq_iff}
use system_design_lab.Prelude.Texts.{codes}
use system_design_lab.Shortener.Base64.{encode}
use system_design_lab.Shortener.{new_store, short_code, shorten, follow, link, url, redirect, host}
use system_design_lab.Shortener.Links.{follow-shorten}

abbrev random : List ℕ
random = 77 ∷ 97 ∷ 110 ∷ 255 ∷ 254 ∷ 0 ∷ []

abbrev other : List ℕ
other = 77 ∷ 97 ∷ 110 ∷ 255 ∷ 254 ∷ 1 ∷ []

code : short_code random ≡ codes "TWFu__4A"
unfolding short_code encode
code = refl

follow-shorten_example :
    let (r, s') = shorten new_store (url "https://example.com") random in
    (r ≡ link (host ++ short_code random ++ 10 ∷ []))
    × (follow s' (short_code random) ≡ redirect 302 "https://example.com")
    × (other ≢ random → follow s' (short_code other) ≡ follow new_store (short_code other))
follow-shorten_example =
    follow-shorten new_store "https://example.com" random other
      (ground (arith, eq_iff "https://example.com" "")) (omega arith) (omega arith)
