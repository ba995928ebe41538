-- ===== src/Shortener/Links.antt =====
-- Short links: different random bytes give different codes, and a link leads where it was made to.
use system_design_lab.Prelude.{
  ℕ, ◌<◌, ◌≡◌, ◌≢◌, refl, ap, String, List, [], ◌∷◌, ◌++◌, length, get_or, if◌then◌else◌, arith,
  ◌==◌, number_eq, text_eq, list_eq, ==-refl,
}
use text.Mathlib.TextEquality.{eq_iff}
use system_design_lab.Prelude.Assoc.{get-put}
use system_design_lab.Shortener.Base64.{encode, group_inj}
use system_design_lab.Shortener.{
  Store, link, redirect, url, save, lookup, short_code, shorten, follow, host,
}

-- Six bytes.
abbrev pub IsBuffer : List ℕ → Type 0
IsBuffer (a ∷ b ∷ c ∷ d ∷ e ∷ f ∷ []) =
    (a < 256) × (b < 256) × (c < 256) × (d < 256) × (e < 256) × (f < 256)
IsBuffer _ = ⊥

-- A code has eight letters, so the slice `[:8]` of the encoding is in range and takes all of it.
pub length-short_code :
    (random : List ℕ)
    → IsBuffer random
    → (length (short_code random) ≡ 8) × (short_code random ≡ encode random)
unfolding short_code encode
length-short_code (a ∷ b ∷ c ∷ d ∷ e ∷ f ∷ []) h = (refl, refl)
length-short_code _ h = absurd h

-- Two buffers with the same code are the same.
pub short_code_inj :
    (random other : List ℕ)
    → IsBuffer random
    → IsBuffer other
    → short_code random ≡ short_code other
    → random ≡ other
unfolding short_code encode
short_code_inj (a ∷ b ∷ c ∷ d ∷ e ∷ f ∷ []) (u ∷ v ∷ w ∷ x ∷ y ∷ z ∷ []) h k same =
    let (ha, hb, hc, hd, he, hf) = h in
    let (hu, hv, hw, hx, hy, hz) = k in
    let letter = λ (i : ℕ). ap (λ (l : List ℕ). get_or l i 0) same in
    let (p, q, r) =
      group_inj a b c u v w ha hb hc hu hv hw (letter 0) (letter 1) (letter 2) (letter 3) in
    let (s, t, m) =
      group_inj d e f x y z hd he hf hx hy hz (letter 4) (letter 5) (letter 6) (letter 7) in
    cc
short_code_inj _ _ h k same = ground arith

follow-save :
    (s : Store) (code other : List ℕ) (original : String)
    → follow (save s code original) other
      ≡ (if code == other then redirect 302 original else follow s other)
unfolding follow lookup save
follow-save s code other original = ground (arith, get-put s.codes code other original)

-- A link made from a URL redirects to that URL with status 302, and every link that other random
-- bytes would give leads where it led before.
pub follow-shorten :
    (s : Store) (original : String) (random other : List ℕ)
    → original ≢ ""
    → IsBuffer random
    → IsBuffer other
    → let (r, s') = shorten s (url original) random in
      (r ≡ link (host ++ short_code random ++ 10 ∷ []))
      × (follow s' (short_code random) ≡ redirect 302 original)
      × (other ≢ random → follow s' (short_code other) ≡ follow s (short_code other))
unfolding shorten
follow-shorten s original random other named h k = ground (
  arith,
  eq_iff original "",
  follow-save s (short_code random) (short_code random) original,
  follow-save s (short_code random) (short_code other) original,
  ==-refl (short_code random),
  (list_eq {A = ℕ}).test_iff (short_code random) (short_code other),
  short_code_inj random other h k,
)
