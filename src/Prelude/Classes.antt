-- ===== src/Prelude/Classes.antt =====
-- Equality tests as an interface: one operator for every type that has an instance.
use Prim.Native.Nat.{ℕ}
use Prim.Native.String.{String}
use mathlib.Core.Path.{◌≡◌, refl}
use mathlib.Core.Logic.{◌↔◌}
use mathlib.Core.Bool.{Bool, true, false, ◌&&◌}
use mathlib.Core.List.{List, [], ◌∷◌}
use native.Mathlib.Omega.{arith}
use text.Mathlib.Text.{◌==◌ as same_text}
use text.Mathlib.TextEquality.{eq_iff as same_text_iff}
use system_design_lab.Prelude.Tests.{eqb, eqb_iff}

-- A Boolean test that decides equality.
pub record Equality {ℓ} (A : Type ℓ) : Type ℓ where
  pub test : A → A → Bool
  pub test_iff : (x y : A) → (test x y ≡ true) ↔ (x ≡ y)

module _ {ℓ} {A : Type ℓ} ⦃e : Equality A⦄ where
  infix 50 ◌==◌
  abbrev pub ◌==◌ : A → A → Bool
  x == y = e.test x y

  pub ==-refl : (x : A) → (x == x) ≡ true
  ==-refl x = (e.test_iff x x).1 refl

instance abbrev pub text_eq : Equality String
text_eq = record { test = same_text; test_iff = same_text_iff }

instance abbrev pub number_eq : Equality ℕ
number_eq = record { test = eqb; test_iff = eqb_iff }

unfoldable pub list_test {ℓ} : {A : Type ℓ} ⦃e : Equality A⦄ → List A → List A → Bool
list_test [] [] = true
list_test (x ∷ xs) (y ∷ ys) = x == y && list_test xs ys
list_test _ _ = false

pub list_test_iff {ℓ} :
    {A : Type ℓ} ⦃e : Equality A⦄ (xs ys : List A) → (list_test xs ys ≡ true) ↔ (xs ≡ ys)
unfolding list_test
list_test_iff [] [] = (λ h. refl, λ h. refl)
list_test_iff [] (y ∷ ys) = (λ h. cc, λ h. cc)
list_test_iff (x ∷ xs) [] = (λ h. cc, λ h. cc)
list_test_iff ⦃e⦄ (x ∷ xs) (y ∷ ys) = ground (arith, e.test_iff x y, list_test_iff xs ys)

instance unfoldable pub list_eq {ℓ} : {A : Type ℓ} ⦃e : Equality A⦄ → Equality (List A)
unfolding list_test
list_eq = record { test = list_test; test_iff = list_test_iff }
