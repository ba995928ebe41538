-- ===== src/Prelude/Assoc.antt =====
-- Go's maps as association lists, for any key type with an equality test. The order of the entries
-- stands for Go's unspecified iteration order, and clients use the laws only.
use mathlib.Core.Path.{◌≡◌, refl}
use mathlib.Core.Bool.{Bool, true, false}
use mathlib.Core.List.{List, [], ◌∷◌}
use mathlib.Core.Option.{Option, none, some}
use native.Mathlib.Omega.{arith}
use system_design_lab.Prelude.Classes.{Equality, ◌==◌}
use system_design_lab.Prelude.Tests.{if◌then◌else◌}
use system_design_lab.Prelude.Lists.{elem}

abbrev pub Assoc {ℓ κ} : Type ℓ → Type κ → Type (ℓ ⊔ κ)
Assoc K V = List (K × V)

abbrev pub is_some {ℓ} : {A : Type ℓ} → Option A → Bool
is_some none = false
is_some (some a) = true

module _ {ℓ κ} {K : Type ℓ} {V : Type κ} where
  abbrev pub keys : Assoc K V → List K
  keys [] = []
  keys ((k, v) ∷ m) = k ∷ keys m

module _ {ℓ κ} {K : Type ℓ} {V : Type κ} ⦃e : Equality K⦄ where
  -- `m[k]` with its second result: `none` is a missing key.
  unfoldable pub get : Assoc K V → K → Option V
  get [] k = none
  get ((j, v) ∷ m) k = if j == k then some v else get m k

  -- `delete(m, k)`
  unfoldable pub remove : Assoc K V → K → Assoc K V
  remove [] k = []
  remove ((j, v) ∷ m) k = let rest = remove m k in if j == k then rest else (j, v) ∷ rest

  -- `m[k] = v`
  unfoldable pub put : Assoc K V → K → V → Assoc K V
  unfolding remove
  put m k v = (k, v) ∷ remove m k

  pub get-remove :
      (m : Assoc K V) (k j : K) → get (remove m k) j ≡ (if k == j then none else get m j)
  unfolding get remove
  get-remove [] k j = ground arith
  get-remove ((i, v) ∷ m) k j =
      ground (arith, get-remove m k j, e.test_iff i k, e.test_iff i j, e.test_iff k j)

  pub get-put :
      (m : Assoc K V) (k j : K) (v : V) → get (put m k v) j ≡ (if k == j then some v else get m j)
  unfolding get put
  get-put m k j v = ground (arith, get-remove m k j)

  -- The keys are those with a value.
  pub elem-keys : (m : Assoc K V) (k : K) → elem k (keys m) ≡ is_some (get m k)
  unfolding get elem
  elem-keys [] k = refl
  elem-keys ((i, v) ∷ m) k = ground (arith, elem-keys m k)
