-- ===== src/Ring/Search.antt =====
-- `sort.Search`: the binary search for the first index at which a test passes.
use system_design_lab.Prelude.{
  ℕ, zero, suc, ◌+◌, ◌-◌, ◌/◌, ◌≤◌, ◌<◌, ◌≡◌, Bool, ltb, leb, if◌then◌else◌, arith,
}

-- The loop `for i < j`, with fuel. The sum of two indices of a slice does not overflow a uint.
unfoldable pub search_loop : ℕ → (ℕ → Bool) → ℕ → ℕ → ℕ
search_loop zero f i j = i
search_loop (suc fuel) f i j =
    let m = (i + j) / 2 in
    let right = search_loop fuel f (m + 1) j in
    let left = search_loop fuel f i m in if ltb i j then (if f m then left else right) else i

-- Each round makes the interval shorter, so `n` rounds are enough.
unfoldable pub search : ℕ → (ℕ → Bool) → ℕ
unfolding search_loop
search n f = search_loop n f 0 n

-- The test fails below `k` and passes from `k` on, among the indices below `n`.
pub record IsStep (f : ℕ → Bool) (n k : ℕ) : Type 0 where
  pub bounded : k ≤ n
  pub passes : (i : ℕ) → i < n → f i ≡ leb k i

search_loop_lem :
    (fuel : ℕ) (f : ℕ → Bool) (n k i j : ℕ)
    → IsStep f n k
    → i ≤ k
    → k ≤ j
    → j ≤ n
    → j - i ≤ fuel
    → search_loop fuel f i j ≡ k
unfolding search_loop
search_loop_lem zero f n k i j s p q r e = omega arith
search_loop_lem (suc fuel) f n k i j s p q r e =
    let m = (i + j) / 2 in
    ground
      (arith, s.passes m, search_loop_lem fuel f n k (m + 1) j s, search_loop_lem fuel f n k i m s)

-- On a test that switches once, the search returns the switching point.
pub search_lem : (n k : ℕ) (f : ℕ → Bool) → IsStep f n k → search n f ≡ k
unfolding search
search_lem n k f s =
    search_loop_lem n f n k 0 n s (omega arith) s.bounded (omega arith) (omega arith)
