-- ===== src/Redis.antt =====
-- The Redis server, which is not part of the repository: an interface with the documented behaviour
-- of the commands that the program sends, for keys that hold values of one type. Times are in
-- nanoseconds. `set` is a write that keeps the key's time to live, as HMSET and INCR do.
pub mod Memory
use system_design_lab.Prelude.{
  ℕ, ◌-◌, ◌≡◌, String, Bool, true, false, Option, none, some, ◌==◌, text_eq, leb, if◌then◌else◌,
}

-- A key with this time to live is gone after the pause.
abbrev pub is_over : Option ℕ → ℕ → Bool
is_over none pause = false
is_over (some ttl) pause = leb ttl pause

abbrev pub less : Option ℕ → ℕ → Option ℕ
less none pause = none
less (some ttl) pause = some (ttl - pause)

pub record Redis (V : Type 0) : Type 1 where
  pub State : Type 0
  pub get : State → String → Option V
  pub ttl : State → String → Option ℕ
  pub set : State → String → V → State
  pub expire : State → String → ℕ → State
  pub wait : ℕ → State → State
  pub get-set :
      (s : State) (k j : String) (v : V) → get (set s k v) j ≡ (if k == j then some v else get s j)
  pub ttl-set : (s : State) (k j : String) (v : V) → ttl (set s k v) j ≡ ttl s j
  pub get-expire : (s : State) (k j : String) (t : ℕ) → get (expire s k t) j ≡ get s j
  pub ttl-expire :
      (s : State) (k j : String) (t : ℕ) (v : V)
      → get s k ≡ some v
      → ttl (expire s k t) j ≡ (if k == j then some t else ttl s j)
  pub get-wait :
      (s : State) (pause : ℕ) (k : String)
      → get (wait pause s) k ≡ (if is_over (ttl s k) pause then none else get s k)
  pub ttl-wait :
      (s : State) (pause : ℕ) (k : String)
      → ttl (wait pause s) k ≡ (if is_over (ttl s k) pause then none else less (ttl s k) pause)
  pub ttl_none : (s : State) (k : String) → get s k ≡ none → ttl s k ≡ none

-- `Get` and `Set` of beatstream/internal/cache/redis.go; `down` says that the calls fail. The error of
-- a `Set` is dropped by all callers.
module _ {V : Type 0} (R : Redis V) (down : Bool) where
  abbrev pub cache_get : String → R.State → Option V
  cache_get key s = if down then none else R.get s key

  abbrev pub cache_set : String → V → ℕ → R.State → R.State
  cache_set key v ttl s = if down then s else R.expire (R.set s key v) key ttl
