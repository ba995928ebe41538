-- ===== src/Redis/Memory.antt =====
-- An implementation of the interface, which shows that its laws can hold together.
use system_design_lab.Prelude.{
  ℕ, ◌≡◌, String, Option, none, some, ◌==◌, text_eq, if◌then◌else◌, arith,
}
use text.Mathlib.TextEquality.{eq_iff}
use system_design_lab.Redis.{Redis, is_over, less}

-- The value of each key and its time to live.
abbrev pub Keyspace : Type 0 → Type 0
Keyspace V = String → Option (V × Option ℕ)

module _ {V : Type 0} where
  abbrev value : Option (V × Option ℕ) → Option V
  value none = none
  value (some (v, t)) = some v

  abbrev time : Option (V × Option ℕ) → Option ℕ
  time none = none
  time (some (v, t)) = t

  abbrev expiring : Option (V × Option ℕ) → ℕ → Option (V × Option ℕ)
  expiring none t = none
  expiring (some (v, _)) t = some (v, some t)

  abbrev aged : ℕ → Option (V × Option ℕ) → Option (V × Option ℕ)
  aged pause none = none
  aged pause (some (v, t)) = if is_over t pause then none else some (v, less t pause)

  abbrev set : Keyspace V → String → V → Keyspace V
  set s k v j = if k == j then some (v, time (s j)) else s j

  abbrev expire : Keyspace V → String → ℕ → Keyspace V
  expire s k t j = if k == j then expiring (s j) t else s j

  pub value-set :
      (s : Keyspace V) (k j : String) (v : V)
      → value (set s k v j) ≡ (if k == j then some v else value (s j))
  value-set s k j v = ground arith

  pub time-set : (s : Keyspace V) (k j : String) (v : V) → time (set s k v j) ≡ time (s j)
  time-set s k j v = ground arith

  pub value-expire : (s : Keyspace V) (k j : String) (t : ℕ) → value (expire s k t j) ≡ value (s j)
  value-expire s k j t = ground arith

  pub time-expire :
      (s : Keyspace V) (k j : String) (t : ℕ) (v : V)
      → value (s k) ≡ some v
      → time (expire s k t j) ≡ (if k == j then some t else time (s j))
  time-expire s k j t v h = ground (arith, eq_iff k j)

  pub value-aged :
      (o : Option (V × Option ℕ)) (pause : ℕ)
      → value (aged pause o) ≡ (if is_over (time o) pause then none else value o)
  value-aged o pause = ground arith

  pub time-aged :
      (o : Option (V × Option ℕ)) (pause : ℕ)
      → time (aged pause o) ≡ (if is_over (time o) pause then none else less (time o) pause)
  time-aged o pause = ground arith

  pub time-none : (o : Option (V × Option ℕ)) → value o ≡ none → time o ≡ none
  time-none o h = ground arith

abbrev pub memory : (V : Type 0) → Redis V
memory V = record {
  State = Keyspace V;
  get = λ s k. value (s k);
  ttl = λ s k. time (s k);
  set = set;
  expire = expire;
  wait = λ pause s k. aged pause (s k);
  get-set = value-set;
  ttl-set = time-set;
  get-expire = value-expire;
  ttl-expire = time-expire;
  get-wait = λ s pause k. value-aged (s k) pause;
  ttl-wait = λ s pause k. time-aged (s k) pause;
  ttl_none = λ s k h. time-none (s k) h;
}

abbrev pub empty : {V : Type 0} → Keyspace V
empty k = none
