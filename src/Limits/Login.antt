-- ===== src/Limits/Login.antt =====
-- The limit on login attempts in beatstream/internal/middleware/ratelimit.go: a counter with an
-- expiry, which counts the attempts of a fixed window.
use system_design_lab.Prelude.{
  ℕ, suc, ◌+◌, ◌-◌, ◌<◌, ◌≡◌, refl, ap, ◌∙◌, String, true, false, Option, none, some, List, [], ◌∷◌,
  length, ltb, min, if◌then◌else◌, arith, ==-refl, text_eq,
}
use system_design_lab.Prelude.Texts.{◌<>◌}
use native.Mathlib.Numerals.{add-one}
use system_design_lab.Redis.{Redis}
use system_design_lab.Gin.{Ctx, Verdict, next, abort}
use system_design_lab.Limits.{Faults, login_limit, window}

abbrev pub passed : Verdict → ℕ
passed (next c) = 1
passed (abort status message c) = 0

abbrev pub no_faults : Faults
no_faults = record { incr = false; expire = false }

abbrev pub lost_expire : Faults
lost_expire = record { incr = false; expire = true }

-- The key of a client's counter.
abbrev pub login_key : Ctx → String
login_key c = "ratelimit:login:" <> c.client_ip

abbrev pub total : List ℕ → ℕ
total [] = 0
total (p ∷ ps) = p + total ps

module _ (R : Redis ℕ) (c : Ctx) where
  -- Attempts of one client, each after a pause: how many pass.
  pub attempts : List ℕ → R.State → ℕ
  attempts [] s = 0
  attempts (p ∷ ps) s =
      let (v, s') = login_limit R no_faults c (R.wait p s) in passed v + attempts ps s'

  -- One attempt that INCR counts as number n + 1: whether it passes, the counter and its time left.
  record Counts (n : ℕ) (ttl : Option ℕ) (v : Verdict) (t : R.State) : Type 0 where
    verdict : passed v ≡ (if ltb n 5 then 1 else 0)
    counter : R.get t (login_key c) ≡ some (n + 1)
    left : R.ttl t (login_key c) ≡ ttl

  attempt-Counts :
      (n : ℕ) (s : R.State)
      → R.get s (login_key c) ≡ some (suc n)
      → let (v, t) = login_limit R no_faults c s in Counts (suc n) (R.ttl s (login_key c)) v t
  unfolding login_limit
  attempt-Counts n s e = rw e (record {
    verdict = ground arith;
    counter =
        ground (arith, R.get-set s (login_key c) (login_key c) (suc n + 1), ==-refl (login_key c));
    left = ground (arith, R.ttl-set s (login_key c) (login_key c) (suc n + 1));
  })

  first_attempt-Counts :
      (s : R.State)
      → R.get s (login_key c) ≡ none
      → let (v, t) = login_limit R no_faults c s in Counts 0 (some window) v t
  unfolding login_limit
  first_attempt-Counts s e =
      let key = login_key c in
      let there : R.get (R.set s key 1) key ≡ some 1 =
        R.get-set s key key 1 ∙ rw (==-refl key) refl in
      rw e (record {
        verdict = refl;
        counter = R.get-expire (R.set s key 1) key key window ∙ there;
        left = R.ttl-expire (R.set s key 1) key key window 1 there ∙ rw (==-refl key) refl;
      })

  -- The attempts that are left in a window that stays open, with n attempts counted.
  attempts_left :
      (n ttl : ℕ) (ps : List ℕ) (s : R.State)
      → R.get s (login_key c) ≡ some (suc n)
      → R.ttl s (login_key c) ≡ some ttl
      → total ps < ttl
      → attempts ps s ≡ min (4 - n) (length ps)
  unfolding attempts
  attempts_left n ttl [] s e f h = omega arith
  attempts_left n ttl (p ∷ ps) s e f h =
      let kept : R.get (R.wait p s) (login_key c) ≡ some (suc n) =
        ground (arith, R.get-wait s p (login_key c)) in
      let time : R.ttl (R.wait p s) (login_key c) ≡ some (ttl - p) =
        ground (arith, R.ttl-wait s p (login_key c)) in
      let one = attempt-Counts n (R.wait p s) kept in
      let rest =
        attempts_left (suc n) (ttl - p) ps (login_limit R no_faults c (R.wait p s)).1
          (one.counter ∙ ap some (add-one (suc n))) (one.left ∙ time) (omega arith) in
      ground (arith, one.verdict, rest)

  -- When the counter is gone at the first attempt, a window opens: of all attempts less than 15
  -- minutes after that one, exactly the first five pass.
  pub attempts_in_window :
      (p : ℕ) (ps : List ℕ) (s : R.State)
      → R.get (R.wait p s) (login_key c) ≡ none
      → total ps < window
      → attempts (p ∷ ps) s ≡ min 5 (length (p ∷ ps))
  unfolding attempts
  attempts_in_window p ps s gone h =
      let one = first_attempt-Counts (R.wait p s) gone in
      let rest =
        attempts_left 0 window ps (login_limit R no_faults c (R.wait p s)).1 one.counter one.left
          h in
      ground (arith, one.verdict, rest)

  -- A counter with no time to live stays, whatever the pauses.
  attempts_stuck :
      (n : ℕ) (ps : List ℕ) (s : R.State)
      → R.get s (login_key c) ≡ some (suc n)
      → R.ttl s (login_key c) ≡ none
      → attempts ps s ≡ min (4 - n) (length ps)
  unfolding attempts
  attempts_stuck n [] s e f = omega arith
  attempts_stuck n (p ∷ ps) s e f =
      let kept : R.get (R.wait p s) (login_key c) ≡ some (suc n) =
        ground (arith, R.get-wait s p (login_key c)) in
      let time : R.ttl (R.wait p s) (login_key c) ≡ none =
        ground (arith, R.ttl-wait s p (login_key c)) in
      let one = attempt-Counts n (R.wait p s) kept in
      let rest =
        attempts_stuck (suc n) ps (login_limit R no_faults c (R.wait p s)).1
          (one.counter ∙ ap some (add-one (suc n))) (one.left ∙ time) in
      ground (arith, one.verdict, rest)

  -- If the EXPIRE of a client's first attempt is lost, its counter never expires: of all later
  -- attempts only the first four pass, however long the client waits.
  pub lost_expire_locks_out :
      (ps : List ℕ) (s : R.State)
      → R.get s (login_key c) ≡ none
      → attempts ps (login_limit R lost_expire c s).1 ≡ min 4 (length ps)
  unfolding login_limit
  lost_expire_locks_out ps s gone =
      attempts_stuck 0 ps (login_limit R lost_expire c s).1
        (rw gone (R.get-set s (login_key c) (login_key c) 1 ∙ rw (==-refl (login_key c)) refl))
        (rw gone (R.ttl-set s (login_key c) (login_key c) 1 ∙ R.ttl_none s (login_key c) gone))

  -- On a failed INCR the limiter lets the request through, unmarked, and counts nothing.
  pub login_limit_fails_open :
      (faults : Faults) (s : R.State) → faults.incr ≡ true → login_limit R faults c s ≡ (next c, s)
  unfolding login_limit
  login_limit_fails_open faults s e = rw e
