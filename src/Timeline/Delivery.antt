-- ===== src/Timeline/Delivery.antt =====
-- Whose timeline a new tweet enters.
use system_design_lab.Prelude.{
  ℕ, zero, suc, ◌≡◌, refl, ap, String, List, [], ◌∷◌, length, take, take_all, ltb, number_eq,
  if◌then◌else◌, eqb_iff, arith, Bool-cases, inl, inr, ◌==◌,
}
use system_design_lab.Prelude.Assoc.{Assoc, get, get-put}
use system_design_lab.Timeline.{
  Store, or_nil, prepend, max_timeline, fan_out, next, post_tweet, timeline,
}

-- How often the user follows, that is, how many times its id stands in the list.
abbrev pub count : ℕ → List ℕ → ℕ
count user [] = 0
count user (x ∷ xs) = let rest = count user xs in if x == user then suc rest else rest

-- The tweet at the front, n times, and each time the last entries cut off.
abbrev pub deliver : ℕ → ℕ → List ℕ → List ℕ
deliver zero id ids = ids
deliver (suc n) id ids = deliver n id (take max_timeline (id ∷ ids))

pub prepend-take : (ids : List ℕ) (id n : ℕ) → prepend ids id n ≡ take n (id ∷ ids)
unfolding prepend
prepend-take ids id n = elim (Bool-cases (ltb n (length (id ∷ ids)))) [
  | inl long ↦ rw long
  | inr short ↦ rw (short, take_all n (id ∷ ids) (ground arith))
]

pub fan_out_lem :
    (id user : ℕ) (followers : List ℕ) (timelines : Assoc ℕ (List ℕ))
    → or_nil (get (fan_out id followers timelines) user)
      ≡ deliver (count user followers) id (or_nil (get timelines user))
unfolding fan_out
fan_out_lem id user [] timelines = refl
fan_out_lem id user (f ∷ fs) timelines = elim (Bool-cases (f == user)) [
  | inl same ↦
      rw (fan_out_lem id user fs _, get-put timelines f user _, same, prepend-take)
        (ap (λ u. deliver (count user fs) id (take max_timeline (id ∷ or_nil (get timelines u))))
          ((eqb_iff f user).0 same))
  | inr other ↦ rw (fan_out_lem id user fs _, get-put timelines f user _, other)
]

-- A tweet goes to the front of the timeline of each follower of its author, as often as that user
-- follows, and the timeline is cut to 200 entries; every other timeline stays as it was.
pub timeline-post_tweet :
    (s : Store) (author : ℕ) (text : String) (now user : ℕ)
    → let (t, s') = post_tweet s author text now in
      timeline s' user
      ≡ deliver (count user (or_nil (get s.followers author))) t.id (timeline s user)
unfolding post_tweet
timeline-post_tweet s author text now user =
    fan_out_lem (next s.next_id) user (or_nil (get s.followers author)) s.timelines
