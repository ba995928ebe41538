-- ===== src/Timeline/Invariant.antt =====
-- What holds of the store between two calls, as long as the tweet counter has not wrapped.
use system_design_lab.Prelude.{
  ℕ, zero, suc, ◌+◌, ◌^◌, ◌≤◌, ◌<◌, ◌≡◌, String, none, some, List, [], ◌∷◌, length, take, number_eq,
  arith, length-take, All, All-take, All-weaken,
}
use system_design_lab.Prelude.Assoc.{Assoc, get, put, get-put}
use system_design_lab.Timeline.{
  Store, Tweet, or_nil, max_timeline, new_store, follow, post_tweet, timeline,
}
use system_design_lab.Timeline.Delivery.{count, deliver, timeline-post_tweet}

-- The id has a tweet, which carries it.
abbrev pub Known : Assoc ℕ Tweet → ℕ → Type 0
Known tweets id = elim (get tweets id) [ none ↦ ⊥ | some t ↦ t.id ≡ id ]

-- Newest first.
abbrev pub IsDescending : List ℕ → Type 0
IsDescending [] = Unit {0}
IsDescending (x ∷ xs) = All (λ y. y ≤ x) xs × IsDescending xs

pub record IsStore (s : Store) : Type 0 where
  pub capped : (user : ℕ) → length (timeline s user) ≤ max_timeline
  pub known : (user : ℕ) → All (Known s.tweets) (timeline s user)
  pub descending : (user : ℕ) → IsDescending (timeline s user)
  pub bounded : (user : ℕ) → All (λ id. id ≤ s.next_id) (timeline s user)

IsDescending-take : (n : ℕ) (xs : List ℕ) → IsDescending xs → IsDescending (take n xs)
IsDescending-take zero xs d = tt
IsDescending-take (suc n) [] d = tt
IsDescending-take (suc n) (x ∷ xs) d = (All-take (λ y. y ≤ x) n xs d.0, IsDescending-take n xs d.1)

All-deliver :
    (P : ℕ → Type 0) (n id : ℕ) (ids : List ℕ) → P id → All P ids → All P (deliver n id ids)
All-deliver P zero id ids p a = a
All-deliver P (suc n) id ids p a =
    All-deliver P n id (take max_timeline (id ∷ ids)) p (All-take P max_timeline (id ∷ ids) (p, a))

deliver-IsDescending :
    (n id : ℕ) (ids : List ℕ)
    → All (λ y. y ≤ id) ids
    → IsDescending ids
    → IsDescending (deliver n id ids)
deliver-IsDescending zero id ids a d = d
deliver-IsDescending (suc n) id ids a d =
    deliver-IsDescending n id (take max_timeline (id ∷ ids))
      (All-take (λ y. y ≤ id) max_timeline (id ∷ ids) (omega arith, a))
      (IsDescending-take max_timeline (id ∷ ids) (a, d))

length-deliver :
    (n id : ℕ) (ids : List ℕ) → length ids ≤ max_timeline → length (deliver n id ids) ≤ max_timeline
length-deliver zero id ids h = h
length-deliver (suc n) id ids h =
    length-deliver n id (take max_timeline (id ∷ ids))
      (omega (arith, length-take max_timeline (id ∷ ids)))

new_store-IsStore : IsStore new_store
unfolding new_store get
new_store-IsStore = record {
  capped = λ u. omega arith;
  known = λ u. tt;
  descending = λ u. tt;
  bounded = λ u. tt;
}

follow-IsStore :
    (s : Store) (follower followee : ℕ) → IsStore s → IsStore (follow s follower followee)
unfolding follow
follow-IsStore s follower followee v = record {
  capped = v.capped;
  known = v.known;
  descending = v.descending;
  bounded = v.bounded;
}

Known-put :
    (tweets : Assoc ℕ Tweet) (t : Tweet) (id : ℕ) → Known tweets id → Known (put tweets t.id t) id
Known-put tweets t id k = ground (arith, get-put tweets t.id id t)

Known-put_self : (tweets : Assoc ℕ Tweet) (t : Tweet) → Known (put tweets t.id t) t.id
Known-put_self tweets t = ground (arith, get-put tweets t.id t.id t)

-- The counter has room for one more tweet.
abbrev pub HasRoom : ℕ → Store → Type 0
HasRoom n s = s.next_id + n < 2 ^ 64

pub next_id-post_tweet :
    (s : Store) (author : ℕ) (text : String) (now : ℕ)
    → HasRoom 1 s
    → ((post_tweet s author text now).1.next_id ≡ s.next_id + 1)
      × ((post_tweet s author text now).0.id ≡ s.next_id + 1)
unfolding post_tweet
next_id-post_tweet s author text now h = (omega arith, omega arith)

pub post_tweet-IsStore :
    (s : Store) (author : ℕ) (text : String) (now : ℕ)
    → HasRoom 1 s
    → IsStore s
    → IsStore (post_tweet s author text now).1
post_tweet-IsStore s author text now h v =
    let t = (post_tweet s author text now).0 in
    let n = λ (user : ℕ). count user (or_nil (get s.followers author)) in
    let (e, f) = next_id-post_tweet s author text now h in
    record {
      capped = λ u.
          rw (timeline-post_tweet s author text now u)
            (length-deliver (n u) t.id (timeline s u) (v.capped u));
      known = λ u. rw (timeline-post_tweet s author text now u) (
          unfold post_tweet in
          All-deliver (Known (put s.tweets t.id t)) (n u) t.id (timeline s u)
            (Known-put_self s.tweets t)
            (All-weaken (Known s.tweets) (Known (put s.tweets t.id t)) (Known-put s.tweets t)
              (timeline s u) (v.known u)));
      descending = λ u. rw (timeline-post_tweet s author text now u) (
          deliver-IsDescending (n u) t.id (timeline s u)
            (All-weaken (λ id. id ≤ s.next_id) (λ id. id ≤ t.id) (λ id b. omega arith)
              (timeline s u) (v.bounded u))
            (v.descending u));
      bounded = λ u. rw (timeline-post_tweet s author text now u) (
          All-deliver (λ id. id ≤ (post_tweet s author text now).1.next_id) (n u) t.id
            (timeline s u) (omega arith)
            (All-weaken (λ id. id ≤ s.next_id) (λ id. id ≤ (post_tweet s author text now).1.next_id)
              (λ id b. omega arith) (timeline s u) (v.bounded u)));
    }

pub data Call : Type 0 where
  follows : ℕ → ℕ → Call
  posts : ℕ → String → ℕ → Call

unfoldable pub run : Store → List Call → Store
run s [] = s
run s (follows follower followee ∷ cs) = run (follow s follower followee) cs
run s (posts author text now ∷ cs) = run (post_tweet s author text now).1 cs

run-IsStore : (s : Store) (cs : List Call) → HasRoom (length cs) s → IsStore s → IsStore (run s cs)
unfolding run
run-IsStore s [] h v = v
run-IsStore s (follows a b ∷ cs) h v =
    run-IsStore (follow s a b) cs (unfold follow in omega arith) (follow-IsStore s a b v)
run-IsStore s (posts author text now ∷ cs) h v =
    run-IsStore (post_tweet s author text now).1 cs
      (omega (arith, next_id-post_tweet s author text now (omega arith)))
      (post_tweet-IsStore s author text now (omega arith) v)

-- After any fewer than 2 ^ 64 calls on a new store, every timeline has at most 200 ids, newest
-- first, each the id of a stored tweet and none above the counter.
pub run-new_store-IsStore : (cs : List Call) → length cs < 2 ^ 64 → IsStore (run new_store cs)
run-new_store-IsStore cs h =
    run-IsStore new_store cs (unfold new_store in omega arith) new_store-IsStore
