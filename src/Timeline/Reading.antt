-- ===== src/Timeline/Reading.antt =====
-- What a reader sees: `GetTimeline` after `PostTweet`.
use system_design_lab.Prelude.{
  ℕ, zero, suc, ◌<◌, ◌≡◌, refl, ap, ◌∙◌, String, some, List, [], ◌∷◌, length, take, take_all, ltb,
  number_eq, map, if◌then◌else◌, arith, Bool-cases, inl, inr, All, All-take, ==-refl,
}
use system_design_lab.Prelude.Int.{pos}
use system_design_lab.Prelude.Assoc.{Assoc, get, get-put}
use system_design_lab.Timeline.{
  Store, Tweet, or_nil, next, post_tweet, timeline, collect, get_timeline,
}
use system_design_lab.Timeline.Delivery.{count, deliver, timeline-post_tweet}
use system_design_lab.Timeline.Invariant.{Known, IsStore}

collect_ids :
    (tweets : Assoc ℕ Tweet) (ids : List ℕ)
    → All (Known tweets) ids
    → map (λ t. t.id) (collect tweets ids) ≡ ids
unfolding collect
collect_ids tweets [] k = refl
collect_ids tweets (id ∷ ids) k = ground (arith, collect_ids tweets ids k.1)

cut :
    (limit : ℕ) (ids : List ℕ)
    → (if ltb limit (length ids) then take limit ids else ids) ≡ take limit ids
cut limit ids = elim (Bool-cases (ltb limit (length ids))) [
  | inl more ↦ rw more
  | inr fits ↦ rw (fits, take_all limit ids (ground arith))
]

-- `GetTimeline` at a limit that is not negative returns the first `limit` tweets of the timeline,
-- in its order, and leaves none out.
pub get_timeline_ids :
    (s : Store) (user limit : ℕ)
    → IsStore s
    → (ts : List Tweet) × (get_timeline s user (pos limit) ≡ some ts)
      × (map (λ t. t.id) ts ≡ take limit (timeline s user))
unfolding get_timeline
get_timeline_ids s user limit v = (
  collect s.tweets (take limit (timeline s user)),
  ap (λ ids. some (collect s.tweets ids)) (cut limit (timeline s user)),
  collect_ids s.tweets (take limit (timeline s user))
      (All-take (Known s.tweets) limit (timeline s user) (v.known user)),
)

deliver_head : (n id : ℕ) (ids : List ℕ) → (rest : List ℕ) × (deliver n id (id ∷ ids) ≡ id ∷ rest)
deliver_head zero id ids = (ids, refl)
deliver_head (suc n) id ids = deliver_head n id _

first_of_take :
    (limit id : ℕ) (ids : List ℕ)
    → 0 < limit
    → (rest : List ℕ) × (take limit (id ∷ ids) ≡ id ∷ rest)
first_of_take zero id ids h = absurd (omega arith)
first_of_take (suc n) id ids h = (take n ids, refl)

collect_head :
    (tweets : Assoc ℕ Tweet) (t : Tweet) (id : ℕ) (ids : List ℕ)
    → get tweets id ≡ some t
    → collect tweets (id ∷ ids) ≡ t ∷ collect tweets ids
unfolding collect
collect_head tweets t id ids e = rw (e, collect)

delivered :
    (s : Store) (author : ℕ) (text : String) (now user n : ℕ)
    → count user (or_nil (get s.followers author)) ≡ suc n
    → (rest : List ℕ) × (timeline (post_tweet s author text now).1 user
        ≡ (post_tweet s author text now).0.id ∷ rest)
delivered s author text now user n e =
    let (rest, f) =
      deliver_head n (post_tweet s author text now).0.id (take 199 (timeline s user)) in
    (rest, timeline-post_tweet s author text now user ∙ rw e f)

stored_tweet :
    (s : Store) (author : ℕ) (text : String) (now : ℕ)
    → let (t, s') = post_tweet s author text now in get s'.tweets t.id ≡ some t
unfolding post_tweet
stored_tweet s author text now =
    get-put s.tweets (next s.next_id) (next s.next_id) _ ∙ rw (==-refl (next s.next_id)) refl

-- A user who follows the author, and reads at least one tweet right after the author has posted,
-- finds the new tweet first.
pub get_timeline-post_tweet :
    (s : Store) (author : ℕ) (text : String) (now user limit n : ℕ)
    → count user (or_nil (get s.followers author)) ≡ suc n
    → 0 < limit
    → (rest : List Tweet) × (get_timeline (post_tweet s author text now).1 user (pos limit)
        ≡ some ((post_tweet s author text now).0 ∷ rest))
unfolding get_timeline
get_timeline-post_tweet s author text now user limit n e h =
    let (t, s') = post_tweet s author text now in
    let (ids, f) = delivered s author text now user n e in
    let (cut_ids, g) = first_of_take limit t.id ids h in
    (
      collect s'.tweets cut_ids,
      ap (λ x. some (collect s'.tweets x)) (cut limit (timeline s' user) ∙ ap (take limit) f ∙ g)
          ∙ ap some (collect_head s'.tweets t t.id cut_ids (stored_tweet s author text now)),
    )
