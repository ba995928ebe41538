-- ===== src/Timeline.antt =====
-- The in-memory store of interview-prep/twitter-timeline/main.go, with fan-out on write. An int64
-- is its bit pattern, so the counter of tweets wraps at 2 ^ 64. The lock makes each method one step.
pub mod Delivery
pub mod Invariant
pub mod Reading
pub mod Demo
mod Tests
use system_design_lab.Prelude.{
  ℕ, zero, suc, ◌+◌, ◌%◌, ◌^◌, String, Option, none, some, List, [], ◌∷◌, ◌++◌, length, take, ltb,
  number_eq, if◌then◌else◌,
}
use system_design_lab.Prelude.Int.{ℤ, pos, negsuc}
use system_design_lab.Prelude.Assoc.{Assoc, get, put}

pub record Tweet : Type 0 where
  pub id : ℕ
  pub author_id : ℕ
  pub text : String
  pub created_at : ℕ

pub record Store : Type 0 where
  pub tweets : Assoc ℕ Tweet
  pub followers : Assoc ℕ (List ℕ)
  pub timelines : Assoc ℕ (List ℕ)
  pub next_id : ℕ

unfoldable pub new_store : Store
new_store = record { tweets = []; followers = []; timelines = []; next_id = 0 }

-- A missing key of a map to slices reads as the empty slice.
abbrev pub or_nil {ℓ} : {A : Type ℓ} → Option (List A) → List A
or_nil none = []
or_nil (some xs) = xs

unfoldable pub follow : Store → ℕ → ℕ → Store
follow s follower followee = record s {
  followers = put s.followers followee (or_nil (get s.followers followee) ++ follower ∷ []);
}

unfoldable pub prepend : List ℕ → ℕ → ℕ → List ℕ
prepend ids id max_len =
    let longer = id ∷ ids in if ltb max_len (length longer) then take max_len longer else longer

abbrev pub max_timeline : ℕ
max_timeline = 200

-- The loop over the followers.
unfoldable pub fan_out : ℕ → List ℕ → Assoc ℕ (List ℕ) → Assoc ℕ (List ℕ)
fan_out id [] timelines = timelines
fan_out id (follower ∷ rest) timelines =
    fan_out id rest
      (put timelines follower (prepend (or_nil (get timelines follower)) id max_timeline))

-- `s.nextID++`
abbrev pub next : ℕ → ℕ
next id = (id + 1) % 2 ^ 64

-- The clock's reading is an argument.
unfoldable pub post_tweet : Store → ℕ → String → ℕ → Tweet × Store
post_tweet s author text now =
    let id = next s.next_id in
    let t : Tweet = record { id = id; author_id = author; text = text; created_at = now } in
    (
      t,
      record s {
        next_id = id;
        tweets = put s.tweets id t;
        timelines = fan_out id (or_nil (get s.followers author)) s.timelines;
      },
    )

-- The loop that looks the tweets up; an unknown id is left out.
unfoldable pub collect : Assoc ℕ Tweet → List ℕ → List Tweet
collect tweets [] = []
collect tweets (id ∷ ids) =
    let rest = collect tweets ids in elim (get tweets id) [ none ↦ rest | some t ↦ t ∷ rest ]

-- `none` is the panic of `ids[:limit]` at a negative limit.
unfoldable pub get_timeline : Store → ℕ → ℤ → Option (List Tweet)
unfolding collect
get_timeline s user (negsuc n) = none
get_timeline s user (pos limit) =
    let ids = or_nil (get s.timelines user) in
    some (collect s.tweets (if ltb limit (length ids) then take limit ids else ids))

-- The ids of a user's timeline.
abbrev pub timeline : Store → ℕ → List ℕ
timeline s user = or_nil (get s.timelines user)
