-- ===== src/Timeline/Tests.antt =====
-- The theorems on the timeline store at concrete inputs: the demo of `main`, where users 2, 3 and 4
-- follow user 1.
use system_design_lab.Prelude.{some, ◌≡◌, refl, List, [], ◌∷◌, number_eq}
use system_design_lab.Prelude.Assoc.{get, put}
use system_design_lab.Prelude.Texts.{itoa}
use system_design_lab.Timeline.Demo.{main}
use system_design_lab.Timeline.{
  Store, or_nil, new_store, follow, post_tweet, timeline, fan_out, prepend,
}
use system_design_lab.Timeline.Delivery.{count, deliver, timeline-post_tweet}
use system_design_lab.Timeline.Invariant.{follows, posts, Call, run}

abbrev demo_calls : List Call
demo_calls =
    follows 2 1
    ∷ follows 3 1
    ∷ follows 4 1
    ∷ follows 2 3
    ∷ posts 1 "Hello from user 1!" 100
    ∷ posts 3 "Hello from user 3!" 101
    ∷ []

demo : Store
unfolding run
demo = run new_store demo_calls

timeline-demo : timeline demo 2 ≡ 2 ∷ 1 ∷ []
unfolding demo run new_store follow post_tweet fan_out prepend get put
timeline-demo = refl

timeline-post_tweet_example :
    let (t, s') = post_tweet demo 1 "Second tweet from user 1" 102 in
    timeline s' 2 ≡ deliver (count 2 (or_nil (get demo.followers 1))) t.id (timeline demo 2)
timeline-post_tweet_example = timeline-post_tweet demo 1 "Second tweet from user 1" 102 2

-- The lines of the program.
demo_lines :
    main (λ i. i)
    ≡ some (
        "=== Fan-out-on-write timeline demo ===\n"
        ∷ "Tweet 1 posted by user 1: \"Hello from user 1!\""
        ∷ "Tweet 2 posted by user 3: \"Hello from user 3!\"" ∷ "" ∷ "User 2 timeline (3 tweets):"
        ∷ "  [3] @user1: Second tweet from user 1" ∷ "  [2] @user3: Hello from user 3!"
        ∷ "  [1] @user1: Hello from user 1!" ∷ "" ∷ "User 3 timeline (2 tweets):"
        ∷ "  [3] @user1: Second tweet from user 1" ∷ "  [1] @user1: Hello from user 1!" ∷ ""
        ∷ "User 4 timeline (2 tweets):" ∷ "  [3] @user1: Second tweet from user 1"
        ∷ "  [1] @user1: Hello from user 1!" ∷ "" ∷ "Key trade-off:"
        ∷ "  Fan-out-on-WRITE: fast reads, slow writes for celebrities"
        ∷ "  Fan-out-on-READ:  slow reads (merge N feeds), fast writes"
        ∷ "  Twitter hybrid:   fan-out-on-write for normal users,"
        ∷ "                    fan-out-on-read for celebrities (>~10K followers)" ∷ [])
unfolding main itoa get fan_out put prepend
demo_lines = refl
