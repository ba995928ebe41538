-- ===== src/Timeline/Demo.antt =====
-- `main` of interview-prep/twitter-timeline/main.go, as the lines that it prints. `now` is the clock
-- at each of the three tweets. None of the texts has a character that the verb %q escapes.
use system_design_lab.Prelude.{ℕ, String, Option, none, some, List, [], ◌∷◌, ◌++◌, map, length}
use system_design_lab.Prelude.Int.{pos}
use system_design_lab.Prelude.Texts.{◌<>◌, itoa}
use system_design_lab.Timeline.{Tweet, Store, new_store, follow, post_tweet, get_timeline}

abbrev posted_line : Tweet → String
posted_line t =
    "Tweet "
    <> (itoa t.id <> (" posted by user " <> (itoa t.author_id <> (": \"" <> (t.text <> "\"")))))

abbrev tweet_line : Tweet → String
tweet_line t = "  [" <> (itoa t.id <> ("] @user" <> (itoa t.author_id <> (": " <> t.text))))

abbrev timeline_lines : ℕ → List Tweet → List String
timeline_lines user ts =
    ("User " <> (itoa user <> (" timeline (" <> (itoa (length ts) <> " tweets):"))))
    ∷ (map tweet_line ts ++ ("" ∷ []))

-- The loop over the users; none is a panic of `GetTimeline`.
unfoldable pub show_timelines : Store → List ℕ → Option (List String)
unfolding get_timeline
show_timelines s [] = some []
show_timelines s (user ∷ users) =
    let rest = show_timelines s users in
    elim (get_timeline s user (pos 10)) [
      | none ↦ none
      | some ts ↦ elim rest [ none ↦ none | some lines ↦ some (timeline_lines user ts ++ lines) ]
    ]

abbrev trade_off : List String
trade_off =
    "Key trade-off:" ∷ "  Fan-out-on-WRITE: fast reads, slow writes for celebrities"
    ∷ "  Fan-out-on-READ:  slow reads (merge N feeds), fast writes"
    ∷ "  Twitter hybrid:   fan-out-on-write for normal users,"
    ∷ "                    fan-out-on-read for celebrities (>~10K followers)" ∷ []

unfoldable pub main : (ℕ → ℕ) → Option (List String)
unfolding new_store follow post_tweet show_timelines
main now =
    let s1 = follow (follow (follow (follow new_store 2 1) 3 1) 4 1) 2 3 in
    let (t1, s2) = post_tweet s1 1 "Hello from user 1!" (now 0) in
    let (t2, s3) = post_tweet s2 3 "Hello from user 3!" (now 1) in
    let (t3, s4) = post_tweet s3 1 "Second tweet from user 1" (now 2) in
    elim (show_timelines s4 (2 ∷ 3 ∷ 4 ∷ [])) [
      | none ↦ none
      | some lines ↦ some (
          "=== Fan-out-on-write timeline demo ===\n"
          ∷ posted_line t1
          ∷ posted_line t2
          ∷ ""
          ∷ (lines ++ trade_off))
    ]
