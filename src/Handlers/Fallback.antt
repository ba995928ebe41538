-- ===== src/Handlers/Fallback.antt =====
-- Where the answers of beatstream/internal/handler/search.go come from.
use mathlib.Core.List.{Perm}
use mathlib.Core.Path.{subst}
use system_design_lab.Prelude.{
  ℕ, String, Bool, true, false, Option, none, some, List, [], ◌∷◌, map, take, elem, ◌≡◌, ◌≢◌, refl,
  sym, inl, inr, ◌⊎◌, ◌==◌, text_eq, number_eq, Bool-cases, Option-cases,
}
use system_design_lab.Prelude.Texts.{◌<>◌}
use system_design_lab.Redis.{Redis}
use system_design_lab.Database.{Db, Track}
use system_design_lab.Search.{Transport}
use system_design_lab.Handlers.{Reply, reply, problem, track_row, select}
use system_design_lab.Handlers.Tracks.{full_row}
use system_design_lab.Handlers.Recommendations.{SearchResponse, response, minute}
use system_design_lab.Handlers.Ranking.{cached_fresh}
use system_design_lab.Handlers.Search.{
  Queries, cast_all, found_tracks, by_text, hits, fresh_search, search_tracks,
}

found_tracks-some :
    (queries : Queries) (ids : List String) (db : Db) {ks : List ℕ}
    → ids ≢ []
    → queries.by_id_fails ≡ false
    → cast_all queries.cast ids ≡ some ks
    → found_tracks queries ids db ≡ some (queries.sent (select (λ t. elem t.id ks) db.tracks))
unfolding found_tracks
found_tracks-some queries [] db h up e = absurd (h refl)
found_tracks-some queries (id ∷ ids) db h up e = rw (up, found_tracks, e)

found_tracks_unread :
    (queries : Queries) (ids : List String) (db : Db)
    → ids ≢ []
    → queries.by_id_fails ≡ false
    → cast_all queries.cast ids ≡ none
    → found_tracks queries ids db ≡ some []
unfolding found_tracks
found_tracks_unread queries [] db h up e = absurd (h refl)
found_tracks_unread queries (id ∷ ids) db h up e = rw (up, found_tracks, e)

found_tracks-none :
    (queries : Queries) (ids : List String) (db : Db)
    → (ids ≡ []) ⊎ (queries.by_id_fails ≡ true)
    → found_tracks queries ids db ≡ none
unfolding found_tracks
found_tracks-none queries [] db h = refl
found_tracks-none queries (id ∷ ids) db (inl h) = cc
found_tracks-none queries (id ∷ ids) db (inr down) = rw (down, found_tracks)

module _ {F : Type 0} (client : Option (Transport F × String)) (queries : Queries) (q : String)
    (db : Db) where
  -- Where an answer comes from: the rows of the hits' ids, in some order; no rows, where an id is no
  -- UUID; or PostgreSQL's text search, without hits or where their query is refused.
  pub data Answered : Reply SearchResponse → Type 0 where
    of_index :
        (ks : List ℕ) (shown : List Track)
        → hits client q ≢ []
        → queries.by_id_fails ≡ false
        → cast_all queries.cast (hits client q) ≡ some ks
        → Perm shown (select (λ t. elem t.id ks) db.tracks)
        → Answered (reply 200 (response (map full_row shown)))
    unread :
        hits client q ≢ []
        → queries.by_id_fails ≡ false
        → cast_all queries.cast (hits client q) ≡ none
        → Answered (reply 200 (response []))
    of_text :
        (hits client q ≡ []) ⊎ (queries.by_id_fails ≡ true)
        → queries.by_text_fails ≡ false
        → Answered
            (reply 200 (response (map (track_row "") (take 20 (queries.ranked q db.tracks)))))
    of_nothing :
        (hits client q ≡ []) ⊎ (queries.by_id_fails ≡ true)
        → queries.by_text_fails ≡ true
        → Answered (problem 500 "search failed")

  by_text-Answered :
      (hits client q ≡ []) ⊎ (queries.by_id_fails ≡ true) → Answered (by_text queries q db)
  unfolding by_text
  by_text-Answered why = elim (Bool-cases queries.by_text_fails) [
    | inl down ↦
        let e : by_text queries q db ≡ problem 500 "search failed" = rw (down, by_text) in
        subst Answered (sym e) (of_nothing why down)
    | inr up ↦
        let e : by_text queries q db
            ≡ reply 200 (response (map (track_row "") (take 20 (queries.ranked q db.tracks)))) =
          rw (up, by_text) in
        subst Answered (sym e) (of_text why up)
  ]

  fresh_search_text :
      (hits client q ≡ []) ⊎ (queries.by_id_fails ≡ true)
      → Answered (fresh_search client queries q db)
  unfolding fresh_search
  fresh_search_text why =
      rw (fresh_search, found_tracks-none queries (hits client q) db why) (by_text-Answered why)

  fresh_search_index :
      hits client q ≢ []
      → queries.by_id_fails ≡ false
      → ((ts : List Track) → Perm (queries.sent ts) ts)
      → Answered (fresh_search client queries q db)
  unfolding fresh_search
  fresh_search_index some_hits up sends =
      elim (Option-cases (cast_all queries.cast (hits client q))) [
        | inl bad ↦
            rw (fresh_search, found_tracks_unread queries (hits client q) db some_hits up bad)
              (unread some_hits up bad)
        | inr (ks, e) ↦
            let chosen = select (λ t. elem t.id ks) db.tracks in
            rw (fresh_search, found_tracks-some queries (hits client q) db some_hits up e)
              (of_index ks (queries.sent chosen) some_hits up e (sends chosen))
      ]

  fresh_search-Answered :
      ((ts : List Track) → Perm (queries.sent ts) ts) → Answered (fresh_search client queries q db)
  fresh_search-Answered sends = elim (Bool-cases queries.by_id_fails) [
    | inl down ↦ fresh_search_text (inr down)
    | inr up ↦ go (hits client q) refl up
  ]
    where
      go :
          (ids : List String)
          → hits client q ≡ ids
          → queries.by_id_fails ≡ false
          → Answered (fresh_search client queries q db)
      go [] e up = fresh_search_text (inl e)
      go (id ∷ ids) e up = fresh_search_index (λ none_there. cc (e, none_there)) up sends

  -- A search that is not in the cache is answered with exactly the tracks of the table that OpenSearch
  -- found, in an order of PostgreSQL's own, where it found some and the query for them is accepted, or
  -- with no track at all where one of their ids is no UUID; without hits, without OpenSearch too, or
  -- where that query is refused, with the first 20 tracks of the text search, or 500 where that is
  -- refused as well. The rows of a query that is executed all come, in any order.
  pub search_tracks_cases :
      (R : Redis SearchResponse) (down : Bool) (s : R.State)
      → (q == "") ≡ false
      → ((ts : List Track) → Perm (queries.sent ts) ts)
      → (down ≡ true) ⊎ (R.get s ("search:" <> q) ≡ none)
      → Answered (search_tracks R down client queries q db s).0
  unfolding search_tracks
  search_tracks_cases R down s given sends empty =
      let fresh =
        cached_fresh R down ("search:" <> q) minute (fresh_search client queries q db) s empty in
      rw (given, search_tracks, fresh) (fresh_search-Answered sends)
