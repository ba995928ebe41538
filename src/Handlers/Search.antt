-- ===== src/Handlers/Search.antt =====
-- beatstream/internal/handler/search.go. PostgreSQL's text search is a parameter: the tracks that
-- match a query, in the order of their rank and plays.
use system_design_lab.Prelude.{
  ℕ, String, Bool, Option, none, some, List, [], ◌∷◌, map, take, elem, ◌==◌, text_eq, number_eq,
  if◌then◌else◌,
}
use system_design_lab.Prelude.Texts.{◌<>◌}
use system_design_lab.Redis.{Redis}
use system_design_lab.Database.{Db, Track}
use system_design_lab.Search.{Transport, TrackResult, Outcome, ok, error, search, autocomplete}
use system_design_lab.Handlers.{Reply, reply, problem, track_row, select}
use system_design_lab.Handlers.Tracks.{full_row}
use system_design_lab.Handlers.Recommendations.{SearchResponse, response, minute, cached}

-- `id = ANY($1)`: every text must read as a UUID.
unfoldable pub cast_all : (String → Option ℕ) → List String → Option (List ℕ)
cast_all cast [] = some []
cast_all cast (s ∷ ss) =
    let rest = cast_all cast ss in
    elim (cast s) [ none ↦ none | some id ↦ elim rest [ none ↦ none | some ids ↦ some (id ∷ ids) ] ]

-- Whether the two queries fail, in pgx's Query; the first is the one for the tracks that OpenSearch
-- found. `sent` are the rows that come of those that it selects, without an order in the statement and
-- up to an error of its execution.
pub record Queries : Type 0 where
  pub by_id_fails : Bool
  pub by_text_fails : Bool
  pub sent : List Track → List Track
  pub cast : String → Option ℕ
  pub ranked : String → List Track → List Track

abbrev pub ids_of : {F : Type 0} → Outcome (List (TrackResult F)) → List String
ids_of (ok results) = map (λ r. r.id) results
ids_of (error message) = []

-- The tracks for the ids that OpenSearch found; none to fall through. An id that is no UUID fails after
-- Query has returned, which is not looked at: no row comes.
unfoldable pub found_tracks : Queries → List String → Db → Option (List Track)
unfolding cast_all
found_tracks queries [] db = none
found_tracks queries (id ∷ ids) db =
    if queries.by_id_fails then none else elim (cast_all queries.cast (id ∷ ids)) [
      | none ↦ some []
      | some keys ↦ some (queries.sent (select (λ t. elem t.id keys) db.tracks))
    ]

-- The rows of the text search have no status.
unfoldable pub by_text : Queries → String → Db → Reply SearchResponse
by_text queries q db =
    if queries.by_text_fails
    then problem 500 "search failed"
    else reply 200 (response (map (track_row "") (take 20 (queries.ranked q db.tracks))))

-- `client` is none without OpenSearch.
unfoldable pub hits : {F : Type 0} → Option (Transport F × String) → String → List String
hits none q = []
hits (some (transport, endpoint)) q = ids_of (search transport endpoint q 20)

unfoldable pub fresh_search :
    {F : Type 0} → Option (Transport F × String) → Queries → String → Db → Reply SearchResponse
unfolding hits found_tracks by_text
fresh_search client queries q db = elim (found_tracks queries (hits client q) db) [
  | some ts ↦ reply 200 (response (map full_row ts))
  | none ↦ by_text queries q db
]

unfoldable pub search_tracks :
    {F : Type 0} (R : Redis SearchResponse)
    → Bool
    → Option (Transport F × String)
    → Queries
    → String
    → Db
    → R.State
    → Reply SearchResponse × R.State
unfolding fresh_search
search_tracks R down client queries q db s =
    if q == ""
    then (problem 400 "q parameter is required", s)
    else cached R down ("search:" <> q) minute (fresh_search client queries q db) s

abbrev suggestions : Outcome (List String) → Reply (List String)
suggestions (ok texts) = reply 200 texts
suggestions (error message) = problem 500 "autocomplete failed"

unfoldable pub autocomplete_titles :
    {F : Type 0} → Option (Transport F × String) → String → Reply (List String)
autocomplete_titles client q =
    if q == "" then problem 400 "q parameter is required" else elim client [
      | none ↦ problem 503 "autocomplete requires OpenSearch"
      | some (transport, endpoint) ↦ suggestions (autocomplete transport endpoint q 5)
    ]
