-- ===== src/Handlers/Recommendations.antt =====
-- beatstream/internal/handler/recommendations.go, and the cache that it shares with search.go. The
-- cache is the interface Redis at the responses that the handlers store as JSON.
use system_design_lab.Prelude.{
  ℕ, suc, ◌*◌, String, Bool, false, Option, none, some, List, [], ◌∷◌, map, length, take, elem, eqb,
  ◌==◌, text_eq, number_eq, if◌then◌else◌, ◌&&◌, not,
}
use system_design_lab.Prelude.Texts.{◌<>◌}
use system_design_lab.Redis.{Redis, cache_get, cache_set}
use system_design_lab.Gin.{Ctx, Value, nil, str, other, param, get_key}
use system_design_lab.Database.{Db, Track, PlayEvent, find_track}
use system_design_lab.Handlers.{Env, Reply, reply, problem, TrackRow, order_by, select, join_tracks}
use system_design_lab.Handlers.Tracks.{full_row}
use system_design_lab.Handlers.Order.{greater}

pub record SearchResponse : Type 0 where
  pub items : List TrackRow
  pub total : ℕ

abbrev pub response : List TrackRow → SearchResponse
response items = record { items = items; total = length items }

abbrev pub minute : ℕ
minute = 60 * 1000000000

module _ (R : Redis SearchResponse) where
  -- What a handler that found no entry does with its answer: a response is stored, an error is not.
  -- `down` says that the calls of the cache fail.
  unfoldable pub store : Bool → String → ℕ → Reply SearchResponse → R.State → R.State
  store down key ttl (reply status answer) s = cache_set R down key answer ttl s
  store down key ttl _ s = s

  -- The cache first, and else the answer of the database.
  unfoldable pub cached :
      Bool → String → ℕ → Reply SearchResponse → R.State → Reply SearchResponse × R.State
  unfolding store
  cached down key ttl fresh s = elim (cache_get R down key s) [
    | some answer ↦ (reply 200 answer, s)
    | none ↦ (fresh, store down key ttl fresh s)
  ]

-- `WHERE status = 'ready'`
abbrev pub is_ready : Track → Bool
is_ready t = t.status == "ready"

abbrev pub plays : Track → ℕ
plays t = t.play_count

-- `ORDER BY play_count DESC LIMIT n`
abbrev pub most_played : ℕ → List Track → List Track
most_played n ts = take n (order_by (greater plays) ts)

unfoldable pub fresh_top : Env → Db → Reply SearchResponse
fresh_top env db =
    if env.fails
    then problem 500 "failed to fetch top tracks"
    else reply 200 (response (map full_row (most_played 20 (select is_ready db.tracks))))

-- The plays of a user.
abbrev pub is_listener : ℕ → PlayEvent → Bool
is_listener user e = elim e.user_id [ none ↦ false | some u ↦ eqb u user ]

add_artist : ℕ → List (ℕ × ℕ) → List (ℕ × ℕ)
add_artist artist [] = (artist, 1) ∷ []
add_artist artist ((a, n) ∷ rest) =
    let later = add_artist artist rest in if eqb a artist then (a, suc n) ∷ rest else (a, n) ∷ later

-- `GROUP BY t.artist_id` with `COUNT(*)`
unfoldable pub count_artists : List Track → List (ℕ × ℕ)
unfolding add_artist
count_artists [] = []
count_artists (t ∷ ts) = add_artist t.artist_id (count_artists ts)

-- `user_top_artists`
unfoldable pub top_artists : ℕ → Db → List ℕ
unfolding count_artists
top_artists user db =
    map (λ (p : ℕ × ℕ). p.0)
      (take 5 (
        order_by (greater (λ (p : ℕ × ℕ). p.1)) (
          count_artists
            (join_tracks (λ e. e.track_id) db.tracks (select (is_listener user) db.play_events)))))

-- The tracks of the artists that the user has not played and that are ready.
abbrev pub is_suggested : ℕ → Db → Track → Bool
is_suggested user db t =
    elem t.artist_id (top_artists user db)
    && (not (elem t.id (map (λ e. e.track_id) (select (is_listener user) db.play_events)))
        && is_ready t)

-- An id that is no UUID fails after Query has returned, which is not looked at: no row comes.
unfoldable pub fresh_for_you : Env → String → Db → Reply SearchResponse
unfolding top_artists
fresh_for_you env uid db =
    if env.fails then problem 500 "failed to fetch recommendations" else elim (env.cast uid) [
      | none ↦ reply 200 (response [])
      | some user ↦
          reply 200
            (response (map full_row (most_played 20 (select (is_suggested user db) db.tracks))))
    ]

-- A track by the same artist other than the given one; without the given one there is none.
abbrev pub is_similar : ℕ → Option Track → Track → Bool
is_similar id none t = false
is_similar id (some given) t = eqb t.artist_id given.artist_id && (not (eqb t.id id) && is_ready t)

unfoldable pub fresh_similar : Env → String → Db → Reply SearchResponse
fresh_similar env text db =
    if env.fails then problem 500 "failed to fetch similar tracks" else elim (env.cast text) [
      | none ↦ reply 200 (response [])
      | some id ↦ reply 200 (
          response (
            map full_row
              (most_played 10 (select (is_similar id (find_track id db.tracks)) db.tracks))))
    ]

-- The user id in the context, which must be a text that is not empty.
abbrev pub uid_of : Value → Option String
uid_of nil = none
uid_of (str s) = if s == "" then none else some s
uid_of other = none

module _ (R : Redis SearchResponse) (down : Bool) where
  unfoldable pub top_tracks : Env → Db → R.State → Reply SearchResponse × R.State
  unfolding cached fresh_top
  top_tracks env db s = cached R down "recs:top" (5 * minute) (fresh_top env db) s

  unfoldable pub for_you : Env → Ctx → Db → R.State → Reply SearchResponse × R.State
  unfolding cached fresh_for_you
  for_you env c db s = elim (uid_of (get_key c "user_id")) [
    | none ↦ (problem 401 "authentication required", s)
    | some uid ↦ cached R down ("recs:foryou:" <> uid) (10 * minute) (fresh_for_you env uid db) s
  ]

  unfoldable pub similar : Env → Ctx → Db → R.State → Reply SearchResponse × R.State
  unfolding cached fresh_similar
  similar env c db s =
      if not (env.parses (param c "id"))
      then (problem 400 "invalid track id", s)
      else cached R down ("recs:similar:" <> param c "id") (60 * minute)
          (fresh_similar env (param c "id") db) s
