-- ===== src/Handlers/Favorites.antt =====
-- beatstream/internal/handler/favorites.go.
use system_design_lab.Prelude.{
  ℕ, String, Bool, Option, none, some, List, [], ◌∷◌, map, take, eqb, ltb, if◌then◌else◌, ◌&&◌, not,
}
use system_design_lab.Gin.{Ctx, get_key, as_string, param}
use system_design_lab.Database.{Db, Track, Favorite, has_track}
use system_design_lab.Handlers.{
  Env, Reply, reply, problem, no_content, required, TrackRow, track_row, order_by, select, any,
  join_tracks,
}

-- The user of the request, cast in the statement.
abbrev pub user_of : Env → Ctx → Option ℕ
user_of env c = env.cast (as_string (get_key c "user_id"))

abbrev pub is_favorite : ℕ → ℕ → Favorite → Bool
is_favorite user track f = eqb f.user_id user && eqb f.track_id track

-- `INSERT ... ON CONFLICT DO NOTHING`: the row refers to a user and to a track.
unfoldable pub insert_favorite : Env → ℕ → ℕ → Db → Reply Unit × Db
insert_favorite env user track db =
    if any (is_favorite user track) db.favorites
    then (no_content, db)
    else if any (λ u. eqb u.id user) db.users && has_track track db.tracks
    then (
      no_content,
      record db {
        favorites =
            record { user_id = user; track_id = track; created_at = env.now } ∷ db.favorites;
      },
    )
    else (problem 500 "failed to add favorite", db)

unfoldable pub add : Env → Ctx → Option String → Db → Reply Unit × Db
unfolding insert_favorite
add env c body db = elim (required body) [
  | none ↦ (problem 400 "track_id is required", db)
  | some text ↦
      if env.fails then (problem 500 "failed to add favorite", db) else elim (user_of env c) [
        | none ↦ (problem 500 "failed to add favorite", db)
        | some user ↦ elim (env.cast text) [
          | none ↦ (problem 500 "failed to add favorite", db)
          | some track ↦ insert_favorite env user track db
        ]
      ]
]

unfoldable pub remove : Env → Ctx → Db → Reply Unit × Db
remove env c db =
    if env.fails then (problem 500 "failed to remove favorite", db) else elim (user_of env c) [
      | none ↦ (problem 500 "failed to remove favorite", db)
      | some user ↦ elim (env.cast (param c "track_id")) [
        | none ↦ (problem 500 "failed to remove favorite", db)
        | some track ↦ (
          no_content,
          record db { favorites = select (λ f. not (is_favorite user track f)) db.favorites },
        )
      ]
    ]

abbrev later : Favorite → Favorite → Bool
later f g = ltb g.created_at f.created_at

abbrev with_status : Track → TrackRow
with_status t = track_row t.status t

-- An id that is no UUID fails after Query has returned, which is not looked at: no row comes.
unfoldable pub list : Env → Ctx → Db → Reply (List TrackRow)
list env c db = if env.fails then problem 500 "failed to list favorites" else elim (user_of env c) [
  | none ↦ reply 200 []
  | some user ↦
      let own = order_by later (select (λ f. eqb f.user_id user) db.favorites) in
      reply 200 (map with_status (take 200 (join_tracks (λ f. f.track_id) db.tracks own)))
]

-- The method IDs.
unfoldable pub ids : Env → Ctx → Db → Reply (List ℕ)
ids env c db = if env.fails then problem 500 "failed to get favorites" else elim (user_of env c) [
  | none ↦ reply 200 []
  | some user ↦ reply 200 (map (λ f. f.track_id) (select (λ f. eqb f.user_id user) db.favorites))
]
