-- ===== src/Handlers/Artists.antt =====
-- beatstream/internal/handler/artists.go.
use system_design_lab.Prelude.{
  ℕ, String, Bool, Option, none, some, List, [], ◌∷◌, take, eqb, text_eq, if◌then◌else◌, ◌||◌,
}
use system_design_lab.Gin.{Ctx, param}
use system_design_lab.Database.{Db, Artist}
use system_design_lab.Handlers.{Env, Reply, reply, problem, required, order_by, any}

unfoldable pub create : Env → Option String → Db → Reply Artist × Db
create env body db = elim (required body) [
  | none ↦ (problem 400 "name is required", db)
  | some name ↦
      if env.fails || any (λ a. eqb a.id env.new_id) db.artists
      then (problem 500 "failed to create artist", db)
      else let a : Artist = record { id = env.new_id; name = name; created_at = env.now } in
        (reply 201 a, record db { artists = a ∷ db.artists })
]

-- `ORDER BY name ASC`, in the order of the database's collation.
unfoldable pub list : (String → String → Bool) → Env → Db → Reply (List Artist)
list before env db =
    if env.fails
    then problem 500 "failed to list artists"
    else reply 200 (take 100 (order_by (λ a b. before a.name b.name) db.artists))

unfoldable pub find_artist : ℕ → List Artist → Option Artist
find_artist id [] = none
find_artist id (a ∷ as') = let rest = find_artist id as' in if eqb a.id id then some a else rest

abbrev found : Option Artist → Reply Artist
found none = problem 404 "artist not found"
found (some a) = reply 200 a

-- An error of the query, a bad id and a missing row are all 404.
unfoldable pub get : Env → Ctx → Db → Reply Artist
unfolding find_artist
get env c db =
    if env.fails then problem 404 "artist not found" else elim (env.cast (param c "id")) [
      | none ↦ problem 404 "artist not found"
      | some id ↦ found (find_artist id db.artists)
    ]
