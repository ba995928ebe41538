-- ===== src/Handlers/Marks.antt =====
-- What a user's favorites are after the handlers of beatstream/internal/handler/favorites.go.
use system_design_lab.Prelude.{
  ℕ, String, true, false, not, some, List, [], ◌∷◌, map, elem, ◌≡◌, inl, inr, refl, ap, ◌∙◌, sym,
  number_eq, eqb, eqb_iff, ◌&&◌, arith, Bool-cases, Option-cases,
}
use system_design_lab.Gin.{Ctx, param}
use system_design_lab.Database.{Db, Favorite, has_track}
use system_design_lab.Handlers.{Env, reply, no_content, required, select, any}
use system_design_lab.Handlers.Favorites.{user_of, is_favorite, insert_favorite, add, remove, ids}

-- The tracks that IDs sends for a user.
abbrev pub tracks_of : ℕ → List Favorite → List ℕ
tracks_of user fs = map (λ f. f.track_id) (select (λ f. eqb f.user_id user) fs)

elem-tracks_of :
    (user track : ℕ) (fs : List Favorite)
    → elem track (tracks_of user fs) ≡ any (is_favorite user track) fs
unfolding elem select any
elem-tracks_of user track [] = refl
elem-tracks_of user track (f ∷ fs) = ground (arith, elem-tracks_of user track fs)

any-select-not :
    (user track : ℕ) (fs : List Favorite)
    → any (is_favorite user track) (select (λ f. not (is_favorite user track f)) fs) ≡ false
unfolding select any
any-select-not user track [] = refl
any-select-not user track (f ∷ fs) = ground (arith, any-select-not user track fs)

-- What a request to add or to remove a track names.
pub record Names (env : Env) (c : Ctx) (text : String) (user track : ℕ) : Type 0 where
  pub who : user_of env c ≡ some user
  pub what : env.cast text ≡ some track

insert_favorite_lem :
    (env : Env) (user track : ℕ) (db : Db)
    → (insert_favorite env user track db).0 ≡ no_content
    → any (is_favorite user track) (insert_favorite env user track db).1.favorites ≡ true
unfolding insert_favorite any
insert_favorite_lem env user track db h =
    elim (Bool-cases (any (is_favorite user track) db.favorites)) [
      | inl there ↦ rw (there, insert_favorite) there
      | inr absent ↦
          elim (Bool-cases (any (λ u. eqb u.id user) db.users && has_track track db.tracks)) [
            | inl known ↦
                rw (absent, insert_favorite, known)
                  (ground (arith, eqb_iff user user, eqb_iff track track))
            | inr unknown ↦ absurd (ground (arith, h, absent, unknown))
          ]
    ]

-- A request that lists the user's tracks gets the rows that are in the table.
ids_lem :
    (env : Env) (c : Ctx) (db : Db) {user : ℕ}
    → env.fails ≡ false
    → user_of env c ≡ some user
    → ids env c db ≡ reply 200 (tracks_of user db.favorites)
unfolding ids
ids_lem env c db up who = rw (up, ids, who)

add_lem :
    (env : Env) (c : Ctx) (text : String) (db : Db) {user track : ℕ}
    → Names env c text user track
    → (add env c (some text) db).0 ≡ no_content
    → add env c (some text) db ≡ insert_favorite env user track db
unfolding add
add_lem env c text db n h = elim (Option-cases (required (some text))) [
  | inl missing ↦ absurd (ground (arith, h, missing))
  | inr (given_text, given) ↦ elim (Bool-cases env.fails) [
    | inl down ↦ absurd (ground (arith, h, given, down))
    | inr up ↦
        let same : given_text ≡ text = ground (arith, given) in
        rw (given, add, up, n.who, same, n.what)
  ]
]

-- Once adding a track has succeeded, the user's list of ids has that track, for every request that
-- reads it before another write.
pub ids-add :
    (env env' : Env) (c c' : Ctx) (text : String) (db : Db) (user track : ℕ)
    → Names env c text user track
    → (add env c (some text) db).0 ≡ no_content
    → env'.fails ≡ false
    → user_of env' c' ≡ some user
    → (tracks : List ℕ) × (ids env' c' (add env c (some text) db).1 ≡ reply 200 tracks)
      × (elem track tracks ≡ true)
ids-add env env' c c' text db user track n h up who =
    let db' = (add env c (some text) db).1 in
    let same = add_lem env c text db n h in
    let there = insert_favorite_lem env user track db (sym (ap (λ r. r.0) same) ∙ h) in
    (
      tracks_of user db'.favorites,
      ids_lem env' c' db' up who,
      elem-tracks_of user track db'.favorites
          ∙ ap (λ r. any (is_favorite user track) r.1.favorites) same
          ∙ there,
    )

remove_lem :
    (env : Env) (c : Ctx) (db : Db) {user track : ℕ}
    → Names env c (param c "track_id") user track
    → (remove env c db).0 ≡ no_content
    → (remove env c db).1.favorites ≡ select (λ f. not (is_favorite user track f)) db.favorites
unfolding remove
remove_lem env c db n h = elim (Bool-cases env.fails) [
  | inl down ↦ absurd (ground (arith, h, down))
  | inr up ↦ rw (up, remove, n.who, n.what)
]

-- Once removing a track has succeeded, the user's list of ids does not have that track.
pub ids-remove :
    (env env' : Env) (c c' : Ctx) (db : Db) (user track : ℕ)
    → Names env c (param c "track_id") user track
    → (remove env c db).0 ≡ no_content
    → env'.fails ≡ false
    → user_of env' c' ≡ some user
    → (tracks : List ℕ) × (ids env' c' (remove env c db).1 ≡ reply 200 tracks)
      × (elem track tracks ≡ false)
ids-remove env env' c c' db user track n h up who =
    let db' = (remove env c db).1 in
    (
      tracks_of user db'.favorites,
      ids_lem env' c' db' up who,
      elem-tracks_of user track db'.favorites
          ∙ ap (any (is_favorite user track)) (remove_lem env c db n h)
          ∙ any-select-not user track db.favorites,
    )
