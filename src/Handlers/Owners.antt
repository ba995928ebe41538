-- ===== src/Handlers/Owners.antt =====
-- Which playlists the DELETE handler of beatstream/internal/handler/playlists.go can remove.
use system_design_lab.Prelude.{
  ℕ, String, false, Option, none, List, [], ◌∷◌, All, ◌≡◌, ◌≢◌, inl, inr, refl, eqb, ◌||◌, ◌&&◌,
  arith, Bool-cases, Option-cases,
}
use system_design_lab.Gin.{Ctx, get_key, as_string, param}
use system_design_lab.Database.{Db, Playlist, has_track}
use system_design_lab.Handlers.{Env, no_content, required, any}
use system_design_lab.Handlers.Playlists.{
  create, insert_entry, is_entry, add_track, is_owned, delete_owned, delete, remove_track,
}

-- The requests that change the playlists' tables.
pub data Request : Type 0 where
  create_request add_request : Option String → Request
  remove_request delete_request : Request

abbrev pub step : Request → Env → Ctx → Db → Db
step (create_request body) env c db = (create env body db).1
step (add_request body) env c db = (add_track env c body db).1
step remove_request env c db = (remove_track env c db).1
step delete_request env c db = (delete env c db).1

abbrev pub run : List (Request × Env × Ctx) → Db → Db
run [] db = db
run ((r, env, c) ∷ rs) db = run rs (step r env c db)

abbrev pub IsUnowned : Db → Type 0
IsUnowned db = All (λ p. p.owner_id ≡ none) db.playlists

not_owned :
    (id uid : ℕ) (ps : List Playlist)
    → All (λ p. p.owner_id ≡ none) ps
    → any (is_owned id uid) ps ≡ false
unfolding any
not_owned id uid [] h = refl
not_owned id uid (p ∷ ps) h = ground (arith, h.0, not_owned id uid ps h.1)

delete-IsUnowned :
    (env : Env) (c : Ctx) (db : Db)
    → IsUnowned db
    → ((delete env c db).1 ≡ db) × ((delete env c db).0 ≢ no_content)
unfolding delete delete_owned
delete-IsUnowned env c db h = elim (Bool-cases (env.parses (param c "id"))) [
  | inr bad ↦ rw (bad, delete) (refl, λ e. cc)
  | inl good ↦ elim (Bool-cases env.fails) [
    | inl down ↦ rw (good, delete, down) (refl, λ e. cc)
    | inr up ↦ elim (Option-cases (env.cast (param c "id"))) [
      | inl unread ↦ rw (good, delete, up, unread) (refl, λ e. cc)
      | inr (id, read) ↦ elim (Option-cases (env.cast (as_string (get_key c "user_id")))) [
        | inl nobody ↦ rw (good, delete, up, read, nobody) (refl, λ e. cc)
        | inr (uid, somebody) ↦
            rw (good, delete, up, read, somebody, delete_owned, not_owned id uid db.playlists h)
              (refl, λ e. cc)
      ]
    ]
  ]
]

create-IsUnowned :
    (env : Env) (body : Option String) (db : Db) → IsUnowned db → IsUnowned (create env body db).1
unfolding create
create-IsUnowned env body db h = elim (Option-cases (required body)) [
  | inl missing ↦ rw (missing, create) h
  | inr (name, given) ↦
      elim (Bool-cases (env.fails || any (λ p. eqb p.id env.new_id) db.playlists)) [
        | inl down ↦ rw (given, create, down) h
        | inr up ↦ rw (given, create, up) (refl, h)
      ]
]

insert_entry_playlists :
    (env : Env) (p t : ℕ) (db : Db) → (insert_entry env p t db).1.playlists ≡ db.playlists
unfolding insert_entry
insert_entry_playlists env p t db = elim (Bool-cases (any (is_entry p t) db.playlist_tracks)) [
  | inl there ↦ rw (there, insert_entry)
  | inr absent ↦ elim (Bool-cases (any (λ q. eqb q.id p) db.playlists && has_track t db.tracks)) [
    | inl known ↦ rw (absent, insert_entry, known)
    | inr unknown ↦ rw (absent, insert_entry, unknown)
  ]
]

add_track_playlists :
    (env : Env) (c : Ctx) (body : Option String) (db : Db)
    → (add_track env c body db).1.playlists ≡ db.playlists
unfolding add_track
add_track_playlists env c body db = elim (Option-cases (required body)) [
  | inl missing ↦ rw (missing, add_track)
  | inr (text, given) ↦ elim (Bool-cases env.fails) [
    | inl down ↦ rw (given, add_track, down)
    | inr up ↦ elim (Option-cases (env.cast (param c "id"))) [
      | inl unread ↦ rw (given, add_track, up, unread)
      | inr (p, read) ↦ elim (Option-cases (env.cast text)) [
        | inl unknown ↦ rw (given, add_track, up, read, unknown)
        | inr (t, known) ↦
            rw (given, add_track, up, read, known) (insert_entry_playlists env p t db)
      ]
    ]
  ]
]

remove_track_playlists :
    (env : Env) (c : Ctx) (db : Db) → (remove_track env c db).1.playlists ≡ db.playlists
unfolding remove_track
remove_track_playlists env c db = elim (Bool-cases env.fails) [
  | inl down ↦ rw (down, remove_track)
  | inr up ↦ elim (Option-cases (env.cast (param c "id"))) [
    | inl unread ↦ rw (up, remove_track, unread)
    | inr (p, read) ↦ elim (Option-cases (env.cast (param c "track_id"))) [
      | inl unknown ↦ rw (up, remove_track, read, unknown)
      | inr (t, known) ↦ rw (up, remove_track, read, known)
    ]
  ]
]

step-IsUnowned :
    (r : Request) (env : Env) (c : Ctx) (db : Db) → IsUnowned db → IsUnowned (step r env c db)
step-IsUnowned (create_request body) env c db h = create-IsUnowned env body db h
step-IsUnowned (add_request body) env c db h = rw (add_track_playlists env c body db) h
step-IsUnowned remove_request env c db h = rw (remove_track_playlists env c db) h
step-IsUnowned delete_request env c db h = rw ((delete-IsUnowned env c db h).0) h

run-IsUnowned : (rs : List (Request × Env × Ctx)) (db : Db) → IsUnowned db → IsUnowned (run rs db)
run-IsUnowned [] db h = h
run-IsUnowned ((r, env, c) ∷ rs) db h =
    run-IsUnowned rs (step r env c db) (step-IsUnowned r env c db h)

-- From tables in which no playlist has an owner, such as empty ones, whatever requests are made to
-- the playlists' handlers, and whoever makes them, deleting a playlist never succeeds and changes
-- nothing: no handler gives a playlist its owner.
pub delete_never :
    (rs : List (Request × Env × Ctx)) (db : Db) (env : Env) (c : Ctx)
    → IsUnowned db
    → let db' = run rs db in ((delete env c db').1 ≡ db') × ((delete env c db').0 ≢ no_content)
delete_never rs db env c h = delete-IsUnowned env c (run rs db) (run-IsUnowned rs db h)
