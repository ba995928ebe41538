-- ===== src/App/Frames.antt =====
-- Which tables the handlers of beatstream/internal/handler leave alone, and whose rows the others
-- change.
use system_design_lab.Prelude.{
  ℕ, String, Bool, false, not, Option, none, some, List, [], ◌∷◌, ◌≡◌, refl, ap, inl, inr, eqb,
  eqb_iff, arith, Bool-cases, Option-cases,
}
use system_design_lab.Gin.{Ctx, param}
use system_design_lab.Middleware.Jwt.{JwtLibrary}
use system_design_lab.Database.{Db, User, Favorite}
use system_design_lab.Handlers.{Env, Reply, select, any}
use system_design_lab.Handlers.Auth.{
  Bcrypt, Signer, RegisterBody, user_id_of, erase, delete_me, register,
}
use system_design_lab.Handlers.Favorites.{user_of, is_favorite, insert_favorite, add, remove}
use system_design_lab.Handlers.Tracks.{Failures, Form, Uploads}
use system_design_lab.Handlers.Erasure.{rows_of}
use system_design_lab.Handlers

-- The rows of one user in the tables of users and favorites are as they were.
pub record IsUntouched (j : ℕ) (db db' : Db) : Type 0 where
  pub account : rows_of (λ u. u.id) j db'.users ≡ rows_of (λ u. u.id) j db.users
  pub favorites : rows_of (λ f. f.user_id) j db'.favorites ≡ rows_of (λ f. f.user_id) j db.favorites

-- The tables of users, favorites and the audit log are as they were.
pub record IsFramed (db db' : Db) : Type 0 where
  pub users : db'.users ≡ db.users
  pub favorites : db'.favorites ≡ db.favorites
  pub audit_logs : db'.audit_logs ≡ db.audit_logs

pub IsFramed-IsUntouched : (j : ℕ) {db db' : Db} → IsFramed db db' → IsUntouched j db db'
IsFramed-IsUntouched j h = record {
  account = ap (rows_of (λ u. u.id) j) h.users;
  favorites = ap (rows_of (λ f. f.user_id) j) h.favorites;
}

pub create_artist-IsFramed :
    (env : Env) (body : Option String) (db : Db)
    → IsFramed db (Handlers.Artists.create env body db).1
unfolding Handlers.Artists.create
create_artist-IsFramed env body db = record {
  users = ground arith;
  favorites = ground arith;
  audit_logs = ground arith;
}

pub create_track-IsFramed :
    (env : Env) (failures : Failures) (text : String) (form : Form) (s : Uploads)
    → IsFramed s.db (Handlers.Tracks.create env failures text form s).1.db
unfolding Handlers.Tracks.create Handlers.Tracks.save_track
create_track-IsFramed env failures text form s = record {
  users = ground arith;
  favorites = ground arith;
  audit_logs = ground arith;
}

pub create_playlist-IsFramed :
    (env : Env) (body : Option String) (db : Db)
    → IsFramed db (Handlers.Playlists.create env body db).1
unfolding Handlers.Playlists.create
create_playlist-IsFramed env body db = record {
  users = ground arith;
  favorites = ground arith;
  audit_logs = ground arith;
}

pub delete_playlist-IsFramed :
    (env : Env) (c : Ctx) (db : Db) → IsFramed db (Handlers.Playlists.delete env c db).1
unfolding Handlers.Playlists.delete Handlers.Playlists.delete_owned
delete_playlist-IsFramed env c db = record {
  users = ground arith;
  favorites = ground arith;
  audit_logs = ground arith;
}

pub add_track-IsFramed :
    (env : Env) (c : Ctx) (body : Option String) (db : Db)
    → IsFramed db (Handlers.Playlists.add_track env c body db).1
unfolding Handlers.Playlists.add_track Handlers.Playlists.insert_entry
add_track-IsFramed env c body db = record {
  users = ground arith;
  favorites = ground arith;
  audit_logs = ground arith;
}

pub remove_track-IsFramed :
    (env : Env) (c : Ctx) (db : Db) → IsFramed db (Handlers.Playlists.remove_track env c db).1
unfolding Handlers.Playlists.remove_track
remove_track-IsFramed env c db = record {
  users = ground arith;
  favorites = ground arith;
  audit_logs = ground arith;
}

rows_of-erase :
    (print : ℕ → String) (now id j : ℕ) (us : List User)
    → eqb id j ≡ false
    → rows_of (λ u. u.id) j (erase print now id us) ≡ rows_of (λ u. u.id) j us
unfolding erase select
rows_of-erase print now id j [] h = refl
rows_of-erase print now id j (u ∷ us) h =
    ground
      (arith, h, rows_of-erase print now id j us h, eqb_iff u.id id, eqb_iff u.id j, eqb_iff id j)

rows_of-remove :
    (user track j : ℕ) (fs : List Favorite)
    → eqb user j ≡ false
    → rows_of (λ f. f.user_id) j (select (λ f. not (is_favorite user track f)) fs)
      ≡ rows_of (λ f. f.user_id) j fs
unfolding select
rows_of-remove user track j [] h = refl
rows_of-remove user track j (f ∷ fs) h = ground (
  arith,
  h,
  rows_of-remove user track j fs h,
  eqb_iff f.user_id user,
  eqb_iff f.user_id j,
  eqb_iff user j,
)

-- The user of the request's statements is not this one.
abbrev pub IsOther : Env → Ctx → ℕ → Type 0
IsOther env c j = (user : ℕ) → user_of env c ≡ some user → eqb user j ≡ false

user_of-user_id_of :
    (env : Env) (c : Ctx) {id : ℕ} → user_id_of env c ≡ some id → user_of env c ≡ some id
unfolding user_id_of
user_of-user_id_of env c h = ground arith

pub add_favorite-IsUntouched :
    (env : Env) (c : Ctx) (body : Option String) (db : Db) (j : ℕ)
    → IsOther env c j
    → IsUntouched j db (add env c body db).1
unfolding add insert_favorite select
add_favorite-IsUntouched env c body db j h = elim (Option-cases (user_of env c)) [
  | inl nobody ↦ record { account = ground arith; favorites = ground (arith, nobody) }
  | inr (user, e) ↦ record { account = ground arith; favorites = ground (arith, e, h user e) }
]

pub remove_favorite-IsUntouched :
    (env : Env) (c : Ctx) (db : Db) (j : ℕ) → IsOther env c j → IsUntouched j db (remove env c db).1
unfolding remove
remove_favorite-IsUntouched env c db j h = elim (Bool-cases env.fails) [
  | inl down ↦ rw (down, remove) (record { account = refl; favorites = refl })
  | inr up ↦ elim (Option-cases (user_of env c)) [
    | inl nobody ↦ rw (up, remove, nobody) (record { account = refl; favorites = refl })
    | inr (user, e) ↦ elim (Option-cases (env.cast (param c "track_id"))) [
      | inl unread ↦ rw (up, remove, e, unread) (record { account = refl; favorites = refl })
      | inr (track, t) ↦
          rw (up, remove, e, t)
            (record {
              account = refl;
              favorites = rows_of-remove user track j db.favorites (h user e);
            })
    ]
  ]
]

pub delete_me-IsUntouched :
    (print : ℕ → String) (env : Env) (c : Ctx) (db : Db) (j : ℕ)
    → IsOther env c j
    → IsUntouched j db (delete_me print env c db).1
unfolding delete_me
delete_me-IsUntouched print env c db j h = elim (Option-cases (user_id_of env c)) [
  | inl nobody ↦ record { account = ground (arith, nobody); favorites = ground arith }
  | inr (user, e) ↦
      let others =
        rows_of-erase print env.now user j db.users (h user (user_of-user_id_of env c e)) in
      record { account = ground (arith, e, others); favorites = ground arith }
]

-- Registration adds a row with the new id only.
pub register-IsUntouched :
    (bcrypt : Bcrypt) {jwt : JwtLibrary} (signer : Signer jwt) (secret : String)
    (print : ℕ → String) (is_email : String → Bool) (salt : String) (env : Env)
    (body : Option RegisterBody) (db : Db) (j : ℕ)
    → eqb env.new_id j ≡ false
    → IsUntouched j db (register bcrypt signer secret print is_email salt env body db).1
unfolding register select
register-IsUntouched bcrypt signer secret print is_email salt env none db j h = record {
  account = refl;
  favorites = refl;
}
register-IsUntouched bcrypt signer secret print is_email salt env (some b) db j h = record {
  account = ground (arith, h);
  favorites = ground arith;
}

-- No handler but the administrator's deletion changes the audit log.
pub add_favorite_logs :
    (env : Env) (c : Ctx) (body : Option String) (db : Db)
    → (add env c body db).1.audit_logs ≡ db.audit_logs
unfolding add insert_favorite
add_favorite_logs env c body db = ground arith

pub remove_favorite_logs :
    (env : Env) (c : Ctx) (db : Db) → (remove env c db).1.audit_logs ≡ db.audit_logs
unfolding remove
remove_favorite_logs env c db = ground arith

pub delete_me_logs :
    (print : ℕ → String) (env : Env) (c : Ctx) (db : Db)
    → (delete_me print env c db).1.audit_logs ≡ db.audit_logs
unfolding delete_me
delete_me_logs print env c db = ground arith

pub register_logs :
    (bcrypt : Bcrypt) {jwt : JwtLibrary} (signer : Signer jwt) (secret : String)
    (print : ℕ → String) (is_email : String → Bool) (salt : String) (env : Env)
    (body : Option RegisterBody) (db : Db)
    → (register bcrypt signer secret print is_email salt env body db).1.audit_logs ≡ db.audit_logs
unfolding register
register_logs bcrypt signer secret print is_email salt env none db = refl
register_logs bcrypt signer secret print is_email salt env (some b) db = ground arith
