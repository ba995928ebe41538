-- ===== src/App/Kept.antt =====
-- Every handler of beatstream/internal/handler but the upload leaves tracks, formats and objects alone.
use system_design_lab.Prelude.{ℕ, String, Bool, Option, none, some, ◌≡◌, refl, arith}
use system_design_lab.Gin.{Ctx}
use system_design_lab.Middleware.Jwt.{JwtLibrary}
use system_design_lab.Middleware.Audit.{AuditRow}
use system_design_lab.Database.{Db}
use system_design_lab.Handlers.{Env}
use system_design_lab.Handlers.Auth.{Bcrypt, Signer, RegisterBody, delete_me, register}
use system_design_lab.Handlers.Admin.{delete_user, delete_row}
use system_design_lab.Handlers.Favorites.{add, remove, insert_favorite}
use system_design_lab.Handlers
use system_design_lab.Api.{
  Handler, auth_register, auth_delete_me, admin_delete_user, artists_create, tracks_create,
  playlists_create, playlists_delete, playlists_add_track, playlists_remove_track, favorites_add,
  favorites_remove,
}
use system_design_lab.App.{Site, Input, State, dispatch, insert_log, connected}

-- The tables that streaming reads are as they were.
pub record IsKept (db db' : Db) : Type 0 where
  pub tracks : db'.tracks ≡ db.tracks
  pub formats : db'.track_formats ≡ db.track_formats

register-IsKept :
    (bcrypt : Bcrypt) {jwt : JwtLibrary} (signer : Signer jwt) (secret : String)
    (print : ℕ → String) (is_email : String → Bool) (salt : String) (env : Env)
    (body : Option RegisterBody) (db : Db)
    → IsKept db (register bcrypt signer secret print is_email salt env body db).1
unfolding register
register-IsKept bcrypt signer secret print is_email salt env none db = record {
  tracks = refl;
  formats = refl;
}
register-IsKept bcrypt signer secret print is_email salt env (some b) db = record {
  tracks = ground arith;
  formats = ground arith;
}

delete_me-IsKept :
    (print : ℕ → String) (env : Env) (c : Ctx) (db : Db) → IsKept db (delete_me print env c db).1
unfolding delete_me
delete_me-IsKept print env c db = record { tracks = ground arith; formats = ground arith }

delete_user-IsKept : (env : Env) (c : Ctx) (db : Db) → IsKept db (delete_user env c db).1
unfolding delete_user delete_row
delete_user-IsKept env c db = record { tracks = ground arith; formats = ground arith }

create_artist-IsKept :
    (env : Env) (body : Option String) (db : Db) → IsKept db (Handlers.Artists.create env body db).1
unfolding Handlers.Artists.create
create_artist-IsKept env body db = record { tracks = ground arith; formats = ground arith }

create_playlist-IsKept :
    (env : Env) (body : Option String) (db : Db)
    → IsKept db (Handlers.Playlists.create env body db).1
unfolding Handlers.Playlists.create
create_playlist-IsKept env body db = record { tracks = ground arith; formats = ground arith }

delete_playlist-IsKept :
    (env : Env) (c : Ctx) (db : Db) → IsKept db (Handlers.Playlists.delete env c db).1
unfolding Handlers.Playlists.delete Handlers.Playlists.delete_owned
delete_playlist-IsKept env c db = record { tracks = ground arith; formats = ground arith }

add_track-IsKept :
    (env : Env) (c : Ctx) (body : Option String) (db : Db)
    → IsKept db (Handlers.Playlists.add_track env c body db).1
unfolding Handlers.Playlists.add_track Handlers.Playlists.insert_entry
add_track-IsKept env c body db = record { tracks = ground arith; formats = ground arith }

remove_track-IsKept :
    (env : Env) (c : Ctx) (db : Db) → IsKept db (Handlers.Playlists.remove_track env c db).1
unfolding Handlers.Playlists.remove_track
remove_track-IsKept env c db = record { tracks = ground arith; formats = ground arith }

add_favorite-IsKept :
    (env : Env) (c : Ctx) (body : Option String) (db : Db) → IsKept db (add env c body db).1
unfolding add insert_favorite
add_favorite-IsKept env c body db = record { tracks = ground arith; formats = ground arith }

remove_favorite-IsKept : (env : Env) (c : Ctx) (db : Db) → IsKept db (remove env c db).1
unfolding remove
remove_favorite-IsKept env c db = record { tracks = ground arith; formats = ground arith }

pub insert_log-IsKept :
    (fails : Bool) (cast : String → Option ℕ) (row : AuditRow) (db : Db)
    → IsKept db (insert_log fails cast row db)
unfolding insert_log
insert_log-IsKept fails cast row db = record { tracks = ground arith; formats = ground arith }

-- A handler has created a track, or has left tracks, formats and objects alone.
pub data Effect {F : Type 0} (site : Site F) (i : Input) (w : State site)
    : State site → Type 0 where
  created :
      (w' : State site)
      → w'.uploads ≡ (Handlers.Tracks.create i.env (connected i) i.uuid i.form w.uploads).1
      → Effect site i w w'
  kept :
      (w' : State site)
      → IsKept w.uploads.db w'.uploads.db
      → w'.uploads.objects ≡ w.uploads.objects
      → Effect site i w w'

pub dispatch-Effect :
    {F : Type 0} (site : Site F) (i : Input) (h : Handler) (c : Ctx) (w : State site)
    → Effect site i w (dispatch site i h c w).1
unfolding dispatch
dispatch-Effect site i tracks_create c w = created (dispatch site i tracks_create c w).1 refl
dispatch-Effect site i auth_register c w =
    kept (dispatch site i auth_register c w).1
      (register-IsKept site.bcrypt site.signer site.secret site.print site.is_email i.salt i.env
        i.registration w.uploads.db)
      refl
dispatch-Effect site i auth_delete_me c w =
    kept (dispatch site i auth_delete_me c w).1 (delete_me-IsKept site.print i.env c w.uploads.db)
      refl
dispatch-Effect site i admin_delete_user c w =
    kept (dispatch site i admin_delete_user c w).1 (delete_user-IsKept i.env c w.uploads.db) refl
dispatch-Effect site i artists_create c w =
    kept (dispatch site i artists_create c w).1 (create_artist-IsKept i.env i.body w.uploads.db)
      refl
dispatch-Effect site i playlists_create c w =
    kept (dispatch site i playlists_create c w).1 (create_playlist-IsKept i.env i.body w.uploads.db)
      refl
dispatch-Effect site i playlists_delete c w =
    kept (dispatch site i playlists_delete c w).1 (delete_playlist-IsKept i.env c w.uploads.db) refl
dispatch-Effect site i playlists_add_track c w =
    kept (dispatch site i playlists_add_track c w).1 (add_track-IsKept i.env c i.body w.uploads.db)
      refl
dispatch-Effect site i playlists_remove_track c w =
    kept (dispatch site i playlists_remove_track c w).1 (remove_track-IsKept i.env c w.uploads.db)
      refl
dispatch-Effect site i favorites_add c w =
    kept (dispatch site i favorites_add c w).1 (add_favorite-IsKept i.env c i.body w.uploads.db)
      refl
dispatch-Effect site i favorites_remove c w =
    kept (dispatch site i favorites_remove c w).1 (remove_favorite-IsKept i.env c w.uploads.db) refl
dispatch-Effect site i h c w =
    kept (dispatch site i h c w).1 (record { tracks = refl; formats = refl }) refl
