-- ===== src/Api.antt =====
-- The routes under /v1 of beatstream/cmd/api/main.go, with their guards and handlers.
pub mod Protection
pub mod Stack
pub mod Headers
mod Tests
use system_design_lab.Prelude.{
  ℕ, String, Bool, true, false, Option, none, some, List, [], ◌∷◌, ◌==◌, text_eq, if◌then◌else◌,
}
use system_design_lab.Gin.{Ctx, Verdict, next, abort}
use system_design_lab.Middleware.Jwt.{JwtLibrary, require_auth, require_role}
use system_design_lab.Middleware.Audit.{AuditRow, Outcome, audit_log}

pub data Guard : Type 0 where
  login_limit require_auth_guard require_admin_guard stream_limit : Guard

-- The handlers, by the Go methods' names.
pub data Handler : Type 0 where
  auth_register auth_login auth_me auth_delete_me auth_export_me : Handler
  admin_list_users admin_delete_user admin_list_audit_logs : Handler
  artists_list artists_create artists_get : Handler
  tracks_list tracks_get tracks_create tracks_stream : Handler
  playlists_list playlists_get playlists_create playlists_delete : Handler
  playlists_list_tracks playlists_add_track playlists_remove_track : Handler
  search_search search_autocomplete : Handler
  favorites_list favorites_ids favorites_add favorites_remove : Handler
  recs_top_tracks recs_for_you recs_similar : Handler

pub record Route : Type 0 where
  pub method : String
  pub path : String
  pub guards : List Guard
  pub handler : Handler

abbrev route : String → String → List Guard → Handler → Route
route method path guards handler = record {
  method = method;
  path = path;
  guards = guards;
  handler = handler;
}

abbrev auth_only : List Guard
auth_only = require_auth_guard ∷ []

-- The admin group's guards come first.
abbrev admin_only : List Guard
admin_only = require_auth_guard ∷ require_admin_guard ∷ []

abbrev pub routes : List Route
routes =
    route "POST" "/v1/auth/register" [] auth_register
    ∷ route "POST" "/v1/auth/login" (login_limit ∷ []) auth_login
    ∷ route "GET" "/v1/auth/me" auth_only auth_me
    ∷ route "DELETE" "/v1/me" auth_only auth_delete_me
    ∷ route "GET" "/v1/me/export" auth_only auth_export_me
    ∷ route "GET" "/v1/admin/users" admin_only admin_list_users
    ∷ route "DELETE" "/v1/admin/users/:id" admin_only admin_delete_user
    ∷ route "GET" "/v1/admin/audit-logs" admin_only admin_list_audit_logs
    ∷ route "GET" "/v1/artists" [] artists_list
    ∷ route "POST" "/v1/artists" auth_only artists_create
    ∷ route "GET" "/v1/artists/:id" [] artists_get
    ∷ route "GET" "/v1/tracks" [] tracks_list
    ∷ route "GET" "/v1/tracks/:id" [] tracks_get
    ∷ route "POST" "/v1/tracks" auth_only tracks_create
    ∷ route "GET" "/v1/tracks/:id/stream" (stream_limit ∷ []) tracks_stream
    ∷ route "GET" "/v1/playlists" [] playlists_list
    ∷ route "GET" "/v1/playlists/:id" [] playlists_get
    ∷ route "POST" "/v1/playlists" auth_only playlists_create
    ∷ route "DELETE" "/v1/playlists/:id" auth_only playlists_delete
    ∷ route "GET" "/v1/playlists/:id/tracks" [] playlists_list_tracks
    ∷ route "POST" "/v1/playlists/:id/tracks" auth_only playlists_add_track
    ∷ route "DELETE" "/v1/playlists/:id/tracks/:track_id" auth_only playlists_remove_track
    ∷ route "GET" "/v1/search" [] search_search
    ∷ route "GET" "/v1/search/autocomplete" [] search_autocomplete
    ∷ route "GET" "/v1/favorites" auth_only favorites_list
    ∷ route "GET" "/v1/favorites/ids" auth_only favorites_ids
    ∷ route "POST" "/v1/favorites" auth_only favorites_add
    ∷ route "DELETE" "/v1/favorites/:track_id" auth_only favorites_remove
    ∷ route "GET" "/v1/recommendations/top" [] recs_top_tracks
    ∷ route "GET" "/v1/recommendations/for-you" auth_only recs_for_you
    ∷ route "GET" "/v1/tracks/:id/similar" [] recs_similar
    ∷ []

-- What the chain needs besides its guards: the token package and its secret, the two limiters, the
-- handlers, and the audit log, over a state W.
pub record Server (W : Type 0) : Type 0 where
  pub jwt : JwtLibrary
  pub secret : String
  pub limit_login : Ctx → W → Verdict × W
  pub limit_stream : Ctx → W → Verdict × W
  pub handle : Handler → Ctx → W → ℕ × Ctx × W
  pub record_row : AuditRow → W → W

module _ {W : Type 0} (server : Server W) where
  unfoldable pub run_guard : Guard → Ctx → W → Verdict × W
  run_guard login_limit c w = server.limit_login c w
  run_guard require_auth_guard c w = (require_auth server.jwt server.secret c, w)
  run_guard require_admin_guard c w = (require_role "admin" c, w)
  run_guard stream_limit c w = server.limit_stream c w

  -- The guards in order; the first that aborts ends the chain.
  unfoldable pub run_chain : List Guard → Handler → Ctx → W → ℕ × Ctx × W
  unfolding run_guard
  run_chain [] handler c w = server.handle handler c w
  run_chain (g ∷ gs) handler c w =
      let (verdict, w') = run_guard g c w in
      elim verdict [
        | next c' ↦ run_chain gs handler c' w'
        | abort status message c' ↦ (status, c', w')
      ]

  -- A request that the router has matched: the audit log around the route's chain.
  unfoldable pub serve : Route → Ctx → W → Outcome W
  unfolding run_chain
  serve r c w = audit_log server.record_row (run_chain r.guards r.handler) c w
