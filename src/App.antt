-- ===== src/App.antt =====
-- The server that beatstream/cmd/api/main.go builds: the handlers and middleware of the other
-- modules, connected, over one state. S3_BUCKET and KAFKA_BROKERS are set.
pub mod Frames
pub mod Serving
pub mod Routing
pub mod Isolation
pub mod Log
pub mod Unlogged
pub mod Kept
pub mod Audio
pub mod Transcoding
pub mod System
pub mod Streaming
mod Fixtures
mod Tests
mod SystemTests
use system_design_lab.Prelude.{
  ℕ, String, Bool, true, Option, none, some, List, ◌∷◌, eqb, if◌then◌else◌, ◌||◌, not,
}
use system_design_lab.Redis.{Redis}
use system_design_lab.Gin.{Ctx, Verdict}
use system_design_lab.Middleware.Jwt.{JwtLibrary}
use system_design_lab.Middleware.Audit.{AuditRow}
use system_design_lab.Limits.{Faults}
use system_design_lab.Limits.Bucket.{BucketHash}
use system_design_lab.Search.{Transport}
use system_design_lab.Database.{Db}
use system_design_lab.Worker.Analytics.{PlayMessage}
use system_design_lab.Handlers.{Env, Reply, reply, problem, no_content, TrackRow, any}
use system_design_lab.Handlers.Auth.{Bcrypt, Signer, RegisterBody, LoginBody}
use system_design_lab.Handlers.Tracks.{Failures, Uploads, Form}
use system_design_lab.Handlers.Stream.{
  Services, Answer, redirect, failure, handler_panic, Event, no_event, lost, crash, published,
}
use system_design_lab.Handlers.Search.{Queries}
use system_design_lab.Handlers.Recommendations.{SearchResponse}
use system_design_lab.Handlers
use system_design_lab.Limits
use system_design_lab.Api.{
  Handler, auth_register, auth_login, auth_me, auth_delete_me, auth_export_me, admin_list_users,
  admin_delete_user, admin_list_audit_logs, artists_list, artists_create, artists_get, tracks_list,
  tracks_get, tracks_create, tracks_stream, playlists_list, playlists_get, playlists_create,
  playlists_delete, playlists_list_tracks, playlists_add_track, playlists_remove_track,
  search_search, search_autocomplete, favorites_list, favorites_ids, favorites_add,
  favorites_remove, recs_top_tracks, recs_for_you, recs_similar, Server,
}

-- What the handlers are built from, and how the database collates and reads texts.
pub record Site (F : Type 0) : Type 1 where
  pub jwt : JwtLibrary
  pub signer : Signer jwt
  pub secret : String
  pub bcrypt : Bcrypt
  pub print : ℕ → String
  pub is_email : String → Bool
  pub before : String → String → Bool
  pub cast_int : String → Option ℕ
  pub presign : String → Option String
  pub client : Option (Transport F × String)
  pub rows : Redis TrackRow
  pub answers : Redis SearchResponse
  pub buckets : Redis BucketHash
  pub counters : Redis ℕ

-- One request's bodies and query, and what happens outside while it is served.
pub record Input : Type 0 where
  pub env : Env
  pub registration : Option RegisterBody
  pub credentials : Option LoginBody
  -- the one text of the bodies of the other handlers
  pub body : Option String
  pub form : Form
  pub q : String
  pub after : String
  pub quality : Option String
  pub queries : Queries
  pub failures : Failures
  pub faults : Faults
  pub second_fails : Bool
  pub formats_fail : Bool
  pub publish_fails : Bool
  pub audit_fails : Bool
  pub redis_down : Bool
  -- the time in nanoseconds
  pub clock : ℕ
  pub salt : String
  -- the new UUID of a track, and the time, as texts
  pub uuid : String
  pub timestamp : String

-- The steps of an upload that fail; the object store and the producer are there.
abbrev pub connected : Input → Failures
connected i = record (i.failures) { has_store = true; has_producer = true }

abbrev pub status_of : {A : Type 0} → Reply A → ℕ
status_of (reply status a) = status
status_of (problem status message) = status
status_of no_content = 204

-- A panic is gin's 500.
abbrev pub status_of_answer : Answer → ℕ
status_of_answer (redirect url) = 307
status_of_answer (failure status message) = status
status_of_answer handler_panic = 500

abbrev pub add_play : Event → List PlayMessage → List PlayMessage
add_play no_event plays = plays
add_play lost plays = plays
add_play crash plays = plays
add_play (published play) plays = play ∷ plays

-- The columns of a row that are UUIDs: a user of the table, or NULL; any UUID, or NULL.
abbrev pub is_known : (String → Option ℕ) → Option String → Db → Bool
is_known cast none db = true
is_known cast (some text) db = elim (cast text) [
  | none ↦ Bool.false
  | some id ↦ any (λ u. eqb u.id id) db.users
]

abbrev pub is_uuid : (String → Option ℕ) → Option String → Bool
is_uuid cast none = true
is_uuid cast (some text) = elim (cast text) [ none ↦ Bool.false | some id ↦ true ]

-- The insertion of an audit row, whose error is only logged.
unfoldable pub insert_log : Bool → (String → Option ℕ) → AuditRow → Db → Db
insert_log fails cast row db =
    if fails || (not (is_known cast row.user_id db) || not (is_uuid cast row.resource_id))
    then db
    else record db { audit_logs = row ∷ db.audit_logs }

module _ {F : Type 0} (site : Site F) where
  -- The tables, the object store and the topic of the uploads; the topic of the plays; and the keys
  -- of Redis, by the type of their values.
  pub record State : Type 0 where
    pub uploads : Uploads
    pub plays : List PlayMessage
    pub rows : site.rows.State
    pub answers : site.answers.State
    pub buckets : site.buckets.State
    pub counters : site.counters.State

  abbrev pub set_db : State → Db → State
  set_db w db = record w { uploads = record (w.uploads) { db = db } }

  abbrev pub services : Input → Services
  services i = record {
    has_producer = true;
    has_store = true;
    fails = i.publish_fails;
    presign = site.presign;
  }

  abbrev reads : {A : Type 0} → Reply A → State → ℕ × State
  reads r w = (status_of r, w)

  abbrev writes : {A : Type 0} → State → Reply A × Db → ℕ × State
  writes w (r, db) = (status_of r, set_db w db)

  -- Each route's handler, called with what the request gives it: the status and the new state.
  unfoldable pub dispatch : Input → Handler → Ctx → State → ℕ × State
  dispatch i auth_register c w = writes w (
      Handlers.Auth.register site.bcrypt site.signer site.secret site.print site.is_email i.salt
        i.env i.registration w.uploads.db)
  dispatch i auth_login c w =
      reads
        (Handlers.Auth.login site.bcrypt site.signer site.secret site.print i.env i.credentials
          w.uploads.db)
        w
  dispatch i auth_me c w = reads (Handlers.Auth.me i.env c w.uploads.db) w
  dispatch i auth_delete_me c w = writes w (Handlers.Auth.delete_me site.print i.env c w.uploads.db)
  dispatch i auth_export_me c w =
      reads (Handlers.Auth.export_me i.second_fails i.env c w.uploads.db) w
  dispatch i admin_list_users c w = reads (Handlers.Admin.list_users i.env w.uploads.db) w
  dispatch i admin_delete_user c w = writes w (Handlers.Admin.delete_user i.env c w.uploads.db)
  dispatch i admin_list_audit_logs c w = reads (Handlers.Admin.list_audit_logs i.env w.uploads.db) w
  dispatch i artists_list c w = reads (Handlers.Artists.list site.before i.env w.uploads.db) w
  dispatch i artists_create c w = writes w (Handlers.Artists.create i.env i.body w.uploads.db)
  dispatch i artists_get c w = reads (Handlers.Artists.get i.env c w.uploads.db) w
  dispatch i tracks_list c w = reads (Handlers.Tracks.list i.env w.uploads.db) w
  dispatch i tracks_get c w =
      let (r, rows) =
        Handlers.Tracks.get site.rows i.redis_down i.env i.formats_fail c w.uploads.db w.rows in
      (status_of r, record w { rows = rows })
  dispatch i tracks_create c w =
      let (r, uploads) = Handlers.Tracks.create i.env (connected i) i.uuid i.form w.uploads in
      (status_of r, record w { uploads = uploads })
  dispatch i tracks_stream c w =
      let (answer, event) =
        Handlers.Stream.stream (services i) i.env site.cast_int i.second_fails c i.quality
          i.timestamp w.uploads.db in
      (status_of_answer answer, record w { plays = add_play event w.plays })
  dispatch i playlists_list c w = reads (Handlers.Playlists.list i.env w.uploads.db) w
  dispatch i playlists_get c w = reads (Handlers.Playlists.get i.env c w.uploads.db) w
  dispatch i playlists_create c w = writes w (Handlers.Playlists.create i.env i.body w.uploads.db)
  dispatch i playlists_delete c w = writes w (Handlers.Playlists.delete i.env c w.uploads.db)
  dispatch i playlists_list_tracks c w =
      reads (Handlers.Playlists.list_tracks i.env c i.after w.uploads.db) w
  dispatch i playlists_add_track c w =
      writes w (Handlers.Playlists.add_track i.env c i.body w.uploads.db)
  dispatch i playlists_remove_track c w =
      writes w (Handlers.Playlists.remove_track i.env c w.uploads.db)
  dispatch i search_search c w =
      let (r, answers) =
        Handlers.Search.search_tracks site.answers i.redis_down site.client i.queries i.q
          w.uploads.db w.answers in
      (status_of r, record w { answers = answers })
  dispatch i search_autocomplete c w = reads (Handlers.Search.autocomplete_titles site.client i.q) w
  dispatch i favorites_list c w = reads (Handlers.Favorites.list i.env c w.uploads.db) w
  dispatch i favorites_ids c w = reads (Handlers.Favorites.ids i.env c w.uploads.db) w
  dispatch i favorites_add c w = writes w (Handlers.Favorites.add i.env c i.body w.uploads.db)
  dispatch i favorites_remove c w = writes w (Handlers.Favorites.remove i.env c w.uploads.db)
  dispatch i recs_top_tracks c w =
      let (r, answers) =
        Handlers.Recommendations.top_tracks site.answers i.redis_down i.env w.uploads.db
          w.answers in
      (status_of r, record w { answers = answers })
  dispatch i recs_for_you c w =
      let (r, answers) =
        Handlers.Recommendations.for_you site.answers i.redis_down i.env c w.uploads.db w.answers in
      (status_of r, record w { answers = answers })
  dispatch i recs_similar c w =
      let (r, answers) =
        Handlers.Recommendations.similar site.answers i.redis_down i.env c w.uploads.db w.answers in
      (status_of r, record w { answers = answers })

  unfoldable pub limit_login : Input → Ctx → State → Verdict × State
  limit_login i c w =
      let (verdict, counters) = Limits.login_limit site.counters i.faults c w.counters in
      (verdict, record w { counters = counters })

  -- `middleware.StreamRateLimit(rdb.Client(), 100)`
  unfoldable pub limit_stream : Input → Ctx → State → Verdict × State
  limit_stream i c w =
      let (verdict, _, buckets) =
        Limits.stream_limit site.buckets 100 i.clock i.redis_down c w.buckets in
      (verdict, record w { buckets = buckets })

  -- The server as it serves one request.
  unfoldable pub server : Input → Server State
  unfolding dispatch limit_login limit_stream insert_log
  server i = record {
    jwt = site.jwt;
    secret = site.secret;
    limit_login = limit_login i;
    limit_stream = limit_stream i;
    handle = λ h c w. let (status, w') = dispatch i h c w in (status, c, w');
    record_row = λ row w. set_db w (insert_log i.audit_fails i.env.cast row w.uploads.db);
  }
