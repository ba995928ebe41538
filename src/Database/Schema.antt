-- ===== src/Database/Schema.antt =====
-- `Migrate` of beatstream/internal/db/postgres.go: the migrations as statements on a schema, which
-- keeps the names of tables, columns and indexes and the tables that a column refers to.
use system_design_lab.Prelude.{
  ℕ, suc, String, Bool, true, false, Option, none, some, List, [], ◌∷◌, ◌++◌, map, elem, ◌==◌, ◌&&◌,
  ◌||◌, text_eq, if◌then◌else◌,
}
use system_design_lab.Prelude.Assoc.{Assoc, get, put, is_some}

pub record Column : Type 0 where
  pub name : String
  pub refers : Option String

pub data Statement : Type 0 where
  -- `CREATE TABLE IF NOT EXISTS`
  create_table : String → List Column → Statement
  -- `ALTER TABLE ... ADD COLUMN IF NOT EXISTS`
  add_column : String → Column → Statement
  -- `CREATE INDEX IF NOT EXISTS` of a name, on a table's columns
  create_index : String → String → List String → Statement

pub record Schema : Type 0 where
  pub tables : Assoc String (List Column)
  pub indexes : Assoc String String

abbrev pub columns_of : Option (List Column) → List String
columns_of none = []
columns_of (some cs) = map (λ c. c.name) cs

abbrev pub has_table : String → Schema → Bool
has_table t s = is_some (get s.tables t)

abbrev pub has_column : String → String → Schema → Bool
has_column t c s = elem c (columns_of (get s.tables t))

abbrev pub has_columns : String → List String → Schema → Bool
has_columns t [] s = true
has_columns t (c ∷ cs) s = has_column t c s && has_columns t cs s

abbrev pub has_index : String → Schema → Bool
has_index i s = is_some (get s.indexes i)

-- `REFERENCES`: the table is there or is the one that is created.
abbrev pub refers_well : String → Schema → List Column → Bool
refers_well t s [] = true
refers_well t s (c ∷ cs) =
    elim c.refers [ none ↦ true | some r ↦ r == t || has_table r s ] && refers_well t s cs

-- A statement; none is an error of PostgreSQL.
unfoldable pub run : Statement → Schema → Option Schema
run (create_table t cs) s =
    if has_table t s
    then some s
    else if refers_well t s cs
    then some (record s { tables = put s.tables t cs })
    else none
run (add_column t c) s = elim (get s.tables t) [
  | none ↦ none
  | some cs ↦
      if elem c.name (map (λ c. c.name) cs)
      then some s
      else some (record s { tables = put s.tables t (cs ++ (c ∷ [])) })
]
run (create_index i t cs) s =
    if has_table t s && has_columns t cs s
    then (if has_index i s then some s else some (record s { indexes = put s.indexes i t }))
    else none

-- The statements of one `Exec` are one transaction.
unfoldable pub exec : List Statement → Schema → Option Schema
unfolding run
exec [] s = some s
exec (st ∷ sts) s = elim (run st s) [ none ↦ none | some s' ↦ exec sts s' ]

-- The loop over the migrations from number `k` on: whether it ends without an error, and the schema.
-- `fails` says that PostgreSQL does not answer.
unfoldable pub migrate_from : (ℕ → Bool) → ℕ → List (List Statement) → Schema → Bool × Schema
unfolding exec
migrate_from fails k [] s = (true, s)
migrate_from fails k (m ∷ ms) s =
    if fails k
    then (false, s)
    else elim (exec m s) [ none ↦ (false, s) | some s' ↦ migrate_from fails (suc k) ms s' ]

abbrev plain : String → Column
plain name = record { name = name; refers = none }

abbrev reference : String → String → Column
reference name table = record { name = name; refers = some table }

abbrev plains : List String → List Column
plains names = map plain names

abbrev migration_tracks : List Statement
migration_tracks =
    create_table "artists" (plains ("id" ∷ "name" ∷ "created_at" ∷ []))
    ∷ create_table "tracks" (
        plains ("id" ∷ "title" ∷ [])
        ++ (reference "artist_id" "artists"
            ∷ plains (
                "duration_ms" ∷ "audio_key" ∷ "release_date" ∷ "play_count" ∷ "created_at"
                ∷ "search_vector" ∷ [])))
    ∷ create_index "tracks_search_idx" "tracks" ("search_vector" ∷ [])
    ∷ create_index "tracks_artist_idx" "tracks" ("artist_id" ∷ [])
    ∷ create_index "tracks_release_idx" "tracks" ("release_date" ∷ [])
    ∷ []

abbrev migration_playlists : List Statement
migration_playlists =
    create_table "playlists" (plains ("id" ∷ "name" ∷ "owner_id" ∷ "created_at" ∷ []))
    ∷ create_table "playlist_tracks" (
        reference "playlist_id" "playlists"
        ∷ reference "track_id" "tracks"
        ∷ plains ("position" ∷ "added_at" ∷ []))
    ∷ create_index "playlist_tracks_playlist_idx" "playlist_tracks"
        ("playlist_id" ∷ "position" ∷ [])
    ∷ []

abbrev migration_play_events : List Statement
migration_play_events =
    create_table "play_events" (
      plains ("id" ∷ "user_id" ∷ [])
      ++ (reference "track_id" "tracks" ∷ plains ("played_at" ∷ "ms_played" ∷ "source" ∷ [])))
    ∷ create_index "play_events_track_idx" "play_events" ("track_id" ∷ "played_at" ∷ [])
    ∷ create_index "play_events_user_idx" "play_events" ("user_id" ∷ "played_at" ∷ [])
    ∷ []

abbrev migration_track_status : List Statement
migration_track_status = add_column "tracks" (plain "status") ∷ []

abbrev migration_users : List Statement
migration_users =
    create_table "users" (plains ("id" ∷ "email" ∷ "password_hash" ∷ "name" ∷ "created_at" ∷ []))
    ∷ create_index "users_email_idx" "users" ("email" ∷ [])
    ∷ []

abbrev migration_audit_logs : List Statement
migration_audit_logs =
    create_table "audit_logs" (
      plain "id"
      ∷ reference "user_id" "users"
      ∷ plains (
          "action" ∷ "resource_type" ∷ "resource_id" ∷ "ip_address" ∷ "user_agent" ∷ "status_code"
          ∷ "request_id" ∷ "created_at" ∷ []))
    ∷ create_index "audit_logs_user_id_idx" "audit_logs" ("user_id" ∷ [])
    ∷ create_index "audit_logs_created_at_idx" "audit_logs" ("created_at" ∷ [])
    ∷ create_index "audit_logs_action_idx" "audit_logs" ("action" ∷ [])
    ∷ create_index "audit_logs_ip_idx" "audit_logs" ("ip_address" ∷ [])
    ∷ []

abbrev migration_rbac_gdpr : List Statement
migration_rbac_gdpr =
    add_column "users" (plain "role")
    ∷ add_column "users" (plain "deleted_at")
    ∷ add_column "users" (plain "terms_version")
    ∷ create_index "users_active_email_idx" "users" ("email" ∷ "deleted_at" ∷ [])
    ∷ []

abbrev migration_favorites : List Statement
migration_favorites =
    create_table "favorites" (
      plain "id"
      ∷ reference "user_id" "users"
      ∷ reference "track_id" "tracks"
      ∷ plain "created_at"
      ∷ [])
    ∷ create_index "favorites_user_idx" "favorites" ("user_id" ∷ "created_at" ∷ [])
    ∷ []

abbrev migration_track_formats : List Statement
migration_track_formats =
    create_table "track_formats" (
      plain "id"
      ∷ reference "track_id" "tracks"
      ∷ plains ("bitrate" ∷ "codec" ∷ "s3_key" ∷ "size_bytes" ∷ "created_at" ∷ []))
    ∷ create_index "track_formats_track_idx" "track_formats" ("track_id" ∷ [])
    ∷ []

abbrev pub migrations : List (List Statement)
migrations =
    migration_tracks ∷ migration_playlists ∷ migration_play_events ∷ migration_track_status
    ∷ migration_users ∷ migration_audit_logs ∷ migration_rbac_gdpr ∷ migration_favorites
    ∷ migration_track_formats ∷ []

unfoldable pub migrate : (ℕ → Bool) → Schema → Bool × Schema
unfolding migrate_from
migrate fails s = migrate_from fails 0 migrations s
