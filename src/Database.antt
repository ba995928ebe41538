-- ===== src/Database.antt =====
-- The tables of beatstream/internal/db/postgres.go, as the statements of the workers and handlers
-- read and write them. A UUID is a number, a timestamp a number of microseconds. The generated ids
-- of rows that no statement selects by id (play_events, favorites, track_formats) are left out.
pub mod Tracks
pub mod Schema
pub mod Migration
mod Tests
use system_design_lab.Prelude.{
  ℕ, String, Bool, true, false, Option, none, some, List, [], ◌∷◌, eqb, if◌then◌else◌,
}
use system_design_lab.Middleware.Audit.{AuditRow}

pub record Artist : Type 0 where
  pub id : ℕ
  pub name : String
  pub created_at : ℕ

pub record Track : Type 0 where
  pub id : ℕ
  pub title : String
  pub artist_id : ℕ
  pub duration_ms : ℕ
  pub audio_key : String
  pub release_date : Option String
  pub play_count : ℕ
  pub created_at : ℕ
  pub status : String

pub record Playlist : Type 0 where
  pub id : ℕ
  pub name : String
  pub owner_id : Option ℕ
  pub created_at : ℕ

pub record PlaylistTrack : Type 0 where
  pub playlist_id : ℕ
  pub track_id : ℕ
  pub position : ℕ
  pub added_at : ℕ

pub record PlayEvent : Type 0 where
  pub user_id : Option ℕ
  pub track_id : ℕ
  pub played_at : ℕ
  pub ms_played : Option ℕ
  pub source : Option String

pub record User : Type 0 where
  pub id : ℕ
  pub email : String
  pub password_hash : String
  pub name : String
  pub created_at : ℕ
  pub role : String
  pub deleted_at : Option ℕ
  pub terms_version : ℕ

pub record Favorite : Type 0 where
  pub user_id : ℕ
  pub track_id : ℕ
  pub created_at : ℕ

pub record TrackFormat : Type 0 where
  pub track_id : ℕ
  pub bitrate : ℕ
  pub codec : String
  pub s3_key : String
  pub size_bytes : ℕ

pub record Db : Type 0 where
  pub artists : List Artist
  pub tracks : List Track
  pub playlists : List Playlist
  pub playlist_tracks : List PlaylistTrack
  pub play_events : List PlayEvent
  pub users : List User
  pub audit_logs : List AuditRow
  pub favorites : List Favorite
  pub track_formats : List TrackFormat

-- `WHERE id = $1` on the tracks.
unfoldable pub find_track : ℕ → List Track → Option Track
find_track id [] = none
find_track id (t ∷ ts) = let rest = find_track id ts in if eqb t.id id then some t else rest

-- `UPDATE tracks SET ... WHERE id = $1`
unfoldable pub update_track : ℕ → (Track → Track) → List Track → List Track
update_track id f [] = []
update_track id f (t ∷ ts) =
    let rest = update_track id f ts in if eqb t.id id then f t ∷ rest else t ∷ rest

abbrev pub set_status : String → Track → Track
set_status status t = record t { status = status }

-- `tracks.id` is the primary key.
abbrev pub has_track : ℕ → List Track → Bool
has_track id [] = false
has_track id (t ∷ ts) = if eqb t.id id then true else has_track id ts
