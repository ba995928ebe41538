-- ===== src/Handlers.antt =====
-- What the handlers of beatstream/internal/handler share: the request's fate in the database, the
-- reply, and the rows of tracks that they send.
pub mod Playlists
pub mod Owners
pub mod Favorites
pub mod Marks
pub mod Auth
pub mod Tracks
pub mod Releases
pub mod Accounts
pub mod Order
pub mod Recommendations
pub mod Ranking
pub mod Cursor
pub mod Pages
pub mod Paging
pub mod Artists
pub mod Admin
pub mod Erasure
pub mod Stream
pub mod Listening
pub mod Reading
pub mod Search
pub mod Fallback
mod Tests
mod UploadTests
mod FeedTests
mod PlayTests
mod PagingTests
use system_design_lab.Prelude.{
  ℕ, String, Bool, true, false, Option, none, some, List, [], ◌∷◌, leb, ◌==◌, text_eq,
  if◌then◌else◌,
}
use system_design_lab.Database.{Db, Track, find_track}

-- What is outside a handler: whether its statement fails for a reason that is not in the tables
-- (where the code reads rows: before the first of them), how PostgreSQL and the uuid package read a text, the time, and the next generated UUID.
pub record Env : Type 0 where
  pub fails : Bool
  pub cast : String → Option ℕ
  pub parses : String → Bool
  pub now : ℕ
  pub new_id : ℕ

-- A status with a body, a status with an error message, or 204.
pub data Reply (A : Type 0) : Type 0 where
  reply : ℕ → A → Reply A
  problem : ℕ → String → Reply A
  no_content : Reply A

-- `ShouldBindJSON` with one required text: the decoded field, none where the body is not JSON.
abbrev pub required : Option String → Option String
required none = none
required (some s) = if s == "" then none else some s

pub record FormatRow : Type 0 where
  pub bitrate : ℕ
  pub codec : String
  pub size_bytes : ℕ

pub record TrackRow : Type 0 where
  pub id : ℕ
  pub title : String
  pub artist_id : ℕ
  pub duration_ms : ℕ
  pub release_date : Option String
  pub play_count : ℕ
  pub status : String
  pub created_at : ℕ
  pub formats : List FormatRow

abbrev pub track_row : String → Track → TrackRow
track_row status t = record {
  id = t.id;
  title = t.title;
  artist_id = t.artist_id;
  duration_ms = t.duration_ms;
  release_date = t.release_date;
  play_count = t.play_count;
  status = status;
  created_at = t.created_at;
  formats = [];
}

module _ {A : Type 0} (before : A → A → Bool) where
  insert : A → List A → List A
  insert x [] = x ∷ []
  insert x (y ∷ ys) = let rest = insert x ys in if before y x then y ∷ rest else x ∷ y ∷ ys

  -- `ORDER BY`. Where PostgreSQL leaves the order of equal rows open, theirs is that of the table.
  unfoldable pub order_by : List A → List A
  unfolding insert
  order_by [] = []
  order_by (x ∷ xs) = insert x (order_by xs)

module _ {A : Type 0} where
  -- `WHERE`
  unfoldable pub select : (A → Bool) → List A → List A
  select p [] = []
  select p (x ∷ xs) = let rest = select p xs in if p x then x ∷ rest else rest

  unfoldable pub any : (A → Bool) → List A → Bool
  any p [] = false
  any p (x ∷ xs) = if p x then true else any p xs

-- `JOIN tracks t ON t.id = ...`: each row with its track.
unfoldable pub join_tracks : {A : Type 0} → (A → ℕ) → List Track → List A → List Track
join_tracks track_id ts [] = []
join_tracks track_id ts (a ∷ as') =
    let rest = join_tracks track_id ts as' in
    elim (find_track (track_id a) ts) [ none ↦ rest | some t ↦ t ∷ rest ]
