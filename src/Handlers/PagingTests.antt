-- ===== src/Handlers/PagingTests.antt =====
-- The theorem on the pages of a playlist at a playlist of two tracks. A UUID is written in unary.
use text.Mathlib.TextEquality.{eq_iff}
use system_design_lab.Prelude.{
  ℕ, zero, suc, ◌-◌, String, true, false, Option, none, some, List, [], ◌∷◌, length, map, ◌≡◌, refl,
  ap, inl, inr, Bool-cases, ◌==◌, text_eq, arith,
}
use mathlib.Core.List.{Perm}
use system_design_lab.Prelude.Texts.{codes}
use system_design_lab.Prelude.Assoc.{get}
use system_design_lab.Gin.{Ctx}
use system_design_lab.Database.{Db, Track, PlaylistTrack, find_track}
use system_design_lab.Handlers.{Env, select}
use system_design_lab.Handlers.Playlists.{added_at}
use system_design_lab.Handlers.Cursor.{IsAscending}
use system_design_lab.Handlers.Pages.{row}
use system_design_lab.Handlers.Paging.{IsPaged, entries_of, tracks_of, read_pages, read_pages_all}

abbrev unary : ℕ → String
unary zero = "x"
unary (suc n) = String.◌∷◌ "x" (unary n)

length-unary : (n : ℕ) → length (codes (unary n)) ≡ suc n
length-unary zero = refl
length-unary (suc n) = omega (arith, length-unary n)

abbrev cast : String → Option ℕ
cast s = some (length (codes s) - 1)

cast-unary : (n : ℕ) → cast (unary n) ≡ some n
cast-unary n = ap some (omega (arith, length-unary n))

unary_given : (n : ℕ) → (unary n == "") ≡ false
unary_given n = elim (Bool-cases (unary n == "")) [
  | inr given ↦ given
  | inl empty ↦
      let none_left = ap (λ s. length (codes s)) ((eq_iff (unary n) "").0 empty) in
      absurd (omega (arith, length-unary n, none_left))
]

abbrev track : ℕ → Track
track id = record {
  id = id;
  title = "title";
  artist_id = 1;
  duration_ms = 0;
  audio_key = "key";
  release_date = none;
  play_count = 0;
  created_at = 0;
  status = "ready";
}

abbrev entry : ℕ → ℕ → PlaylistTrack
entry track at = record { playlist_id = 1; track_id = track; position = 0; added_at = at }

abbrev db : Db
db = record {
  artists = [];
  tracks = track 7 ∷ track 8 ∷ [];
  playlists = [];
  playlist_tracks = entry 8 30 ∷ entry 7 20 ∷ [];
  play_events = [];
  users = [];
  audit_logs = [];
  favorites = [];
  track_formats = [];
}

abbrev env : Env
env = record { fails = false; cast = cast; parses = λ s. true; now = 100; new_id = 5 }

abbrev request : Ctx
request = record {
  method = "GET";
  full_path = "/v1/playlists/:id/tracks";
  request_headers = [];
  cookies = [];
  params = ("id", "xx") ∷ [];
  client_ip = "10.0.0.1";
  user_agent = "";
  keys = [];
  headers = [];
}

db-IsPaged : IsPaged env request unary db 1
unfolding get select added_at find_track
db-IsPaged = record {
  works = refl;
  names = refl;
  reads = cast-unary;
  given = unary_given;
  level = (refl, (refl, tt));
  distinct = ((λ e. cc, tt), (tt, tt));
  single = (refl, (refl, tt));
  joined = (refl, (refl, tt));
}

read_pages_all_example :
    (es : List PlaylistTrack) × Perm es (entries_of 1 db)
    × IsAscending (λ e. e.added_at) es
    × (read_pages env request unary db (suc (length (entries_of 1 db))) ""
        ≡ map row (tracks_of db.tracks es))
read_pages_all_example = read_pages_all env request unary db 1 db-IsPaged
