-- ===== src/Handlers/FeedTests.antt =====
-- The theorems on recommendations and search at a small database, with the cache in memory.
use system_design_lab.Prelude.{
  ℕ, String, true, false, Option, none, some, List, [], ◌∷◌, map, ◌≡◌, refl, inr, ◌==◌, text_eq,
  number_eq, if◌then◌else◌,
}
use mathlib.Core.List.Perm
use system_design_lab.Redis.Memory.{memory, empty}
use system_design_lab.Gin.{Ctx, str, get_key}
use system_design_lab.Prelude.Assoc.{get}
use system_design_lab.Database.{Db, Track}
use system_design_lab.Worker.Queue.{consume}
use system_design_lab.Worker.Analytics.{Connection}
use system_design_lab.Worker.Plays.{Delivered, handle}
use system_design_lab.Search.{Transport, TrackResult, search}
use system_design_lab.Handlers.{Env, reply, select}
use system_design_lab.Handlers.Tracks.{full_row}
use system_design_lab.Handlers.Order.{IsTop}
use system_design_lab.Handlers.Recommendations.{
  SearchResponse, response, is_ready, plays, uid_of, top_tracks, for_you, cached,
}
use system_design_lab.Handlers.Ranking.{top_tracks-IsTop, for_you_never}
use system_design_lab.Handlers.Search.{
  Queries, cast_all, found_tracks, hits, fresh_search, search_tracks,
}
use system_design_lab.Handlers.Fallback.{Answered, search_tracks_cases}

abbrev track : ℕ → ℕ → String → Track
track id plays status = record {
  id = id;
  title = "title";
  artist_id = 1;
  duration_ms = 0;
  audio_key = "key";
  release_date = none;
  play_count = plays;
  created_at = 0;
  status = status;
}

abbrev db : Db
db = record {
  artists = [];
  tracks = track 7 1 "ready" ∷ track 8 3 "pending" ∷ track 9 2 "ready" ∷ [];
  playlists = [];
  playlist_tracks = [];
  play_events = [];
  users = [];
  audit_logs = [];
  favorites = [];
  track_formats = [];
}

abbrev cast : String → Option ℕ
cast s =
    if s == "five"
    then some 5
    else if s == "seven"
    then some 7
    else if s == "nine"
    then some 9
    else none

abbrev env : Env
env = record { fails = false; cast = cast; parses = λ s. true; now = 100; new_id = 5 }

abbrev later : Env
later = record env { fails = true }

top_tracks-IsTop_example :
    (shown : List Track) × ((top_tracks (memory SearchResponse) false env db empty).0
      ≡ reply 200 (response (map full_row shown)))
    × IsTop plays 20 (select is_ready db.tracks) shown
top_tracks-IsTop_example =
    top_tracks-IsTop (memory SearchResponse) false env db empty (inr refl) refl

abbrev request : Ctx
request = record {
  method = "GET";
  full_path = "/v1/recommendations/for-you";
  request_headers = [];
  cookies = [];
  params = [];
  client_ip = "10.0.0.1";
  user_agent = "";
  keys = ("user_id", str "five") ∷ [];
  headers = [];
}

abbrev conn : Connection
conn = record { fails = λ s. false; cast = cast; now = 1 }

abbrev plays_of_seven : List Delivered
plays_of_seven = (conn, record { track_id = "seven"; source = "web"; timestamp = "" }) ∷ []

user_five : uid_of (get_key request "user_id") ≡ some "five"
unfolding get
user_five = refl

for_you_never_example :
    (for_you (memory SearchResponse) false env request (consume handle plays_of_seven db).1 empty).0
    ≡ reply 200 (response [])
for_you_never_example =
    for_you_never (memory SearchResponse) plays_of_seven db false env request empty "five" 5 tt
      user_five refl refl (inr refl)

abbrev result : String → TrackResult ℕ × ℕ
result id = (record { id = id; title = "title"; artist_name = "A"; score = 0 }, 1)

abbrev answering : List String → Transport ℕ
answering ids = record {
  send = λ r. some (record { status = 200; body = "" });
  contains = λ body text. false;
  read_hits = λ body. some (map result ids);
  read_suggest = λ body. none;
}

abbrev client : List String → Option (Transport ℕ × String)
client ids = some (answering ids, "http://opensearch:9200")

abbrev queries : Queries
queries = record {
  by_id_fails = false;
  by_text_fails = false;
  sent = λ ts. ts;
  cast = cast;
  ranked = λ q ts. ts;
}

search_tracks_cases_example :
    Answered
      (client ("nine" ∷ "seven" ∷ []))
      queries
      "t"
      db
      (search_tracks
        (memory SearchResponse)
        false
        (client ("nine" ∷ "seven" ∷ []))
        queries
        "t"
        db
        empty).0
search_tracks_cases_example =
    search_tracks_cases (client ("nine" ∷ "seven" ∷ [])) queries "t" db (memory SearchResponse)
      false empty refl (λ ts. Perm.rfl) (inr refl)

-- One id that is no UUID is enough for an empty answer.
nothing_read :
    (search_tracks
      (memory SearchResponse)
      false
      (client ("nine" ∷ "none such" ∷ []))
      queries
      "t"
      db
      empty).0
    ≡ reply 200 (response [])
unfolding search_tracks fresh_search hits search found_tracks cast_all cached
nothing_read = refl
