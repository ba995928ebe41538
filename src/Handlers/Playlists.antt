-- ===== src/Handlers/Playlists.antt =====
-- beatstream/internal/handler/playlists.go.
use system_design_lab.Prelude.{
  ℕ, String, Bool, true, false, Option, none, some, List, [], ◌∷◌, map, length, take, eqb, ltb,
  ◌==◌, text_eq, if◌then◌else◌, ◌||◌, ◌&&◌, not,
}
use system_design_lab.Gin.{Ctx, get_key, as_string, param}
use system_design_lab.Database.{Db, Track, Playlist, PlaylistTrack, has_track}
use system_design_lab.Handlers.{
  Env, Reply, reply, problem, no_content, required, TrackRow, track_row, order_by, select, any,
  join_tracks,
}

pub record PlaylistRow : Type 0 where
  pub id : ℕ
  pub name : String
  pub created_at : ℕ

abbrev pub playlist_row : Playlist → PlaylistRow
playlist_row p = record { id = p.id; name = p.name; created_at = p.created_at }

abbrev newer : Playlist → Playlist → Bool
newer p q = ltb q.created_at p.created_at

unfoldable pub list : Env → Db → Reply (List PlaylistRow)
list env db =
    if env.fails
    then problem 500 "failed to list playlists"
    else reply 200 (map playlist_row (take 100 (order_by newer db.playlists)))

unfoldable pub find_playlist : ℕ → List Playlist → Option Playlist
find_playlist id [] = none
find_playlist id (p ∷ ps) = let rest = find_playlist id ps in if eqb p.id id then some p else rest

abbrev found : Option Playlist → Reply PlaylistRow
found none = problem 404 "playlist not found"
found (some p) = reply 200 (playlist_row p)

unfoldable pub get : Env → Ctx → Db → Reply PlaylistRow
unfolding find_playlist
get env c db =
    if not (env.parses (param c "id"))
    then problem 400 "invalid playlist id"
    else if env.fails
    then problem 404 "playlist not found"
    else elim (env.cast (param c "id")) [
      | none ↦ problem 404 "playlist not found"
      | some id ↦ found (find_playlist id db.playlists)
    ]

-- The statement names no owner: the column is NULL.
unfoldable pub create : Env → Option String → Db → Reply PlaylistRow × Db
create env body db = elim (required body) [
  | none ↦ (problem 400 "name is required", db)
  | some name ↦
      if env.fails || any (λ p. eqb p.id env.new_id) db.playlists
      then (problem 500 "failed to create playlist", db)
      else let p : Playlist = record {
        id = env.new_id;
        name = name;
        owner_id = none;
        created_at = env.now;
      } in
        (reply 201 (playlist_row p), record db { playlists = p ∷ db.playlists })
]

abbrev pub earlier : PlaylistTrack → PlaylistTrack → Bool
earlier p q = ltb p.position q.position || (eqb p.position q.position && ltb p.added_at q.added_at)

abbrev pub is_entry : ℕ → ℕ → PlaylistTrack → Bool
is_entry playlist track e = eqb e.playlist_id playlist && eqb e.track_id track

-- `(SELECT added_at FROM playlist_tracks ...)`, NULL without a row.
unfoldable pub added_at : ℕ → ℕ → List PlaylistTrack → Option ℕ
added_at playlist track [] = none
added_at playlist track (e ∷ es) =
    let rest = added_at playlist track es in
    if is_entry playlist track e then some e.added_at else rest

-- The rows after the cursor; a comparison with NULL holds for none.
abbrev pub is_after : Option ℕ → PlaylistTrack → Bool
is_after none e = false
is_after (some t) e = ltb t e.added_at

pub record Page : Type 0 where
  pub items : List TrackRow
  pub next_cursor : Option ℕ
  pub has_more : Bool

abbrev pub last_id : List TrackRow → Option ℕ
last_id [] = none
last_id (r ∷ []) = some r.id
last_id (r ∷ s ∷ rs) = last_id (s ∷ rs)

-- What is sent of the limit's rows and one more. The query leaves `status` empty.
unfoldable pub page : List Track → Page
page ts =
    let rows = map (track_row "") ts in
    if ltb 50 (length rows)
    then record { items = take 50 rows; next_cursor = last_id (take 50 rows); has_more = true }
    else record { items = rows; next_cursor = none; has_more = false }

-- `rest` are the rows of the playlist that the query keeps.
abbrev pub read_page : Db → List PlaylistTrack → Page
read_page db rest = page (take 51 (join_tracks (λ e. e.track_id) db.tracks (order_by earlier rest)))

-- An id or a cursor that is no UUID fails after Query has returned, which is not looked at: no row
-- comes.
unfoldable pub list_tracks : Env → Ctx → String → Db → Reply Page
unfolding page added_at
list_tracks env c after db =
    if env.fails then problem 500 "failed to list tracks" else elim (env.cast (param c "id")) [
      | none ↦ reply 200 (page [])
      | some id ↦
          let entries = select (λ e. eqb e.playlist_id id) db.playlist_tracks in
          if after == "" then reply 200 (read_page db entries) else elim (env.cast after) [
            | none ↦ reply 200 (page [])
            | some track ↦
                reply 200
                  (read_page db (select (is_after (added_at id track db.playlist_tracks)) entries))
          ]
    ]

-- `INSERT ... ON CONFLICT DO NOTHING`: the row refers to a playlist and to a track.
unfoldable pub insert_entry : Env → ℕ → ℕ → Db → Reply Unit × Db
insert_entry env playlist track db =
    if any (is_entry playlist track) db.playlist_tracks
    then (no_content, db)
    else if any (λ p. eqb p.id playlist) db.playlists && has_track track db.tracks
    then (
      no_content,
      record db {
        playlist_tracks =
            record { playlist_id = playlist; track_id = track; position = 0; added_at = env.now }
            ∷ db.playlist_tracks;
      },
    )
    else (problem 500 "failed to add track", db)

unfoldable pub add_track : Env → Ctx → Option String → Db → Reply Unit × Db
unfolding insert_entry
add_track env c body db = elim (required body) [
  | none ↦ (problem 400 "track_id is required", db)
  | some text ↦
      if env.fails
      then (problem 500 "failed to add track", db)
      else elim (env.cast (param c "id")) [
        | none ↦ (problem 500 "failed to add track", db)
        | some playlist ↦ elim (env.cast text) [
          | none ↦ (problem 500 "failed to add track", db)
          | some track ↦ insert_entry env playlist track db
        ]
      ]
]

abbrev is_owner : Option ℕ → ℕ → Bool
is_owner none uid = false
is_owner (some owner) uid = eqb owner uid

abbrev pub is_owned : ℕ → ℕ → Playlist → Bool
is_owned id uid p = eqb p.id id && is_owner p.owner_id uid

-- The rows go with their playlist: `ON DELETE CASCADE`.
unfoldable pub delete_owned : ℕ → ℕ → Db → Reply Unit × Db
delete_owned id uid db =
    if any (is_owned id uid) db.playlists
    then (
      no_content,
      record db {
        playlists = select (λ p. not (is_owned id uid p)) db.playlists;
        playlist_tracks = select (λ e. not (eqb e.playlist_id id)) db.playlist_tracks;
      },
    )
    else (problem 404 "playlist not found", db)

unfoldable pub delete : Env → Ctx → Db → Reply Unit × Db
unfolding delete_owned
delete env c db =
    if not (env.parses (param c "id"))
    then (problem 400 "invalid playlist id", db)
    else if env.fails
    then (problem 500 "failed to delete playlist", db)
    else elim (env.cast (param c "id")) [
      | none ↦ (problem 500 "failed to delete playlist", db)
      | some id ↦ elim (env.cast (as_string (get_key c "user_id"))) [
        | none ↦ (problem 500 "failed to delete playlist", db)
        | some uid ↦ delete_owned id uid db
      ]
    ]

unfoldable pub remove_track : Env → Ctx → Db → Reply Unit × Db
remove_track env c db =
    if env.fails
    then (problem 500 "failed to remove track", db)
    else elim (env.cast (param c "id")) [
      | none ↦ (problem 500 "failed to remove track", db)
      | some playlist ↦ elim (env.cast (param c "track_id")) [
        | none ↦ (problem 500 "failed to remove track", db)
        | some track ↦ (
          no_content,
          record db {
            playlist_tracks = select (λ e. not (is_entry playlist track e)) db.playlist_tracks;
          },
        )
      ]
    ]
