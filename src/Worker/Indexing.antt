-- ===== src/Worker/Indexing.antt =====
-- The end of `process` in beatstream/internal/worker/upload.go: the document for the search index.
use system_design_lab.Prelude.{
  ℕ, String, Bool, false, Option, none, some, List, [], ◌∷◌, eqb, ◌==◌, text_eq, if◌then◌else◌,
}
use system_design_lab.Database.{Db, Track, Artist, find_track}
use system_design_lab.Search.{TrackDocument}
use system_design_lab.Worker.Queue.{done, failed}
use system_design_lab.Worker.Upload.{UploadEvent, Outside, Store, process}

-- `JOIN artists a ON a.id = t.artist_id`
unfoldable pub artist_name : ℕ → List Artist → Option String
artist_name id [] = none
artist_name id (a ∷ as') =
    let rest = artist_name id as' in if eqb a.id id then some a.name else rest

-- The title and the artist's name, both empty where the query fails or finds no row.
unfoldable pub names_of : Bool → ℕ → Db → String × String
unfolding artist_name
names_of fails id db = if fails then ("", "") else elim (find_track id db.tracks) [
  | none ↦ ("", "")
  | some t ↦ elim (artist_name t.artist_id db.artists) [
    | none ↦ ("", "")
    | some name ↦ (t.title, name)
  ]
]

-- The document of a track; none for an empty title.
unfoldable pub document : Bool → UploadEvent → ℕ → Db → Option TrackDocument
unfolding names_of
document fails ev id db =
    let (title, artist) = names_of fails id db in
    if title == ""
    then none
    else some (record {
      id = ev.track_id;
      title = title;
      artist_name = artist;
      play_count = 0;
      status = "ready";
    })

-- Whether `process` has come past the test that skips a track that is not pending.
abbrev pub was_pending : Option Track → Bool
was_pending none = false
was_pending (some t) = t.status == "pending"

-- What `process` sends to the index, with a client, after the store is as it leaves it; the error of
-- the client is dropped.
unfoldable pub indexed : Bool → Outside → UploadEvent → Store → Option TrackDocument
unfolding document
indexed fails out ev s =
    let (result, s') = process out ev s in
    elim result [
      | failed message ↦ none
      | done ↦ elim (out.cast ev.track_id) [
        | none ↦ none
        | some id ↦
            if was_pending (find_track id s.db.tracks) then document fails ev id s'.db else none
      ]
    ]
