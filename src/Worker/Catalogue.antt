-- ===== src/Worker/Catalogue.antt =====
-- Which tracks beatstream/internal/worker/upload.go puts into the search index.
use mathlib.Core.Option
use text.Mathlib.TextEquality.{eq_iff}
use system_design_lab.Prelude.{
  ℕ, String, Bool, true, false, none, some, ◌≡◌, refl, sym, ap, ◌∙◌, inl, inr, ◌⊎◌, ◌==◌, text_eq,
  arith, Bool-cases, Option-cases,
}
use system_design_lab.Database.{Db, Track, find_track}
use system_design_lab.Search.{TrackDocument}
use system_design_lab.Worker.Queue.{done, failed, Result-cases}
use system_design_lab.Worker.Upload.{
  UploadEvent, check_status, set_processing, Outside, Store, process,
}
use system_design_lab.Worker.Pipeline.{status_of, Starts, process_ready}
use system_design_lab.Worker.Indexing.{artist_name, names_of, document, indexed}

-- The document is of this track.
pub record IsListed (ev : UploadEvent) (t : Track) (doc : TrackDocument) : Type 0 where
  pub same_id : doc.id ≡ ev.track_id
  pub same_title : doc.title ≡ t.title
  pub is_ready : doc.status ≡ "ready"

names_of_cases :
    (fails : Bool) (id : ℕ) (db : Db)
    → (names_of fails id db ≡ ("", ""))
      ⊎ ((t : Track) × (name : String) × (find_track id db.tracks ≡ some t)
          × (names_of fails id db ≡ (t.title, name)))
unfolding names_of
names_of_cases true id db = inl refl
names_of_cases false id db = elim (Option-cases (find_track id db.tracks)) [
  | inl missing ↦ inl (rw (missing, names_of))
  | inr (t, e) ↦ elim (Option-cases (artist_name t.artist_id db.artists)) [
    | inl nobody ↦ inl (rw (e, names_of, nobody))
    | inr (name, artist) ↦ inr (t, name, e, rw (e, names_of, artist))
  ]
]

some_inj : {A : Type 0} {a b : A} → some a ≡ some b → a ≡ b
some_inj h = cc

document-IsListed :
    (fails : Bool) (ev : UploadEvent) (id : ℕ) (db : Db) {doc : TrackDocument}
    → document fails ev id db ≡ some doc
    → (t : Track) × (find_track id db.tracks ≡ some t) × IsListed ev t doc
unfolding document
document-IsListed fails ev id db h = elim (names_of_cases fails id db) [
  | inl e ↦ let nothing : document fails ev id db ≡ none = rw (e, document) in cc (nothing, h)
  | inr (t, name, found, e) ↦ elim (Bool-cases (t.title == "")) [
    | inl untitled ↦
        let nothing : document fails ev id db ≡ none = rw (e, document, untitled) in cc (nothing, h)
    | inr titled ↦
        let listed : document fails ev id db
            ≡ some (record {
              id = ev.track_id;
              title = t.title;
              artist_name = name;
              play_count = 0;
              status = "ready";
            }) =
          rw (e, document, titled) in
        (
          t,
          found,
          rw (sym (some_inj (sym listed ∙ h)))
              (record { same_id = refl; same_title = refl; is_ready = refl }),
        )
  ]
]

-- A delivery that succeeds on a pending track has come past its first two statements.
done-Starts :
    (out : Outside) (ev : UploadEvent) (id : ℕ) (t : Track) (s : Store)
    → out.cast ev.track_id ≡ some id
    → find_track id s.db.tracks ≡ some t
    → (t.status == "pending") ≡ true
    → (process out ev s).0 ≡ done
    → Starts out ev id t s
unfolding process
done-Starts out ev id t s names found pending h = elim (Bool-cases (out.fails check_status)) [
  | inl unread ↦ absurd (ground (arith, h, unread))
  | inr checked ↦ elim (Bool-cases (out.fails set_processing)) [
    | inl refused ↦ absurd (ground (arith, h, checked, names, found, pending, refused))
    | inr claimed ↦ record {
      names = names;
      checked = checked;
      found = found;
      pending = (eq_iff t.status "pending").0 pending;
      claimed = claimed;
    }
  ]
]

nothing_sent :
    (fails : Bool) (out : Outside) (ev : UploadEvent) (s : Store) {message : String}
    → (process out ev s).0 ≡ failed message
    → indexed fails out ev s ≡ none
unfolding indexed
nothing_sent fails out ev s e = rw (e, indexed) refl

-- What has happened where a document is sent.
sent_cases :
    (fails : Bool) (out : Outside) (ev : UploadEvent) (s : Store) {doc : TrackDocument}
    → indexed fails out ev s ≡ some doc
    → (id : ℕ) × (t : Track) × Starts out ev id t s
      × ((process out ev s).0 ≡ done)
      × (document fails ev id (process out ev s).1.db ≡ some doc)
unfolding indexed
sent_cases fails out ev s {doc = doc} h = elim (Result-cases (process out ev s).0) [
  | inr (message, e) ↦ cc (nothing_sent fails out ev s e, h)
  | inl succeeded ↦ elim (Option-cases (out.cast ev.track_id)) [
    | inl unread ↦
        let nothing : indexed fails out ev s ≡ none = rw (succeeded, indexed, unread) refl in
        cc (nothing, h)
    | inr (id, names) ↦ elim (Option-cases (find_track id s.db.tracks)) [
      | inl missing ↦
          let nothing : indexed fails out ev s ≡ none =
            rw (succeeded, indexed, names, missing) refl in
          cc (nothing, h)
      | inr (t, found) ↦ elim (Bool-cases (t.status == "pending")) [
        | inr other ↦
            let nothing : indexed fails out ev s ≡ none =
              rw (succeeded, indexed, names, found, other) refl in
            cc (nothing, h)
        | inl pending ↦
            let same : indexed fails out ev s ≡ document fails ev id (process out ev s).1.db =
              rw (succeeded, indexed, names, found, pending) refl in
            (
              id,
              t,
              done-Starts out ev id t s names found pending succeeded,
              succeeded,
              sym same ∙ h,
            )
      ]
    ]
  ]
]

-- A document for the search index is only sent of a track that is then in the table, ready, with the
-- id of the event and its title.
pub indexed_ready :
    (fails : Bool) (out : Outside) (ev : UploadEvent) (s : Store) {doc : TrackDocument}
    → indexed fails out ev s ≡ some doc
    → (id : ℕ) × (t : Track) × (out.cast ev.track_id ≡ some id)
      × (find_track id (process out ev s).1.db.tracks ≡ some t)
      × (t.status ≡ "ready")
      × IsListed ev t doc
indexed_ready fails out ev s h =
    let (id, t, starts, succeeded, sent) = sent_cases fails out ev s h in
    let (t', found, listed) = document-IsListed fails ev id (process out ev s).1.db sent in
    let status : status_of id (process out ev s).1 ≡ some "ready" =
      process_ready out ev id t s starts succeeded in
    let ready : some t'.status ≡ some "ready" =
      sym (ap (Option.map (λ t. t.status)) found) ∙ status in
    (id, t', starts.names, found, some_inj ready, listed)
