-- ===== src/Handlers/Listening.antt =====
-- A play from the request of beatstream/internal/handler/tracks.go to the tables.
use mathlib.Core.Path.{subst}
use system_design_lab.Prelude.{
  ℕ, ◌+◌, String, Bool, true, false, Option, none, some, List, [], ◌∷◌, ◌≡◌, refl, sym, ap, ◌∙◌,
  inl, inr, ◌⊎◌, eqb_iff, arith, Bool-cases, Option-cases,
}
use system_design_lab.Gin.{Ctx, param, get_header}
use system_design_lab.Database.{Db, Track, find_track, has_track}
use system_design_lab.Database.Tracks.{has_track-find_track}
use system_design_lab.Worker.Queue.{Result, done, consume}
use system_design_lab.Worker.Analytics.{
  PlayMessage, begin_tx, insert_event, update_count, commit_tx, Connection, record_play,
}
use system_design_lab.Worker.Plays.{
  count_of, events_of, plays_of, handle, mark, consume-mark, plays_counted,
}
use system_design_lab.Handlers.{Env}
use system_design_lab.Handlers.Stream.{
  Services, Answer, redirect, failure, handler_panic, Event, no_event, lost, crash, published,
  original_key, stream_key, find_key, publish_play, presigned, play_message, quality_of, stream,
}

-- The query for the format finds nothing: the id is no UUID or the quality no number, the query fails,
-- or the track has no format of the quality.
pub data Unformatted (first_fails : Bool) (id bitrate : Option ℕ) (db : Db) : Type 0 where
  no_id : id ≡ none → Unformatted first_fails id bitrate db
  no_bitrate : bitrate ≡ none → Unformatted first_fails id bitrate db
  query_fails : first_fails ≡ true → Unformatted first_fails id bitrate db
  no_format :
      (i b : ℕ)
      → id ≡ some i
      → bitrate ≡ some b
      → find_key i b db.track_formats ≡ none
      → Unformatted first_fails id bitrate db

-- The key is of the format with the quality asked for; or of the track's original, where the query for
-- the format finds nothing.
pub data Serves (first_fails second_fails : Bool) (db : Db) (id bitrate : Option ℕ) (key : String)
    : Type 0 where
  format :
      (i b : ℕ)
      → first_fails ≡ false
      → id ≡ some i
      → bitrate ≡ some b
      → find_key i b db.track_formats ≡ some key
      → Serves first_fails second_fails db id bitrate key
  original :
      (i : ℕ) (t : Track)
      → Unformatted first_fails id bitrate db
      → second_fails ≡ false
      → id ≡ some i
      → find_track i db.tracks ≡ some t
      → t.audio_key ≡ key
      → Serves first_fails second_fails db id bitrate key

original_lem :
    (second_fails : Bool) (i : ℕ) (db : Db) {key : String}
    → original_key second_fails i db ≡ some key
    → (second_fails ≡ false) × (t : Track) × (find_track i db.tracks ≡ some t) × (t.audio_key ≡ key)
original_lem true i db h = cc
original_lem false i db h = elim (Option-cases (find_track i db.tracks)) [
  | inl missing ↦ absurd (ground (arith, h, missing))
  | inr (t, e) ↦ (refl, t, e, ground (arith, h, e))
]

original-Serves :
    (first_fails second_fails : Bool) (i : ℕ) (bitrate : Option ℕ) (db : Db) {key : String}
    → Unformatted first_fails (some i) bitrate db
    → original_key second_fails i db ≡ some key
    → Serves first_fails second_fails db (some i) bitrate key
original-Serves first_fails second_fails i bitrate db why h =
    let (up, t, e, k) = original_lem second_fails i db h in original i t why up refl e k

stream_key-Serves :
    (first_fails second_fails : Bool) (id bitrate : Option ℕ) (db : Db) {key : String}
    → stream_key first_fails second_fails id bitrate db ≡ some key
    → Serves first_fails second_fails db id bitrate key
unfolding stream_key
stream_key-Serves first_fails second_fails none bitrate db h = cc
stream_key-Serves first_fails second_fails (some i) none db h =
    original-Serves first_fails second_fails i none db (no_bitrate refl) h
stream_key-Serves true second_fails (some i) (some b) db h =
    original-Serves true second_fails i (some b) db (query_fails refl) h
stream_key-Serves false second_fails (some i) (some b) db {key = key} h =
    elim (Option-cases (find_key i b db.track_formats)) [
      | inl missing ↦
          original-Serves false second_fails i (some b) db (no_format i b refl refl missing)
            (ground (arith, h, missing))
      | inr (found, e) ↦
          let same : found ≡ key = ground (arith, h, e) in
          format i b refl refl refl (e ∙ ap some same)
    ]

-- The query for the original finds nothing: the id is no UUID, the query fails, or no track has it.
abbrev pub IsMissing : Bool → Option ℕ → Db → Type 0
IsMissing second_fails id db =
    (id ≡ none)
    ⊎ ((second_fails ≡ true) ⊎ ((i : ℕ) × (id ≡ some i) × (find_track i db.tracks ≡ none)))

original-IsMissing :
    (second_fails : Bool) (i : ℕ) (db : Db)
    → original_key second_fails i db ≡ none
    → IsMissing second_fails (some i) db
original-IsMissing true i db h = inr (inl refl)
original-IsMissing false i db h = elim (Option-cases (find_track i db.tracks)) [
  | inl missing ↦ inr (inr (i, refl, missing))
  | inr (t, e) ↦ absurd (ground (arith, h, e))
]

stream_key-IsMissing :
    (first_fails second_fails : Bool) (id bitrate : Option ℕ) (db : Db)
    → stream_key first_fails second_fails id bitrate db ≡ none
    → Unformatted first_fails id bitrate db × IsMissing second_fails id db
unfolding stream_key
stream_key-IsMissing first_fails second_fails none bitrate db h = (no_id refl, inl refl)
stream_key-IsMissing first_fails second_fails (some i) none db h =
    (no_bitrate refl, original-IsMissing second_fails i db h)
stream_key-IsMissing true second_fails (some i) (some b) db h =
    (query_fails refl, original-IsMissing second_fails i db h)
stream_key-IsMissing false second_fails (some i) (some b) db h =
    elim (Option-cases (find_key i b db.track_formats)) [
      | inl missing ↦ (
        no_format i b refl refl missing,
        original-IsMissing second_fails i db (ground (arith, h, missing)),
      )
      | inr (found, e) ↦ absurd (ground (arith, h, e))
    ]

-- The answer for a key: a panic without a store, 500 where signing fails, or the signed URL.
pub data Signed (services : Services) (key : String) : Answer → Type 0 where
  no_store : services.has_store ≡ false → Signed services key handler_panic
  unsigned :
      services.has_store ≡ true
      → services.presign key ≡ none
      → Signed services key (failure 500 "could not generate stream URL")
  signed :
      (url : String)
      → services.has_store ≡ true
      → services.presign key ≡ some url
      → Signed services key (redirect url)

presigned-Signed :
    (services : Services) (key : String) → Signed services key (presigned services key)
unfolding presigned
presigned-Signed services key = elim (Bool-cases services.has_store) [
  | inr missing ↦
      let e : presigned services key ≡ handler_panic = rw (missing, presigned) in
      subst (Signed services key) (sym e) (no_store missing)
  | inl there ↦ elim (Option-cases (services.presign key)) [
    | inl bad ↦
        let e : presigned services key ≡ failure 500 "could not generate stream URL" =
          rw (there, presigned, bad) in
        subst (Signed services key) (sym e) (unsigned there bad)
    | inr (url, good) ↦
        let e : presigned services key ≡ redirect url = rw (there, presigned, good) in
        subst (Signed services key) (sym e) (signed url there good)
  ]
]

pub Signed-redirect :
    {services : Services} {key url : String} {a : Answer}
    → Signed services key a
    → a ≡ redirect url
    → services.presign key ≡ some url
Signed-redirect (no_store missing) e = cc
Signed-redirect (unsigned there bad) e = cc
Signed-redirect (signed url there good) e = good ∙ ap some (ground (arith, e))

-- What becomes of an event: without a producer it ends the process, a failing publication loses it.
pub data Published (services : Services) (ev : PlayMessage) : Event → Type 0 where
  no_producer : services.has_producer ≡ false → Published services ev crash
  refused : services.has_producer ≡ true → services.fails ≡ true → Published services ev lost
  accepted :
      services.has_producer ≡ true → services.fails ≡ false → Published services ev (published ev)

publish_play-Published :
    (services : Services) (ev : PlayMessage) → Published services ev (publish_play services ev)
unfolding publish_play
publish_play-Published services ev = elim (Bool-cases services.has_producer) [
  | inr missing ↦
      let e : publish_play services ev ≡ crash = rw (missing, publish_play) in
      subst (Published services ev) (sym e) (no_producer missing)
  | inl there ↦ elim (Bool-cases services.fails) [
    | inl bad ↦
        let e : publish_play services ev ≡ lost = rw (there, publish_play, bad) in
        subst (Published services ev) (sym e) (refused there bad)
    | inr good ↦
        let e : publish_play services ev ≡ published ev = rw (there, publish_play, good) in
        subst (Published services ev) (sym e) (accepted there good)
  ]
]

pub Published-crash :
    {services : Services} {ev : PlayMessage} {e : Event}
    → Published services ev e
    → services.has_producer ≡ false
    → e ≡ crash
Published-crash (no_producer missing) h = refl
Published-crash (refused there bad) h = cc
Published-crash (accepted there good) h = cc

Published-same :
    {services : Services} {ev m : PlayMessage} {e : Event}
    → Published services ev e
    → e ≡ published m
    → m ≡ ev
Published-same (no_producer missing) h = cc
Published-same (refused there bad) h = cc
Published-same (accepted there good) h = ground (arith, h)

module _ (services : Services) (env : Env) (cast_int : String → Option ℕ) (second_fails : Bool)
    (c : Ctx) (quality : Option String) (now : String) (db : Db) where
  abbrev key_of : Option String
  key_of =
      stream_key env.fails second_fails (env.cast (param c "id")) (cast_int (quality_of quality)) db

  -- A request whose id does not parse is answered 400, and one for which neither the query for the
  -- format nor the one for the original finds a key is answered 404, both with no event. Every other
  -- one has a key: that of the format with the quality asked for, or that of the original where the
  -- query for the format finds nothing. It is redirected to the key's signed URL, or answered 500 where
  -- signing fails, or the handler panics where there is no store; and the event of the play, with the
  -- request's id, source and time, is published, or lost where publishing fails, or ends the process
  -- where there is no producer.
  pub stream_cases :
      ((env.parses (param c "id") ≡ false)
        × (stream services env cast_int second_fails c quality now db
            ≡ (failure 400 "invalid track id", no_event)))
      ⊎ ((Unformatted env.fails (env.cast (param c "id")) (cast_int (quality_of quality)) db
            × IsMissing second_fails (env.cast (param c "id")) db
            × (stream services env cast_int second_fails c quality now db
                ≡ (failure 404 "track not found", no_event)))
          ⊎ ((key : String) × Serves env.fails second_fails db
                (env.cast (param c "id"))
                (cast_int (quality_of quality))
                key
              × Signed services key (stream services env cast_int second_fails c quality now db).0
              × Published services
                  (record {
                    track_id = param c "id";
                    source = get_header c "X-Source";
                    timestamp = now;
                  })
                  (stream services env cast_int second_fails c quality now db).1))
  unfolding stream
  stream_cases = elim (Bool-cases (env.parses (param c "id"))) [
    | inr bad ↦ inl (bad, rw (bad, stream))
    | inl good ↦ elim (Option-cases key_of) [
      | inl missing ↦
          let (unformatted, nowhere) =
            stream_key-IsMissing env.fails second_fails (env.cast (param c "id"))
              (cast_int (quality_of quality)) db missing in
          inr (inl (unformatted, nowhere, rw (good, stream, missing)))
      | inr (key, e) ↦
          let same : stream services env cast_int second_fails c quality now db
              ≡ (presigned services key, publish_play services (play_message c now)) =
            rw (good, stream, e) in
          inr (
            inr (
              key,
              stream_key-Serves env.fails second_fails (env.cast (param c "id"))
                  (cast_int (quality_of quality)) db e,
              subst (λ (r : Answer × Event). Signed services key r.0) (sym same)
                  (presigned-Signed services key),
              subst (λ (r : Answer × Event). Published services (play_message c now) r.1) (sym same)
                  (publish_play-Published services (play_message c now)),
            ))
    ]
  ]

  -- A play that is published names the track of the request.
  stream_published :
      {ev : PlayMessage}
      → (stream services env cast_int second_fails c quality now db).1 ≡ published ev
      → ev ≡ play_message c now
  stream_published {ev = ev} h = elim stream_cases [
    | inl (bad, e) ↦ absurd (ground (arith, h, e))
    | inr (inl (unformatted, missing, e)) ↦ absurd (ground (arith, h, e))
    | inr (inr (key, serves, answer, event)) ↦ Published-same event h
  ]

-- A connection whose statements do not fail.
pub record IsUp (conn : Connection) : Type 0 where
  pub begins : conn.fails begin_tx ≡ false
  pub inserts : conn.fails insert_event ≡ false
  pub updates : conn.fails update_count ≡ false
  pub commits : conn.fails commit_tx ≡ false

known_track : (id : ℕ) (db : Db) {n : ℕ} → count_of id db ≡ some n → has_track id db.tracks ≡ true
known_track id db e =
    has_track-find_track id db.tracks ∙ elim (Option-cases (find_track id db.tracks)) [
      | inl missing ↦ absurd (ground (arith, missing, e))
      | inr (t, found) ↦ rw found
    ]

handled :
    (conn : Connection) (ev : PlayMessage) (db : Db) (id : ℕ)
    → IsUp conn
    → conn.cast ev.track_id ≡ some id
    → has_track id db.tracks ≡ true
    → (handle (conn, ev) db).0 ≡ done
unfolding record_play
handled conn ev db id up names there =
    rw (up.begins, record_play, names, up.inserts, there, up.updates, up.commits)

mark_done :
    (d : Connection × PlayMessage) (r : Result) (rest : List (Connection × PlayMessage) × Db)
    → r ≡ done
    → mark d r rest ≡ (d ∷ rest.0, rest.1)
mark_done d r rest e = rw e

consume_one :
    (conn : Connection) (ev : PlayMessage) (db : Db) (id : ℕ)
    → IsUp conn
    → conn.cast ev.track_id ≡ some id
    → has_track id db.tracks ≡ true
    → (consume handle ((conn, ev) ∷ []) db).0 ≡ (conn, ev) ∷ []
unfolding consume
consume_one conn ev db id up names there =
    ap (λ r. r.0)
      (consume-mark (conn, ev) [] db
        ∙ mark_done (conn, ev) (handle (conn, ev) db).0 (consume handle [] (handle (conn, ev) db).1)
            (handled conn ev db id up names there))

-- When the event of a stream is published and the analytics worker handles it, with statements that
-- do not fail, the play count of the track that the request named and its rows in play_events both
-- grow by one.
pub stream_counted :
    (services : Services) (env : Env) (cast_int : String → Option ℕ) (second_fails : Bool) (c : Ctx)
    (quality : Option String) (now : String) (db : Db) (conn : Connection) (ev : PlayMessage)
    (id n : ℕ)
    → (stream services env cast_int second_fails c quality now db).1 ≡ published ev
    → conn.cast (param c "id") ≡ some id
    → IsUp conn
    → count_of id db ≡ some n
    → let db' = (consume handle ((conn, ev) ∷ []) db).1 in
      (count_of id db' ≡ some (n + 1))
      × (events_of id db'.play_events ≡ events_of id db.play_events + 1)
stream_counted services env cast_int second_fails c quality now db conn ev id n h names up e =
    let same = stream_published services env cast_int second_fails c quality now db h in
    let named : conn.cast ev.track_id ≡ some id = ap (λ m. conn.cast m.track_id) same ∙ names in
    let there : has_track id db.tracks ≡ true = known_track id db e in
    let marked = consume_one conn ev db id up named there in
    let (count, events) = plays_counted id n ((conn, ev) ∷ []) db e in
    let one : plays_of id ((conn, ev) ∷ []) ≡ 1 = rw (named, (eqb_iff id id).1 refl) in
    (
      count ∙ ap some (omega (arith, ap (plays_of id) marked, one)),
      omega (arith, events, ap (plays_of id) marked, one),
    )
