-- ===== src/App/System.antt =====
-- The whole of beatstream: the server of cmd/api/main.go and the two workers of cmd/worker/main.go,
-- which share the tables and the object store, as steps in any order.
use mathlib.Core.Path.{subst}
use system_design_lab.Prelude.{
  ℕ, String, Bool, not, List, [], ◌≡◌, refl, sym, inl, inr, ◌||◌, Bool-cases, Option-cases,
}
use system_design_lab.Gin.{Ctx}
use system_design_lab.Middleware.Audit.{Outcome, responded, panicked, audit_row, is_read}
use system_design_lab.Database.{has_track}
use system_design_lab.Worker.Upload.{UploadEvent, Outside, Store, process}
use system_design_lab.Worker.Analytics.{
  PlayMessage, Connection, begin_tx, insert_event, update_count, commit_tx, one_play, record_play,
}
use system_design_lab.Handlers.Releases.{store_of}
use system_design_lab.Api.{Guard, Handler, Route}
use system_design_lab.Api.Stack.{respond}
use system_design_lab.App.{Site, Input, State, server, set_db, insert_log, connected}
use system_design_lab.App.Kept.{IsKept, Effect, created, kept, dispatch-Effect, insert_log-IsKept}
use system_design_lab.App.Serving.{Ends, stopped, handled, Passes-uploads}
use system_design_lab.App.Routing.{Answered, untouched, routed, logged, respond-Answered}
use system_design_lab.App.Audio.{IsServable, create-IsServable, update-IsServable}
use system_design_lab.App.Transcoding.{process-IsServed}

module _ {F : Type 0} (site : Site F) where
  abbrev pub set_store : State site → Store → State site
  set_store w s = record w { uploads = record (w.uploads) { db = s.db; objects = s.objects } }

  abbrev pause : ℕ → State site → State site
  pause n w = record w {
    rows = site.rows.wait n w.rows;
    answers = site.answers.wait n w.answers;
    buckets = site.buckets.wait n w.buckets;
    counters = site.counters.wait n w.counters;
  }

  -- A request that is served, a delivery to one of the workers, or a pause. A delivery may be of any
  -- event, more than once and at any time, and each of its statements may fail, but it runs to its end.
  pub data Step (w : State site) : State site → Type 0 where
    request :
        (i : Input) (ping_fails : Bool) (c : Ctx) (status : ℕ) (c' : Ctx) (w' : State site)
        → respond (server site i) ping_fails c w ≡ responded status c' w'
        → Step w w'
    upload :
        (out : Outside) (ev : UploadEvent)
        → Step w (set_store w (process out ev (store_of w.uploads)).1)
    play :
        (conn : Connection) (ev : PlayMessage)
        → Step w (set_db site w (record_play conn ev w.uploads.db).1)
    wait : (n : ℕ) → Step w (pause n w)

  -- Before the first upload.
  pub record IsFresh (w : State site) : Type 0 where
    pub no_tracks : w.uploads.db.tracks ≡ []
    pub no_formats : w.uploads.db.track_formats ≡ []

  pub data Reach : State site → Type 0 where
    start : (w : State site) → IsFresh w → Reach w
    step : (w w' : State site) → Reach w → Step w w' → Reach w'

  abbrev pub IsSound : State site → Type 0
  IsSound w = IsServable w.uploads.objects w.uploads.db

  IsKept-IsSound :
      (w w' : State site)
      → IsKept w.uploads.db w'.uploads.db
      → w'.uploads.objects ≡ w.uploads.objects
      → IsSound w
      → IsSound w'
  IsKept-IsSound w w' k o h = record {
    audio = rw (o, k.tracks) h.audio;
    keys = rw (o, k.formats) h.keys;
    complete = rw (k.tracks, k.formats) h.complete;
    known = rw k.tracks h.known;
  }

  Effect-IsSound : (i : Input) {w w' : State site} → Effect site i w w' → IsSound w → IsSound w'
  Effect-IsSound i {w = w} (created w' e) h =
      subst (λ u. IsServable u.objects u.db) (sym e)
        (create-IsServable i.env (connected i) i.uuid i.form w.uploads h)
  Effect-IsSound i {w = w} (kept w' k o) h = IsKept-IsSound w w' k o h

  same_uploads-IsSound : (w w' : State site) → w'.uploads ≡ w.uploads → IsSound w → IsSound w'
  same_uploads-IsSound w w' e h = subst (λ u. IsServable u.objects u.db) (sym e) h

  Ends-IsSound :
      (i : Input) {gs : List Guard} {h : Handler} {c : Ctx} {w : State site}
      {o : ℕ × Ctx × State site}
      → Ends site i gs h c w o
      → IsSound w
      → IsSound o.2
  Ends-IsSound i {w = w} (stopped status c' w' follows e) sound = same_uploads-IsSound w w' e sound
  Ends-IsSound i {h = h} {w = w} (handled c' w' passes) sound =
      Effect-IsSound i (dispatch-Effect site i h c' w')
        (same_uploads-IsSound w w' (Passes-uploads site i passes) sound)

  logged-IsSound :
      (i : Input) (r : Route) (action : String) (status : ℕ) (c' : Ctx) (w' : State site)
      → IsSound w'
      → IsSound (logged site i r action (status, c', w'))
  logged-IsSound i r action status c' w' h = elim (Bool-cases (is_read r.method)) [
    | inl reads ↦ rw reads h
    | inr writes ↦
        let row = audit_row c' status action in
        let w'' = set_db site w' (insert_log i.audit_fails i.env.cast row w'.uploads.db) in
        rw writes (
          IsKept-IsSound w' w'' (insert_log-IsKept i.audit_fails i.env.cast row w'.uploads.db) refl
            h)
  ]

  abbrev IsSoundOutcome : Outcome (State site) → Type 0
  IsSoundOutcome (responded status c w) = IsSound w
  IsSoundOutcome panicked = Unit {0}

  Answered-IsSound :
      (i : Input) (c : Ctx) (w : State site) {o : Outcome (State site)}
      → Answered site i c w o
      → IsSound w
      → IsSoundOutcome o
  Answered-IsSound i c w (untouched status quiet) h = h
  Answered-IsSound i c w (routed r action status c' w' m named ends) h =
      logged-IsSound i r action status c' w' (Ends-IsSound i ends h)

  record_play-IsServable :
      (conn : Connection) (ev : PlayMessage) (w : State site)
      → IsSound w
      → IsServable w.uploads.objects (record_play conn ev w.uploads.db).1
  unfolding record_play
  record_play-IsServable conn ev w h = elim (Bool-cases (conn.fails begin_tx)) [
    | inl down ↦ rw (down, record_play) h
    | inr begun ↦ elim (Option-cases (conn.cast ev.track_id)) [
      | inl unread ↦ rw (begun, record_play, unread) h
      | inr (id, names) ↦
          elim (Bool-cases (conn.fails insert_event || not (has_track id w.uploads.db.tracks))) [
            | inl refused ↦ rw (begun, record_play, names, refused) h
            | inr inserted ↦ elim (Bool-cases (conn.fails update_count)) [
              | inl lost ↦ rw (begun, record_play, names, inserted, lost) h
              | inr counted ↦ elim (Bool-cases (conn.fails commit_tx)) [
                | inl rolled ↦ rw (begun, record_play, names, inserted, counted, rolled) h
                | inr committed ↦
                    let more =
                      update-IsServable w.uploads.objects w.uploads.db id one_play h (λ t. refl)
                        (λ t e c. c) (λ t a. a) in
                    rw (begun, record_play, names, inserted, counted, committed)
                      (record {
                        audio = more.audio;
                        keys = more.keys;
                        complete = more.complete;
                        known = more.known;
                      })
              ]
            ]
          ]
    ]
  ]

  Step-IsSound : {w w' : State site} → Step w w' → IsSound w → IsSound w'
  Step-IsSound {w = w} (request i ping_fails c status c' w' e) h =
      subst IsSoundOutcome e (Answered-IsSound i c w (respond-Answered site i ping_fails c w) h)
  Step-IsSound {w = w} (upload out ev) h = process-IsServed out ev (store_of w.uploads) h
  Step-IsSound {w = w} (play conn ev) h = record_play-IsServable conn ev w h
  Step-IsSound (wait n) h = h

  IsFresh-IsSound : (w : State site) → IsFresh w → IsSound w
  IsFresh-IsSound w h = record {
    audio = rw h.no_tracks refl;
    keys = rw h.no_formats refl;
    complete = rw h.no_tracks refl;
    known = rw h.no_tracks refl;
  }

  -- From before the first upload on, through any requests and any deliveries to the two workers in any
  -- order, wherever their statements fail: there is an object behind every track and every format of
  -- the tables, every track that is ready has the formats of all three bitrates, and the status of every
  -- track is pending, processing, ready or error.
  pub Reach-IsSound : (w : State site) → Reach w → IsSound w
  Reach-IsSound w (start _ fresh) = IsFresh-IsSound w fresh
  Reach-IsSound w (step before _ r s) = Step-IsSound s (Reach-IsSound before r)
