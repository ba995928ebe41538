-- ===== src/App/Audio.antt =====
-- The audio behind the tracks: what the upload of beatstream/internal/handler/tracks.go and
-- beatstream/internal/worker/upload.go keep true of tables and objects.
use mathlib.Core.Path.{subst}
use system_design_lab.Prelude.{
  ℕ, String, Bool, true, not, List, [], ◌∷◌, all, ◌≡◌, refl, sym, ap, ◌∙◌, inl, inr, eqb_iff, ◌==◌,
  text_eq, ◌&&◌, ◌||◌, arith, ==-refl,
}
use system_design_lab.Prelude.Assoc.{Assoc, get, put, get-put, is_some}
use system_design_lab.Database.{Db, Track, TrackFormat, update_track}
use system_design_lab.Worker.Upload.{upsert_format}
use system_design_lab.Worker.Rows.{has_row}
use system_design_lab.Worker.Formats.{stored}
use system_design_lab.Handlers.{Env, Reply, TrackRow}
use system_design_lab.Handlers.Stream.{find_key}
use system_design_lab.Handlers.Tracks.{Failures, Form, Uploads, create, new_track, audio_key}
use system_design_lab.Handlers.Releases.{
  Ending, refused, unqueued, unpublished, accepted, create-Ending,
}

-- A track has the formats of the three bitrates.
abbrev pub has_formats : ℕ → List TrackFormat → Bool
has_formats id fs =
    is_some (find_key id 64 fs) && (is_some (find_key id 128 fs) && is_some (find_key id 320 fs))

abbrev pub is_stored : Assoc String (List ℕ) → String → Bool
is_stored objects key = is_some (get objects key)

abbrev pub is_complete : List TrackFormat → Track → Bool
is_complete fs t = not (t.status == "ready") || has_formats t.id fs

-- One of the four statuses that the code writes.
abbrev pub is_status : String → Bool
is_status s = s == "pending" || (s == "processing" || (s == "ready" || s == "error"))

-- There is an object behind each track and behind each format, a track that is ready has the formats
-- of the three bitrates, and the status of a track is one of the four.
pub record IsServable (objects : Assoc String (List ℕ)) (db : Db) : Type 0 where
  pub audio : all (λ t. is_stored objects t.audio_key) db.tracks ≡ true
  pub keys : all (λ f. is_stored objects f.s3_key) db.track_formats ≡ true
  pub complete : all (is_complete db.track_formats) db.tracks ≡ true
  pub known : all (λ t. is_status t.status) db.tracks ≡ true

pub all_weaken :
    {A : Type 0} (p q : A → Bool) (as' : List A)
    → ((a : A) → p a ≡ true → q a ≡ true)
    → all p as' ≡ true
    → all q as' ≡ true
all_weaken p q [] h a = refl
all_weaken p q (x ∷ as') h a = ground (arith, a, h x, all_weaken p q as' h)

all-update_track :
    (p q : Track → Bool) (f : Track → Track) (id : ℕ) (ts : List Track)
    → ((t : Track) → p t ≡ true → q t ≡ true)
    → ((t : Track) → t.id ≡ id → p t ≡ true → q (f t) ≡ true)
    → all p ts ≡ true
    → all q (update_track id f ts) ≡ true
unfolding update_track
all-update_track p q f id [] h k a = refl
all-update_track p q f id (t ∷ ts) h k a =
    ground (arith, a, h t, k t, eqb_iff t.id id, all-update_track p q f id ts h k)

pub is_stored-put :
    (objects : Assoc String (List ℕ)) (k j : String) (v : List ℕ)
    → is_stored objects j ≡ true
    → is_stored (put objects k v) j ≡ true
is_stored-put objects k j v h = ground (arith, get-put objects k j v, h)

pub is_stored-put_self :
    (objects : Assoc String (List ℕ)) (k : String) (v : List ℕ)
    → is_stored (put objects k v) k ≡ true
is_stored-put_self objects k v = ground (arith, get-put objects k k v, ==-refl k)

pub all-upsert_format :
    (objects : Assoc String (List ℕ)) (id b : ℕ) (key : String) (size : ℕ) (fs : List TrackFormat)
    → is_stored objects key ≡ true
    → all (λ f. is_stored objects f.s3_key) fs ≡ true
    → all (λ f. is_stored objects f.s3_key) (upsert_format id b key size fs) ≡ true
unfolding upsert_format
all-upsert_format objects id b key size [] k h = ground (arith, k)
all-upsert_format objects id b key size (f ∷ fs) k h =
    ground (arith, k, h, all-upsert_format objects id b key size fs k)

pub find_key-upsert_format :
    (id b j a : ℕ) (key : String) (size : ℕ) (fs : List TrackFormat)
    → is_some (find_key j a fs) ≡ true
    → is_some (find_key j a (upsert_format id b key size fs)) ≡ true
unfolding upsert_format find_key
find_key-upsert_format id b j a key size [] h = cc
find_key-upsert_format id b j a key size (f ∷ fs) h =
    ground (arith, h, find_key-upsert_format id b j a key size fs)

pub find_key-has_row :
    (id b : ℕ) (key : String) (size : ℕ) (fs : List TrackFormat)
    → has_row id b key size fs ≡ true
    → is_some (find_key id b fs) ≡ true
unfolding find_key
find_key-has_row id b key size [] h = cc
find_key-has_row id b key size (f ∷ fs) h = ground (arith, h, find_key-has_row id b key size fs)

module _ (objects : Assoc String (List ℕ)) (db : Db) (h : IsServable objects db) where
  pub put-IsServable : (key : String) (v : List ℕ) → IsServable (put objects key v) db
  put-IsServable key v = record {
    audio =
        all_weaken (λ t. is_stored objects t.audio_key)
          (λ t. is_stored (put objects key v) t.audio_key) db.tracks
          (λ t. is_stored-put objects key t.audio_key v) h.audio;
    keys =
        all_weaken (λ f. is_stored objects f.s3_key) (λ f. is_stored (put objects key v) f.s3_key)
          db.track_formats (λ f. is_stored-put objects key f.s3_key v) h.keys;
    complete = h.complete;
    known = h.known;
  }

-- A new track that is pending, with its audio.
add-IsServable :
    (objects : Assoc String (List ℕ)) (db : Db) (t : Track)
    → IsServable objects db
    → is_stored objects t.audio_key ≡ true
    → t.status ≡ "pending"
    → IsServable objects (record db { tracks = t ∷ db.tracks })
add-IsServable objects db t h stored waiting = record {
  audio = ground (arith, h.audio, stored);
  keys = h.keys;
  complete = ground (arith, h.complete, ap (λ s. s == "ready") waiting);
  known = ground (arith, h.known, ap is_status waiting);
}

-- The audio and the pending track that an upload adds.
new-IsServable :
    (env : Env) (text title : String) (artist : ℕ) (audio : List ℕ) (s : Uploads)
    → IsServable s.objects s.db
    → IsServable
        (put s.objects (audio_key text) audio)
        (record (s.db) { tracks = new_track env text title artist ∷ s.db.tracks })
new-IsServable env text title artist audio s h =
    add-IsServable (put s.objects (audio_key text) audio) s.db (new_track env text title artist)
      (put-IsServable s.objects s.db h (audio_key text) audio)
      (is_stored-put_self s.objects (audio_key text) audio) refl

Ending-IsServable :
    (env : Env) (text : String) (form : Form) (s s' : Uploads) {failures : Failures}
    {answer : Reply TrackRow}
    → IsServable s.objects s.db
    → Ending env failures text form s answer s'
    → IsServable s'.objects s'.db
Ending-IsServable env text form s s' h (refused status message s'' e p (inl same)) =
    subst (λ db. IsServable s'.objects db) (sym e) (subst (λ o. IsServable o s.db) (sym same) h)
Ending-IsServable env text form s s' h (refused status message s'' e p (inr (audio, more))) =
    subst (λ db. IsServable s'.objects db) (sym e)
      (subst (λ o. IsServable o s.db) (sym more)
        (put-IsServable s.objects s.db h (audio_key text) audio))
Ending-IsServable env text form s s' h (unqueued artist audio mute) =
    new-IsServable env text form.title artist audio s h
Ending-IsServable env text form s s' h (unpublished artist audio) =
    new-IsServable env text form.title artist audio s h
Ending-IsServable env text form s s' h (accepted artist audio given) =
    new-IsServable env text form.title artist audio s h

-- An upload leaves a servable state.
pub create-IsServable :
    (env : Env) (failures : Failures) (text : String) (form : Form) (s : Uploads)
    → IsServable s.objects s.db
    → let s' = (create env failures text form s).1 in IsServable s'.objects s'.db
create-IsServable env failures text form s h =
    let (answer, s') = create env failures text form s in
    Ending-IsServable env text form s s' h (create-Ending env failures text form s)

-- A change of one track that keeps its id and audio, and makes it ready only with its formats.
pub update-IsServable :
    (objects : Assoc String (List ℕ)) (db : Db) (id : ℕ) (f : Track → Track)
    → IsServable objects db
    → ((t : Track) → (f t).audio_key ≡ t.audio_key)
    → ((t : Track)
        → t.id ≡ id
        → is_complete db.track_formats t ≡ true
        → is_complete db.track_formats (f t) ≡ true)
    → ((t : Track) → is_status t.status ≡ true → is_status (f t).status ≡ true)
    → IsServable objects (record db { tracks = update_track id f db.tracks })
update-IsServable objects db id f h key complete known = record {
  audio =
      all-update_track (λ t. is_stored objects t.audio_key) (λ t. is_stored objects t.audio_key) f
        id db.tracks (λ t a. a) (λ t e a. ap (is_stored objects) (key t) ∙ a) h.audio;
  keys = h.keys;
  complete =
      all-update_track (is_complete db.track_formats) (is_complete db.track_formats) f id db.tracks
        (λ t a. a) complete h.complete;
  known =
      all-update_track (λ t. is_status t.status) (λ t. is_status t.status) f id db.tracks (λ t a. a)
        (λ t e a. known t a) h.known;
}
