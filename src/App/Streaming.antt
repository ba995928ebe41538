-- ===== src/App/Streaming.antt =====
-- What the streaming handler of beatstream/internal/handler/tracks.go finds in a state of the system.
use system_design_lab.Prelude.{
  ℕ, String, Bool, true, Option, some, List, [], ◌∷◌, all, eqb, eqb_iff, ◌≡◌, sym, ap, ◌∙◌, inl,
  inr, ◌&&◌, ◌||◌, text_eq, arith, Bool-cases,
}
use system_design_lab.Gin.{Ctx}
use system_design_lab.Database.{Track, TrackFormat, find_track}
use system_design_lab.Handlers.Stream.{Answer, redirect, find_key, stream}
use system_design_lab.Handlers.Listening.{Serves, format, original, Signed-redirect, stream_cases}
use system_design_lab.App.{Site, Input, State, services}
use system_design_lab.App.Audio.{is_stored, IsServable}
use system_design_lab.App.System.{Reach, Reach-IsSound}

all-find_track :
    (p : Track → Bool) (id : ℕ) (ts : List Track) {t : Track}
    → find_track id ts ≡ some t
    → all p ts ≡ true
    → (p t ≡ true) × (t.id ≡ id)
unfolding find_track
all-find_track p id [] e a = cc
all-find_track p id (x ∷ ts) {t = t} e a = elim (Bool-cases (eqb x.id id)) [
  | inl here ↦
      let same : x ≡ t = ground (arith, e, here) in
      (ap p (sym same) ∙ ground (arith, a), ap (λ t. t.id) (sym same) ∙ (eqb_iff x.id id).0 here)
  | inr there ↦ all-find_track p id ts (ground (arith, e, there)) (ground (arith, a))
]

all-find_key :
    (p : String → Bool) (id b : ℕ) (fs : List TrackFormat) {key : String}
    → find_key id b fs ≡ some key
    → all (λ f. p f.s3_key) fs ≡ true
    → p key ≡ true
unfolding find_key
all-find_key p id b [] e a = cc
all-find_key p id b (f ∷ fs) {key = key} e a =
    elim (Bool-cases (eqb f.track_id id && eqb f.bitrate b)) [
      | inl here ↦
          let same : f.s3_key ≡ key = ground (arith, e, here) in ap p (sym same) ∙ ground (arith, a)
      | inr there ↦ all-find_key p id b fs (ground (arith, e, there)) (ground (arith, a))
    ]

-- One of the qualities that the upload worker makes.
abbrev pub is_bitrate : ℕ → Bool
is_bitrate b = eqb b 64 || (eqb b 128 || eqb b 320)

module _ {F : Type 0} (site : Site F) (i : Input) (c : Ctx) (w : State site) where
  abbrev answer : Answer
  answer =
      (stream (services site i) i.env site.cast_int i.second_fails c i.quality i.timestamp
        w.uploads.db).0

  Serves-stored :
      {id bitrate : Option ℕ} {key : String}
      → IsServable w.uploads.objects w.uploads.db
      → Serves i.env.fails i.second_fails w.uploads.db id bitrate key
      → is_stored w.uploads.objects key ≡ true
  Serves-stored h (format j b up e q found) =
      all-find_key (is_stored w.uploads.objects) j b w.uploads.db.track_formats found h.keys
  Serves-stored h (original j t why up e found same) =
      ap (is_stored w.uploads.objects) (sym same)
      ∙ (all-find_track (λ t. is_stored w.uploads.objects t.audio_key) j w.uploads.db.tracks found
          h.audio).0

  -- In every state that the system can reach, the URL to which the streaming handler redirects a client
  -- is the signed URL of a key that has an object in the store, whatever the track and the quality.
  pub redirect-stored :
      (url : String)
      → Reach site w
      → answer ≡ redirect url
      → (key : String) × (site.presign key ≡ some url) × (is_stored w.uploads.objects key ≡ true)
  redirect-stored url reach e =
      let sound = Reach-IsSound site w reach in
      elim (stream_cases (services site i) i.env site.cast_int i.second_fails c i.quality
        i.timestamp w.uploads.db) [
          | inl (bad, same) ↦ absurd (ground (arith, ap (λ r. r.0) same, e))
          | inr (inl (unformatted, missing, same)) ↦ absurd (ground (arith, ap (λ r. r.0) same, e))
          | inr (inr (key, serves, shown, event)) ↦
              (key, Signed-redirect shown e, Serves-stored sound serves)
        ]
