-- ===== src/App/SystemTests.antt =====
-- The theorems on the whole system at an upload, its delivery and a stream.
use system_design_lab.Prelude.{
  ℕ, String, true, false, none, some, [], ◌∷◌, ◌≡◌, ◌∙◌, refl, sym, ap, text_eq,
}
use system_design_lab.Prelude.Assoc.{get, put}
use system_design_lab.Prelude.Texts.{strip_prefix, split, drop_last, itoa}
use system_design_lab.Gin.{Ctx}
use system_design_lab.Middleware.Jwt.{extract_token, require_auth, parse_token}
use system_design_lab.Middleware.Audit.{
  Outcome, responded, panicked, audit_log, audit_row, build_action,
}
use system_design_lab.Database.{Track, find_track, update_track}
use system_design_lab.Worker.Upload.{Outside, UploadEvent, process, upsert_format}
use system_design_lab.Handlers.{any}
use system_design_lab.Handlers.Stream.{stream, redirect, find_key}
use system_design_lab.App.Audio.{is_stored}
use system_design_lab.Handlers.Tracks.{create}
use system_design_lab.Handlers.Releases.{store_of}
use system_design_lab.Api.Stack.{respond}
use system_design_lab.App.{State, server, services}
use system_design_lab.App.Log.{request-Leaves}
use system_design_lab.App.System.{
  Step, request, upload, Reach, start, step, set_store, IsSound, Reach-IsSound,
}
use system_design_lab.App.Streaming.{redirect-stored}
use system_design_lab.App.Fixtures.{cast, first, input, request_of, site}

abbrev after : Outcome (State site) → State site
after (responded status c w) = w
after panicked = first

abbrev send : Ctx
send = request_of "Bearer user" "POST" "/v1/tracks" ""

abbrev sent : State site
sent = after (respond (server site input) false send first)

abbrev up : Outside
up = record { fails = λ call. false; cast = cast; seconds_ms = some 3000; encoded = λ b. b ∷ [] }

abbrev event : UploadEvent
event = record { track_id = "nine"; audio_key = "tracks/nine/audio" }

abbrev transcoded : State site
transcoded = set_store site sent (process up event (store_of sent.uploads)).1

sent_lem :
    (o : Outcome (State site))
    → (status : ℕ) × (c' : Ctx) × (w' : State site) × (o ≡ responded status c' w')
    → (status : ℕ) × (c' : Ctx) × (o ≡ responded status c' (after o))
sent_lem o (status, c', w', e) = (status, c', e ∙ ap (λ o. responded status c' (after o)) (sym e))

sent-Step : Step site first sent
sent-Step =
    let (status, c', w', e, _) = request-Leaves site input false send first in
    let (status, c', e) =
      sent_lem (respond (server site input) false send first) (status, c', w', e) in
    request input false send status c' sent e

transcoded-Reach : Reach site transcoded
transcoded-Reach =
    step sent transcoded
      (step first sent (start first (record { no_tracks = refl; no_formats = refl })) sent-Step)
      (upload up event)

Reach-IsSound_example : IsSound site transcoded
Reach-IsSound_example = Reach-IsSound site transcoded transcoded-Reach

abbrev listen : Ctx
listen = request_of "" "GET" "/v1/tracks/:id/stream" "nine"

abbrev ready_track : Track
ready_track = record {
  id = 9;
  title = "title";
  artist_id = 5;
  duration_ms = 3000;
  audio_key = "tracks/nine/audio";
  release_date = none;
  play_count = 0;
  created_at = 100;
  status = "ready";
}

abbrev format_key : String
format_key = "tracks/nine/128.ogg"

redirected :
    (stream
      (services site input)
      input.env
      site.cast_int
      input.second_fails
      listen
      input.quality
      input.timestamp
      transcoded.uploads.db).0
    ≡ redirect format_key
unfolding stream get process find_track respond audit_log build_action strip_prefix require_auth
    extract_token parse_token server split drop_last audit_row put any create update_track
    upsert_format find_key itoa
redirected = refl

redirect-stored_example :
    (key : String) × (site.presign key ≡ some format_key)
    × (is_stored transcoded.uploads.objects key ≡ true)
redirect-stored_example =
    redirect-stored site input listen transcoded format_key transcoded-Reach redirected
