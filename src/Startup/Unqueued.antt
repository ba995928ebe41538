-- ===== src/Startup/Unqueued.antt =====
-- The handlers of tracks in an API that beatstream/cmd/api/main.go has started without Kafka.
use system_design_lab.Prelude.{
  ℕ, String, Bool, true, false, Option, some, ◌==◌, text_eq, not, ◌≡◌, ap, ◌∙◌, inl, inr, arith,
}
use system_design_lab.Prelude.Assoc.{is_some}
use system_design_lab.Gin.{Ctx, param}
use system_design_lab.Database.{Db, Track, find_track}
use system_design_lab.Handlers.{Env}
use system_design_lab.Handlers.Stream.{Services, crash, stream}
use system_design_lab.Handlers.Listening.{IsMissing, Published-crash, stream_cases}
use system_design_lab.Startup.{made, Environ}
use system_design_lab.Startup.Api.{World, Deps, start}
use system_design_lab.Startup.Ready.{start-IsConfigured}

-- What `NewTracks` is given, with the fate of a publication and of a signature.
abbrev pub services_of : {F : Type 0} → Deps F → Bool → (String → Option String) → Services
services_of d fails presign = record {
  has_producer = is_some d.producer;
  has_store = is_some d.store;
  fails = fails;
  presign = presign;
}

not_missing :
    (id : Option ℕ) (i : ℕ) (t : Track) (db : Db)
    → id ≡ some i
    → find_track i db.tracks ≡ some t
    → IsMissing false id db
    → ⊥
not_missing id i t db named found (inl unread) = cc
not_missing id i t db named found (inr (inl fails)) = cc
not_missing id i t db named found (inr (inr (j, e, missing))) =
    ground (arith, named, found, e, missing)

-- An API that has started without KAFKA_BROKERS is ended by the first request to stream a track of the
-- table, whatever the quality asked for, if the query for the original does not fail.
pub unqueued_crash :
    {F : Type 0} (world : World F) (environ : Environ) (d : Deps F) (fails : Bool)
    (presign : String → Option String) (env : Env) (cast_int : String → Option ℕ) (c : Ctx)
    (quality : Option String) (now : String) (db : Db) (i : ℕ) (t : Track)
    → start world environ ≡ made d
    → (environ "KAFKA_BROKERS" == "") ≡ true
    → env.parses (param c "id") ≡ true
    → env.cast (param c "id") ≡ some i
    → find_track i db.tracks ≡ some t
    → (stream (services_of d fails presign) env cast_int false c quality now db).1 ≡ crash
unqueued_crash world environ d fails presign env cast_int c quality now db i t started unset parses
      named found =
    elim (stream_cases (services_of d fails presign) env cast_int false c quality now db) [
      | inl (bad, e) ↦ absurd (ground (arith, bad, parses))
      | inr (inl (unformatted, missing, e)) ↦
          absurd (not_missing (env.cast (param c "id")) i t db named found missing)
      | inr (inr (key, serves, answer, event)) ↦
          Published-crash event ((start-IsConfigured world environ started).producer ∙ ap not unset)
    ]
