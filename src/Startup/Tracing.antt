-- ===== src/Startup/Tracing.antt =====
-- beatstream/internal/telemetry/otel.go, and what beatstream/cmd/api/main.go makes of its error. The
-- package of OpenTelemetry is the settings that it is given. Ratios are in tenths.
use system_design_lab.Prelude.{
  ℕ, ◌*◌, String, Bool, true, Option, some, List, [], ◌∷◌, ◌==◌, text_eq, if◌then◌else◌,
}
use system_design_lab.Startup.{Attempt, made, refused, Environ, get_env}

pub record Exporter : Type 0 where
  pub endpoint : String
  pub insecure : Bool
  pub timeout : ℕ

pub record Resource : Type 0 where
  pub service_name : String
  pub service_version : String
  pub environment : String
  pub with_os : Bool
  pub with_process : Bool

pub data Sampler : Type 0 where
  always_sample : Sampler
  trace_id_ratio_tenths : ℕ → Sampler
  parent_based : Sampler → Sampler

pub data Propagator : Type 0 where
  trace_context baggage : Propagator

pub record Provider : Type 0 where
  pub exporter : Exporter
  pub resource : Resource
  pub sampler : Sampler

-- The globals of the package otel.
pub record Globals : Type 0 where
  pub provider : Option Provider
  pub propagators : List Propagator

abbrev pub default_endpoint : String
default_endpoint = "http://localhost:4318"

unfoldable pub sampler_from_env : Environ → Sampler
sampler_from_env env =
    if env "APP_ENV" == "production" then parent_based (trace_id_ratio_tenths 1) else always_sample

abbrev pub exporter_of : Environ → Exporter
exporter_of env = record {
  endpoint = get_env env "OTEL_EXPORTER_OTLP_ENDPOINT" default_endpoint;
  insecure = true;
  timeout = 5 * 1000000000;
}

abbrev pub resource_of : Environ → Resource
resource_of env = record {
  service_name = get_env env "OTEL_SERVICE_NAME" "beatstream-api";
  service_version = env "APP_VERSION";
  environment = env "APP_ENV";
  with_os = true;
  with_process = true;
}

-- `opens` and `describes` say that the exporter and the resource are made without an error.
module _ (opens : Exporter → Bool) (describes : Resource → Bool) where
  unfoldable pub init : Environ → Globals → Attempt (Unit {0}) × Globals
  unfolding sampler_from_env get_env
  init env g =
      if opens (exporter_of env)
      then (if describes (resource_of env)
          then (
            made tt,
            record {
              provider = some (record {
                exporter = exporter_of env;
                resource = resource_of env;
                sampler = sampler_from_env env;
              });
              propagators = trace_context ∷ baggage ∷ [];
            },
          )
          else (refused "resource", g))
      else (refused "exporter", g)

  -- The line of the log that main writes; the process goes on either way.
  abbrev pub tracing_line : Environ → Attempt (Unit {0}) → String × String
  tracing_line env (refused message) = ("OpenTelemetry init failed — tracing disabled", message)
  tracing_line env (made _) =
      ("OpenTelemetry tracing enabled", get_env env "OTEL_EXPORTER_OTLP_ENDPOINT" default_endpoint)

  unfoldable pub start_tracing : Environ → Globals → (String × String) × Globals
  unfolding init
  start_tracing env g = let (result, g') = init env g in (tracing_line env result, g')
