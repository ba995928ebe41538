-- ===== src/Startup/Api.antt =====
-- The start of beatstream/cmd/api/main.go, up to the handlers, and the constructor of
-- beatstream/internal/cache/redis.go.
use system_design_lab.Database.Schema.{Schema, migrate}
use system_design_lab.Prelude.{
  ℕ, String, Bool, Option, none, some, List, ◌==◌, text_eq, if◌then◌else◌,
}
use system_design_lab.Search.{Transport, Outcome, ok, error, ensure_index}
use system_design_lab.Startup.{
  Attempt, made, refused, ◌>>=◌, ◌>>◌, wrap, check, Environ, get_env, must_env,
}
use system_design_lab.Startup.Storage.{Config, Storage, ensure_bucket}
use system_design_lab.Startup.Kafka.{Opt, new_producer, new_producer_iam}

-- Whether the calls of the packages succeed.
pub record World (F : Type 0) : Type 0 where
  pub loads_credentials : String → Option (String × String) → Bool
  pub head_bucket : String → Bool
  pub create_bucket : String → Bool
  pub loads_region : String → Bool
  pub connects : List Opt → Bool
  pub db_parses : String → Bool
  pub db_opens : String → Bool
  pub db_pings : String → Bool
  pub schema : Schema
  pub schema_fails : ℕ → Bool
  pub redis_parses : String → Bool
  pub redis_pings : String → Bool
  pub transport : Transport F

-- What the handlers are built from.
pub record Deps (F : Type 0) : Type 0 where
  pub store : Option Storage
  pub producer : Option (List Opt)
  pub client : Option (Transport F × String)
  pub jwt_secret : String
  pub port : String
  pub metrics_port : String

-- A client whose index cannot be set up is not used.
abbrev pub kept_client :
    {F : Type 0} → Transport F → String → Outcome (Unit {0}) → Option (Transport F × String)
kept_client transport endpoint (ok _) = some (transport, endpoint)
kept_client transport endpoint (error message) = none

unfoldable pub open_search : {F : Type 0} → Transport F → String → Option (Transport F × String)
unfolding ensure_index
open_search transport url =
    let endpoint = system_design_lab.Search.new url in
    if url == "" then none else kept_client transport endpoint (ensure_index transport endpoint)

abbrev pub storage_config : Environ → String → Config
storage_config env bucket = record {
  bucket = bucket;
  region = get_env env "AWS_REGION" "us-east-1";
  endpoint = env "S3_ENDPOINT";
  access_key = env "S3_ACCESS_KEY";
  secret_key = env "S3_SECRET_KEY";
  presign_endpoint = env "S3_PRESIGN_ENDPOINT";
}

module _ {F : Type 0} (world : World F) where
  -- `Connect` and `Migrate` of beatstream/internal/db/postgres.go.
  unfoldable pub connect : String → Attempt (Unit {0})
  connect dsn = do
    check (world.db_parses dsn) "parse dsn"
    check (world.db_opens dsn) "open pool"
    check (world.db_pings dsn) "ping"

  unfoldable pub open_database : String → Attempt (Unit {0})
  unfolding connect migrate
  open_database dsn = do
    wrap "db connect" (connect dsn)
    check (migrate world.schema_fails world.schema).0 "db migrate"

module _ {F : Type 0} (world : World F) (env : Environ) where
  -- The bucket is created only where an endpoint is set.
  abbrev pub ready_bucket : Storage → Attempt (Unit {0})
  ready_bucket store =
      if env "S3_ENDPOINT" == ""
      then made tt
      else wrap "ensure bucket" (ensure_bucket world.head_bucket world.create_bucket store)

  unfoldable pub open_store : Attempt (Option Storage)
  unfolding ensure_bucket
  open_store = if env "S3_BUCKET" == "" then made none else do
    store ← wrap "storage init" (
        system_design_lab.Startup.Storage.new world.loads_credentials
          (storage_config env (env "S3_BUCKET")))
    ready_bucket store
    made (some store)

  unfoldable pub new_redis : String → Attempt (Unit {0})
  new_redis url = do
    check (world.redis_parses url) "redis connect"
    check (world.redis_pings url) "redis connect"

  abbrev iam_producer : String → Attempt (List Opt)
  iam_producer brokers = do
    region ← must_env env "AWS_REGION"
    wrap "kafka producer" (new_producer_iam world.connects world.loads_region brokers region)

  abbrev pub any_producer : String → Attempt (List Opt)
  any_producer brokers =
      if env "KAFKA_AUTH" == "iam"
      then iam_producer brokers
      else wrap "kafka producer" (new_producer world.connects world.loads_region brokers)

  unfoldable pub open_producer : Attempt (Option (List Opt))
  unfolding new_producer new_producer_iam
  open_producer =
      if env "KAFKA_BROKERS" == ""
      then made none
      else do producer ← any_producer (env "KAFKA_BROKERS"); made (some producer)

  unfoldable pub start : Attempt (Deps F)
  unfolding open_database open_store open_producer new_redis open_search must_env get_env
  start = do
    database ← must_env env "DATABASE_URL"
    open_database world database
    store ← open_store
    redis ← must_env env "REDIS_URL"
    new_redis redis
    producer ← open_producer
    made (record {
      store = store;
      producer = producer;
      client = open_search world.transport (env "OPENSEARCH_URL");
      jwt_secret = get_env env "JWT_SECRET" "dev-secret-change-in-production";
      port = get_env env "PORT" "8080";
      metrics_port = get_env env "METRICS_PORT" "9090";
    })
