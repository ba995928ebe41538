-- ===== src/Startup/Workers.antt =====
-- The start of beatstream/cmd/worker/main.go, with the constructors of the two workers in
-- beatstream/internal/worker.
use system_design_lab.Prelude.{String, Option, none, some, List, ◌==◌, text_eq, if◌then◌else◌}
use system_design_lab.Search.{Transport}
use system_design_lab.Startup.{
  Attempt, made, refused, ◌>>=◌, ◌>>◌, wrap, check, Environ, get_env, must_env,
}
use system_design_lab.Startup.Storage.{Config, Storage}
use system_design_lab.Startup.Kafka.{Opt, new_consumer, new_consumer_iam}
use system_design_lab.Startup.Api.{World, open_database, open_search}

pub record Workers (F : Type 0) : Type 0 where
  pub store : Option Storage
  pub client : Option (Transport F × String)
  pub upload_consumer : List Opt
  pub analytics_consumer : List Opt

abbrev worker_config : Environ → String → String → Config
worker_config env region bucket = record {
  bucket = bucket;
  region = region;
  endpoint = env "S3_ENDPOINT";
  access_key = env "S3_ACCESS_KEY";
  secret_key = env "S3_SECRET_KEY";
  presign_endpoint = "";
}

module _ {F : Type 0} (world : World F) where
  abbrev consumer_of : String → String → String → String → String → Attempt (List Opt)
  consumer_of brokers auth region group topic =
      if auth == "iam"
      then new_consumer_iam world.connects world.loads_region brokers region group topic
      else new_consumer world.connects world.loads_region brokers group topic

  unfoldable pub new_upload_worker : String → String → String → Attempt (List Opt)
  unfolding new_consumer new_consumer_iam
  new_upload_worker brokers auth region =
      wrap "upload worker consumer"
        (consumer_of brokers auth region "upload-workers" "track.uploads")

  unfoldable pub new_analytics_worker : String → String → String → Attempt (List Opt)
  unfolding new_consumer new_consumer_iam
  new_analytics_worker brokers auth region =
      wrap "analytics worker consumer"
        (consumer_of brokers auth region "analytics-workers" "play.events")

  unfoldable pub open_store : Environ → String → Attempt (Option Storage)
  open_store env region = if env "S3_BUCKET" == "" then made none else do
    store ← wrap "storage init" (
        system_design_lab.Startup.Storage.new world.loads_credentials
          (worker_config env region (env "S3_BUCKET")))
    made (some store)

  unfoldable pub start : Environ → Attempt (Workers F)
  unfolding open_database open_store new_upload_worker new_analytics_worker must_env get_env
  start env = do
    brokers ← must_env env "KAFKA_BROKERS"
    database ← must_env env "DATABASE_URL"
    let auth = get_env env "KAFKA_AUTH" "plain"
    let region = get_env env "AWS_REGION" "us-east-1"
    open_database world database
    store ← open_store env region
    uploads ← wrap "upload worker" (new_upload_worker brokers auth region)
    plays ← wrap "analytics worker" (new_analytics_worker brokers auth region)
    made (record {
      store = store;
      client = open_search world.transport (env "OPENSEARCH_URL");
      upload_consumer = uploads;
      analytics_consumer = plays;
    })
