-- ===== src/Startup/Ready.antt =====
-- What a process of beatstream/cmd that has started is sure to have, and what it lacks.
use system_design_lab.Prelude.{
  String, Bool, true, false, Option, some, List, ◌==◌, text_eq, not, ◌≡◌, refl, sym, ap, ◌∙◌, inl,
  inr, arith, Bool-cases,
}
use system_design_lab.Prelude.Assoc.{is_some}
use system_design_lab.Startup.{
  Attempt, made, refused, ◌>>=◌, ◌>>◌, wrap, check, Environ, get_env, must_env,
}
use system_design_lab.Startup.Storage.{Config, Storage}
use system_design_lab.Startup.Kafka.{Opt}
use system_design_lab.Database.Schema.{migrate}
use system_design_lab.Startup.Api.{
  connect, open_database, World, Deps, open_store, open_producer, open_search, new_redis, start,
  storage_config, ready_bucket, any_producer,
}

-- Inversion of a step that succeeds.
>>=-made :
    {A B : Type 0} (m : Attempt A) (f : A → Attempt B) {b : B}
    → (m >>= f) ≡ made b
    → (a : A) × (m ≡ made a) × (f a ≡ made b)
>>=-made (made a) f h = (a, refl, h)
>>=-made (refused message) f h = cc

wrap-made :
    {A : Type 0} (message : String) (m : Attempt A) {a : A} → wrap message m ≡ made a → m ≡ made a
wrap-made message (made b) h = h
wrap-made message (refused inner) h = cc

check-made : (b : Bool) (message : String) {u : Unit {0}} → check b message ≡ made u → b ≡ true
check-made true message h = refl
check-made false message h = cc

made_inj : {A : Type 0} {a b : A} → made a ≡ made b → a ≡ b
made_inj h = cc

must_env-made :
    (env : Environ) (key : String) {v : String}
    → must_env env key ≡ made v
    → ((env key == "") ≡ false) × (env key ≡ v)
unfolding must_env
must_env-made env key h = elim (Bool-cases (env key == "")) [
  | inl unset ↦ absurd (ground (arith, h, unset))
  | inr given ↦ (given, ground (arith, h, given))
]

get_env_given :
    (env : Environ) (key fallback : String)
    → (fallback == "") ≡ false
    → (get_env env key fallback == "") ≡ false
unfolding get_env
get_env_given env key fallback h = ground (arith, h)

module _ {F : Type 0} (world : World F) (env : Environ) where
  -- The required services are there, and the optional ones where they are configured.
  pub record IsConfigured (d : Deps F) : Type 0 where
    pub database :
        ((env "DATABASE_URL" == "") ≡ false) × (world.db_pings (env "DATABASE_URL") ≡ true)
    pub migrated : (migrate world.schema_fails world.schema).0 ≡ true
    pub cache : ((env "REDIS_URL" == "") ≡ false) × (world.redis_pings (env "REDIS_URL") ≡ true)
    pub store : is_some d.store ≡ not (env "S3_BUCKET" == "")
    pub producer : is_some d.producer ≡ not (env "KAFKA_BROKERS" == "")
    pub client : d.client ≡ open_search world.transport (env "OPENSEARCH_URL")
    pub secret : (d.jwt_secret == "") ≡ false

  new_redis-made :
      (url : String) {u : Unit {0}}
      → new_redis world env url ≡ made u
      → world.redis_pings url ≡ true
  unfolding new_redis
  new_redis-made url h =
      let (u, e, rest) = >>=-made (check (world.redis_parses url) "redis connect") _ h in
      check-made (world.redis_pings url) "redis connect" rest

  connect-made :
      (dsn : String) {u : Unit {0}} → connect world dsn ≡ made u → world.db_pings dsn ≡ true
  unfolding connect
  connect-made dsn h =
      let (u, e, rest) = >>=-made (check (world.db_parses dsn) "parse dsn") _ h in
      let (u', e', last) = >>=-made (check (world.db_opens dsn) "open pool") _ rest in
      check-made (world.db_pings dsn) "ping" last

  open_database-made :
      (dsn : String) {u : Unit {0}}
      → open_database world dsn ≡ made u
      → (world.db_pings dsn ≡ true) × ((migrate world.schema_fails world.schema).0 ≡ true)
  unfolding open_database
  open_database-made dsn h =
      let (u, e, rest) = >>=-made (wrap "db connect" (connect world dsn)) _ h in
      (
        connect-made dsn (wrap-made "db connect" (connect world dsn) e),
        check-made (migrate world.schema_fails world.schema).0 "db migrate" rest,
      )

  store_opened : Attempt Storage
  store_opened = wrap "storage init" (
      system_design_lab.Startup.Storage.new world.loads_credentials
        (storage_config env (env "S3_BUCKET")))

  open_store_given :
      (env "S3_BUCKET" == "") ≡ false
      → open_store world env ≡ store_opened >>= (λ s. ready_bucket world env s >> made (some s))
  unfolding open_store store_opened
  open_store_given given = rw (given, open_store) refl

  open_store-is_some :
      {store : Option Storage}
      → open_store world env ≡ made store
      → is_some store ≡ not (env "S3_BUCKET" == "")
  unfolding open_store
  open_store-is_some {store = store} h = elim (Bool-cases (env "S3_BUCKET" == "")) [
    | inl unset ↦ ground (arith, h, unset)
    | inr given ↦
        let (s, e, rest) =
          >>=-made store_opened (λ s. ready_bucket world env s >> made (some s))
            (sym (open_store_given given) ∙ h) in
        let (u, e', last) = >>=-made (ready_bucket world env s) (λ u. made (some s)) rest in
        ground (arith, last, given)
  ]

  open_producer_given :
      (env "KAFKA_BROKERS" == "") ≡ false
      → open_producer world env
        ≡ any_producer world env (env "KAFKA_BROKERS") >>= (λ p. made (some p))
  unfolding open_producer
  open_producer_given given = rw (given, open_producer) refl

  open_producer-is_some :
      {producer : Option (List Opt)}
      → open_producer world env ≡ made producer
      → is_some producer ≡ not (env "KAFKA_BROKERS" == "")
  unfolding open_producer
  open_producer-is_some {producer = producer} h = elim (Bool-cases (env "KAFKA_BROKERS" == "")) [
    | inl unset ↦ ground (arith, h, unset)
    | inr given ↦
        let (p, e, last) =
          >>=-made (any_producer world env (env "KAFKA_BROKERS")) (λ p. made (some p))
            (sym (open_producer_given given) ∙ h) in
        ground (arith, last, given)
  ]

  -- An API that starts has its database, migrated, and its cache, has a store and a producer exactly
  -- where they are configured, OpenSearch where its index could be set up, and a secret that is not
  -- empty.
  pub start-IsConfigured : {d : Deps F} → start world env ≡ made d → IsConfigured d
  unfolding start
  start-IsConfigured {d = d} h =
      let (url, e1, h1) = >>=-made (must_env env "DATABASE_URL") _ h in
      let (u2, e2, h3) = >>=-made (open_database world url) _ h1 in
      let (pinged, migrated) = open_database-made url e2 in
      let (store, e4, h4) = >>=-made (open_store world env) _ h3 in
      let (redis, e5, h5) = >>=-made (must_env env "REDIS_URL") _ h4 in
      let (u6, e6, h6) = >>=-made (new_redis world env redis) _ h5 in
      let (producer, e7, h7) = >>=-made (open_producer world env) _ h6 in
      let (given, url_is) = must_env-made env "DATABASE_URL" e1 in
      let (given', redis_is) = must_env-made env "REDIS_URL" e5 in
      rw (sym (made_inj h7)) (record {
        database = (given, ap world.db_pings url_is ∙ pinged);
        migrated = migrated;
        cache = (given', ap world.redis_pings redis_is ∙ new_redis-made redis e6);
        store = open_store-is_some e4;
        producer = open_producer-is_some e7;
        client = refl;
        secret = get_env_given env "JWT_SECRET" "dev-secret-change-in-production" refl;
      })
