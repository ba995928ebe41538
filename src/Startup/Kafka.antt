-- ===== src/Startup/Kafka.antt =====
-- The constructors of beatstream/internal/queue/kafka.go. A client is the options that the package of
-- Kafka is given.
use system_design_lab.Prelude.{String, Bool, Option, none, some, List, [], ◌∷◌, ◌++◌, if◌then◌else◌}
use system_design_lab.Prelude.Texts.{split}
use system_design_lab.Startup.{Attempt, made, refused, ◌>>=◌}

pub data Opt : Type 0 where
  seed_brokers : List String → Opt
  leader_ack disable_idempotent_write allow_auto_topic_creation : Opt
  consumer_group : String → Opt
  consume_topics : String → Opt
  auto_commit_marks : Opt
  sasl_iam : String → Opt
  dial_tls : Opt

-- `if saslMechanism != nil`
abbrev pub with_sasl : Option Opt → List Opt
with_sasl none = []
with_sasl (some mechanism) = mechanism ∷ dial_tls ∷ []

-- `connects` says that `NewClient` succeeds, `loads` that AWS's configuration of a region does.
module _ (connects : List Opt → Bool) (loads : String → Bool) where
  abbrev pub open_client : String → List Opt → Attempt (List Opt)
  open_client message opts = if connects opts then made opts else refused message

  unfoldable pub make_producer : String → Option Opt → Attempt (List Opt)
  make_producer broker_list mechanism = open_client "kafka producer" (
      (seed_brokers (split b',' broker_list)
        ∷ leader_ack
        ∷ disable_idempotent_write
        ∷ allow_auto_topic_creation
        ∷ [])
      ++ with_sasl mechanism)

  unfoldable pub make_consumer : String → String → String → Option Opt → Attempt (List Opt)
  make_consumer broker_list group topic mechanism = open_client "kafka consumer" (
      (seed_brokers (split b',' broker_list)
        ∷ consumer_group group
        ∷ consume_topics topic
        ∷ auto_commit_marks
        ∷ [])
      ++ with_sasl mechanism)

  unfoldable pub msk_iam_mechanism : String → Attempt Opt
  msk_iam_mechanism region =
      if loads region then made (sasl_iam region) else refused "aws config for MSK IAM"

  unfoldable pub new_producer : String → Attempt (List Opt)
  unfolding make_producer
  new_producer broker_list = make_producer broker_list none

  unfoldable pub new_producer_iam : String → String → Attempt (List Opt)
  unfolding make_producer msk_iam_mechanism
  new_producer_iam broker_list region = do
    mechanism ← msk_iam_mechanism region
    make_producer broker_list (some mechanism)

  unfoldable pub new_consumer : String → String → String → Attempt (List Opt)
  unfolding make_consumer
  new_consumer broker_list group topic = make_consumer broker_list group topic none

  unfoldable pub new_consumer_iam : String → String → String → String → Attempt (List Opt)
  unfolding make_consumer msk_iam_mechanism
  new_consumer_iam broker_list region group topic = do
    mechanism ← msk_iam_mechanism region
    make_consumer broker_list group topic (some mechanism)
