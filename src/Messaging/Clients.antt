-- ===== src/Messaging/Clients.antt =====
-- internal/messaging: the settings of the clients, their construction and their closing. librdkafka
-- is a parameter; the goroutine that logs delivery reports is left out.
pub mod Laws
use eventmind.Base.{
  ℕ, ℤ, pos, Text, bytes, text_eq, Bool, true, false, not, List, [], ◌∷◌, ◌++◌, Result, keep,
  if◌then◌else◌,
}
use eventmind.Messaging.Dlq.{DlqWorker}
use eventmind.Resources.{Resources, Call, ◌>>=◌, ◌>>◌, pure, within, or_close}

-- `kafka.ConfigMap`
pub data Setting : Type 0 where
  text : Text → Setting
  number : ℕ → Setting
  flag : Bool → Setting

abbrev pub Config : Type 0
Config = List (Text × Setting)

unfoldable pub set_key : Text → Setting → Config → Config
set_key key v cfg = (key, v) ∷ keep (λ s. not (text_eq s.0 key)) cfg

pub record Library (R : Resources) : Type 0 where
  pub new_producer : Config → Call R.World R.Handle
  pub new_consumer : Config → Call R.World R.Handle
  pub subscribe : R.Handle → Text → Call R.World (Unit {0})
  pub flush : R.World → R.Handle → ℕ → R.World

-- `Producer`, `Consumer` and `DLQWorker`, without their loggers.
pub record Producer (R : Resources) : Type 0 where
  pub p : R.Handle
  pub topic : Text

pub record Consumer (R : Resources) : Type 0 where
  pub c : R.Handle
  pub dlq : Producer R
  pub dlq_topic : Text

pub record DlqClient (R : Resources) : Type 0 where
  pub consumer : R.Handle
  pub producer : Producer R
  pub worker : DlqWorker

module _ (getenv : Text → Text) where
  -- `applyTLS`
  unfoldable pub apply_tls : Config → Config
  unfolding set_key
  apply_tls cfg =
      if not (text_eq (getenv (bytes "KAFKA_USE_TLS")) (bytes "true"))
      then cfg
      else set_key (bytes "sasl.password") (text (getenv (bytes "KAFKA_SASL_PASSWORD"))) (
          set_key (bytes "sasl.username") (text (getenv (bytes "KAFKA_SASL_USERNAME"))) (
            set_key (bytes "sasl.mechanisms") (text (bytes "PLAIN"))
              (set_key (bytes "security.protocol") (text (bytes "SASL_SSL")) cfg)))

  unfoldable pub producer_config : Text → Config
  unfolding apply_tls
  producer_config brokers = apply_tls (
      (bytes "bootstrap.servers", text brokers)
      ∷ (bytes "acks", text (bytes "all"))
      ∷ (bytes "retries", number 3)
      ∷ (bytes "retry.backoff.ms", number 500)
      ∷ (bytes "compression.type", text (bytes "snappy"))
      ∷ [])

  -- `buildKafkaConfig`
  unfoldable pub build_kafka_config : Text → Text → Config
  unfolding apply_tls
  build_kafka_config brokers group_id = apply_tls (
      (bytes "bootstrap.servers", text brokers)
      ∷ (bytes "group.id", text group_id)
      ∷ (bytes "auto.offset.reset", text (bytes "earliest"))
      ∷ (bytes "enable.auto.commit", flag false)
      ∷ (bytes "session.timeout.ms", number 30000)
      ∷ (bytes "max.poll.interval.ms", number 300000)
      ∷ [])

  module _ {R : Resources} (K : Library R) where
    -- `NewProducer`
    unfoldable pub new_producer : Text → Text → Call R.World (Producer R)
    new_producer brokers topic = do
      p ← within (bytes "kafka producer: ") (K.new_producer (producer_config brokers))
      pure (record { p = p; topic = topic })

    -- `NewConsumer`
    unfoldable pub new_consumer : Text → Text → Text → Text → Call R.World (Consumer R)
    new_consumer brokers group_id topic dlq_topic = do
      c ← within (bytes "kafka consumer: ") (K.new_consumer (build_kafka_config brokers group_id))
      or_close R c do
        within (bytes "subscribe " ++ topic ++ bytes ": ") (K.subscribe c topic)
        dlq ← within (bytes "dlq producer: ") (new_producer brokers dlq_topic)
        pure (record { c = c; dlq = dlq; dlq_topic = dlq_topic })

    -- `NewDLQWorker`, in a group of its own.
    unfoldable pub new_dlq_worker : Text → Text → DlqWorker → Call R.World (DlqClient R)
    new_dlq_worker brokers group_id worker = do
      c ←
          within (bytes "dlq consumer: ")
            (K.new_consumer (build_kafka_config brokers (group_id ++ bytes "-dlq-retry")))
      or_close R c do
        within (bytes "dlq subscribe: ") (K.subscribe c worker.dlq_topic)
        prod ← new_producer brokers worker.dlq_topic
        pure (record { consumer = c; producer = prod; worker = worker })

module _ {R : Resources} (K : Library R) where
  -- `Producer.Close`, `Consumer.Close` and `DLQWorker.Close`
  unfoldable pub close_producer : R.World → Producer R → R.World
  close_producer w p = R.close (K.flush w p.p 5000) p.p

  unfoldable pub close_consumer : R.World → Consumer R → R.World
  unfolding close_producer
  close_consumer w c = R.close (close_producer w c.dlq) c.c

  unfoldable pub close_dlq_worker : R.World → DlqClient R → R.World
  unfolding close_producer
  close_dlq_worker w d = R.close (close_producer w d.producer) d.consumer
