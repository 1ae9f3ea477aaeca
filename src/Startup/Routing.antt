-- ===== src/Startup/Routing.antt =====
-- From the producers to the shards: who reads a published event.
use rule_engine.Prelude.{List, [], ◌∷◌, true, Option}
use rule_engine.Text.{Text}
use rule_engine.Engine.Event.{BehaviorEvent}
use rule_engine.Engine.Producer.{
  KafkaProducerConfig, NatsProducerConfig, Record, PublishError, publish_kafka, publish_nats,
}

module _ {F : Type 0} (marshal : BehaviorEvent F → Option Text) where
  -- the publishers over a broker that keeps what it is handed
  abbrev pub kafka_log : KafkaProducerConfig → BehaviorEvent F → List Record × Option PublishError
  kafka_log cfg event = publish_kafka marshal (λ log r. (r ∷ log, true)) cfg [] event

  abbrev pub nats_log :
      NatsProducerConfig → BehaviorEvent F → List (Text × Text) × Option PublishError
  nats_log cfg event = publish_nats marshal (λ log s p. ((s, p) ∷ log, true)) cfg [] event
