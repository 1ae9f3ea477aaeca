-- ===== src/Engine/Producer.antt =====
-- service/engine/core/producer_kafka.go and producer_nats.go. The clients of the brokers and
-- json.Marshal of an event are parameters.
use rule_engine.Prelude.{
  ℕ, ◌++◌, ◌∷◌, Option, none, some, Bool, if◌then◌else◌, ℤ, pos, negsuc, ltb, ◌%◌, ◌^◌, ◌-◌,
}
use rule_engine.Text.{Text}
use rule_engine.Rule.Value.{format_int}
use rule_engine.Engine.Event.{BehaviorEvent}
use rule_engine.Engine.KeyGroup.{shard_of_member}

pub record KafkaProducerConfig : Type 0 where
  pub topic : Text
  pub num_shards : ℕ

pub record NatsProducerConfig : Type 0 where
  pub subject_prefix : Text
  pub num_shards : ℕ

-- kgo.Record
pub record Record : Type 0 where
  pub topic : Text
  pub partition : ℤ
  pub key : Text
  pub value : Text

pub data PublishError : Type 0 where
  marshal_failed publish_failed : PublishError

-- int32
unfoldable pub wrap32 : ℤ → ℤ
wrap32 (pos n) = let r = n % 2 ^ 32 in if ltb r (2 ^ 31) then pos r else negsuc (2 ^ 32 - r - 1)
wrap32 (negsuc n) = let r = n % 2 ^ 32 in if ltb r (2 ^ 31) then negsuc r else pos (2 ^ 32 - r - 1)

-- the state of a broker after a call of its client, and the error returned
abbrev pub published {ℓ} : {S : Type ℓ} → S × Bool → S × Option PublishError
published (store, ok) = (store, if ok then none else some publish_failed)

module _ {F S : Type 0} (marshal : BehaviorEvent F → Option Text) where
  -- KafkaProducer.Publish, over ProduceSync on the state of the broker; the flag says that it
  -- succeeded
  unfoldable pub publish_kafka :
      (S → Record → S × Bool) → KafkaProducerConfig → S → BehaviorEvent F → S × Option PublishError
  publish_kafka produce cfg store event = elim (marshal event) [
    | none ↦ (store, some marshal_failed)
    | some value ↦ published (
        produce store (record {
          topic = cfg.topic;
          partition = wrap32 (pos (shard_of_member event.member_id cfg.num_shards));
          key = event.member_id;
          value = value;
        }))
  ]

  -- NATSProducer.Publish, over the client's Publish of a subject and a payload
  unfoldable pub publish_nats :
      (S → Text → Text → S × Bool)
      → NatsProducerConfig
      → S
      → BehaviorEvent F
      → S × Option PublishError
  publish_nats publish cfg store event =
      let shard = shard_of_member event.member_id cfg.num_shards in
      let subject =
        cfg.subject_prefix ++ b'.' ∷ (format_int (pos shard) ++ b'.' ∷ event.member_id) in
      elim (marshal event) [
        | none ↦ (store, some marshal_failed)
        | some payload ↦ published (publish store subject payload)
      ]
