-- ===== src/Generator.antt =====
-- cmd/event-producer/main.go: the generator of synthetic events. Random numbers, ids and the clock
-- come with each tick.
pub mod Sent
use rule_engine.Prelude.{
  ℕ, zero, suc, ◌+◌, ◌-◌, ◌/◌, ◌++◌, List, [], ◌∷◌, Option, none, some, ◌&&◌, not, leb, ltb, ltb_ℤ,
  nat_beq, if◌then◌else◌, ◌==◌, ℤ, pos, negsuc, length,
}
use rule_engine.Text.{Text, text_eq, bytes, digits}
use rule_engine.Time.{Time, Duration}
use rule_engine.Rule.Value.{float64}
use rule_engine.Engine.Event.{BehaviorEvent}
use rule_engine.Engine.Producer.{PublishError}
use rule_engine.Startup.{env_str, env_int}

pub record GeneratorSettings : Type 0 where
  pub backend : Text
  pub topic : Text
  pub num_shards : ℤ
  pub rate : ℤ
  pub count : ℤ
  pub member_pool : ℤ
  pub behavior : Text

unfoldable pub read_generator_settings : (Text → Text) → GeneratorSettings
read_generator_settings getenv = record {
  backend = env_str getenv (bytes "BACKEND") (bytes "nats");
  topic = env_str getenv (bytes "TOPIC") (bytes "rule-events");
  num_shards = env_int getenv (bytes "NUM_SHARDS") (pos 1);
  rate = env_int getenv (bytes "RATE") (pos 100);
  count = env_int getenv (bytes "COUNT") (pos 0);
  member_pool = env_int getenv (bytes "MEMBER_POOL") (pos 100);
  behavior = env_str getenv (bytes "BEHAVIOR") (bytes "CryptoWithdraw");
}

-- the interval of the ticker; none where the division or NewTicker panics
unfoldable pub ticker_interval : ℤ → Option ℕ
ticker_interval (negsuc n) = none
ticker_interval (pos zero) = none
ticker_interval (pos (suc n)) =
    let interval = 1_000_000_000 / suc n in if nat_beq interval 0 then none else some interval

-- a tick: its time, the random numbers drawn and the id made then
pub record Tick (F : Type 0) : Type 0 where
  pub now : Time
  pub drawn : ℕ
  pub amount : F
  pub event_id : Text

-- `%04d`
unfoldable pub pad_left : ℕ → Text → Text
pad_left zero s = s
pad_left (suc n) s = b'0' ∷ pad_left n s

unfoldable pub user_id : ℕ → Text
unfolding pad_left
user_id n = bytes "user-" ++ pad_left (4 - length (digits n)) (digits n)

module _ {F : Type 0} where
  unfoldable pub generated_event : Text → Tick F → BehaviorEvent F
  unfolding user_id
  generated_event behavior tick = record {
    event_id = tick.event_id;
    member_id = user_id (tick.drawn + 1);
    behavior = behavior;
    fields = (bytes "amount", float64 tick.amount) ∷ [];
    occurred_at = tick.now;
  }

  -- the loop over the ticks until the context is cancelled, over Publish on the state of the broker:
  -- that state and the count of events sent
  unfoldable pub generate :
      {S : Type 0}
      → (S → BehaviorEvent F → S × Option PublishError)
      → GeneratorSettings
      → S
      → ℕ
      → List (Tick F)
      → S × ℕ
  unfolding generated_event
  generate publish settings store sent [] = (store, sent)
  generate publish settings store sent (tick ∷ ticks) =
      let (store', err) = publish store (generated_event settings.behavior tick) in
      let unsent = generate publish settings store' sent ticks in
      let counted = generate publish settings store' (suc sent) ticks in
      elim err [
        | some e ↦ unsent
        | none ↦
            if ltb_ℤ (pos 0) settings.count && not (ltb_ℤ (pos (suc sent)) settings.count)
            then (store', suc sent)
            else counted
      ]
