-- ===== src/Engine/Consumer/Replay/Log.antt =====
-- The records that consumer_kafka.go polls as a log, and which of its events are live.
use rule_engine.Prelude.{
  ℕ, zero, suc, ◌-◌, ◌≡◌, refl, sym, ap, ◌∙◌, true, false, ◌&&◌, List, [], ◌∷◌, arith, inl, inr,
  pos, ltb, ltb_ℤ, sub_ℕ, drop, Bool-cases, Option,
}
use rule_engine.Text.{Text}
use rule_engine.Engine.Event.{BehaviorEvent}
use rule_engine.Engine.Consumer.{decoded, decode_event}
use rule_engine.Engine.Consumer.Kafka.{KafkaRecord}
use rule_engine.Engine.Consumer.Replay.{live_events, decodable_record}

-- Records of the log from an offset on, without a gap, and the events that they hold.
abbrev pub IsLog :
    {F : Type 0}
    → (Text → Option (BehaviorEvent F))
    → ℕ
    → List KafkaRecord
    → List (BehaviorEvent F)
    → Type 0
IsLog unmarshal k [] [] = Unit
IsLog unmarshal k [] (event ∷ events) = ⊥
IsLog unmarshal k (r ∷ records) [] = ⊥
IsLog unmarshal k (r ∷ records) (event ∷ events) =
    (r.offset ≡ k)
    × (decode_event unmarshal r.value ≡ decoded event)
    × IsLog unmarshal (suc k) records events

module _ {F : Type 0} (unmarshal : Text → Option (BehaviorEvent F)) (end : ℕ) where
  all_live :
      (k : ℕ) (records : List KafkaRecord) (events : List (BehaviorEvent F))
      → IsLog unmarshal k records events
      → live_events unmarshal (sub_ℕ end 1) false records ≡ events
  all_live k [] [] log = refl
  all_live k [] (event ∷ events) log = absurd log
  all_live k (r ∷ records) [] log = absurd log
  all_live k (r ∷ records) (event ∷ events) (at, read, log) =
      let (live, next) = decodable_record unmarshal (sub_ℕ end 1) false r event read in
      rw (live, next) (ap (λ l. event ∷ l) (all_live (suc k) records events log))

  drop-empty : (n : ℕ) → drop {A = BehaviorEvent F} n [] ≡ []
  drop-empty zero = refl
  drop-empty (suc n) = refl

  not_last : (k : ℕ) → (true && ltb_ℤ (pos k) (sub_ℕ end 1)) ≡ ltb (suc k) end
  not_last k = ground arith

  drop-below :
      (k : ℕ) (event : BehaviorEvent F) (events : List (BehaviorEvent F))
      → ltb k end ≡ true
      → drop (end - k) (event ∷ events) ≡ drop (end - suc k) events
  drop-below k event events below =
      let more : end - k ≡ suc (end - suc k) = ground (arith, below) in rw more refl

  -- Of the records from an offset on, those below the end are replayed.
  pub live_events-IsLog :
      (k : ℕ) (records : List KafkaRecord) (events : List (BehaviorEvent F))
      → IsLog unmarshal k records events
      → live_events unmarshal (sub_ℕ end 1) (ltb k end) records ≡ drop (end - k) events
  live_events-IsLog k [] [] log = sym (drop-empty (end - k))
  live_events-IsLog k [] (event ∷ events) log = absurd log
  live_events-IsLog k (r ∷ records) [] log = absurd log
  live_events-IsLog k (r ∷ records) (event ∷ events) (at, read, log) =
      elim (Bool-cases (ltb k end)) [
        | inl below ↦
            let (live, next) = decodable_record unmarshal (sub_ℕ end 1) true r event read in
            let flag = next ∙ ap (λ n. true && ltb_ℤ (pos n) (sub_ℕ end 1)) at ∙ not_last k in
            rw (below, live, flag)
              (live_events-IsLog (suc k) records events log ∙ sym (drop-below k event events below))
        | inr past ↦
            let none_left : end - k ≡ 0 = ground (arith, past) in
            rw (past, none_left) (all_live k (r ∷ records) (event ∷ events) (at, read, log))
      ]
