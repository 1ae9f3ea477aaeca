-- ===== src/Engine/Consumer/Replay.antt =====
-- The replay of consumer_kafka.go: which events of the records polled have their side effects, those
-- that leave the process.
pub mod Records
pub mod Polls
pub mod Log
pub mod Start
use rule_engine.Prelude.{
  ℕ, ◌≡◌, refl, ap, ◌∙◌, Bool, true, false, not, ◌&&◌, List, [], ◌∷◌, ◌++◌, Option, none, some, inl,
  inr, ◌⊎◌, arith, if◌then◌else◌, ℤ, pos, ltb_ℤ,
}
use rule_engine.Text.{Text}
use rule_engine.Engine.Event.{BehaviorEvent}
use rule_engine.Engine.Consumer.{DecodeError, Decoded, decoded, undecodable, decode_event}
use rule_engine.Engine.Consumer.Kafka.{KafkaRecord, Poll}

module _ {F : Type 0} (unmarshal : Text → Option (BehaviorEvent F)) (target : ℤ) where
  -- A replay ends with the first decodable record at or past the target.
  abbrev pub replaying_next : Bool → KafkaRecord → Bool
  replaying_next replaying r = elim (decode_event unmarshal r.value) [
    | undecodable e ↦ replaying
    | decoded event ↦ replaying && ltb_ℤ (pos r.offset) target
  ]

  abbrev pub replaying_after : Bool → List KafkaRecord → Bool
  replaying_after replaying [] = replaying
  replaying_after replaying (r ∷ rest) = replaying_after (replaying_next replaying r) rest

  -- the event of a record, unless it is replayed or cannot be decoded
  abbrev pub live_event : Bool → KafkaRecord → List (BehaviorEvent F)
  live_event replaying r = elim (decode_event unmarshal r.value) [
    | undecodable e ↦ []
    | decoded event ↦ if replaying then [] else event ∷ []
  ]

  pub undecodable_record :
      (replaying : Bool) (r : KafkaRecord) (e : DecodeError)
      → decode_event unmarshal r.value ≡ undecodable e
      → (live_event replaying r ≡ []) × (replaying_next replaying r ≡ replaying)
  undecodable_record replaying r e q = (ground arith, ground arith)

  pub decodable_record :
      (replaying : Bool) (r : KafkaRecord) (event : BehaviorEvent F)
      → decode_event unmarshal r.value ≡ decoded event
      → (live_event replaying r ≡ (if replaying then [] else event ∷ []))
        × (replaying_next replaying r ≡ (replaying && ltb_ℤ (pos r.offset) target))
  decodable_record replaying r event q = (ground arith, ground arith)

  -- the events that are live, in order
  abbrev pub live_events : Bool → List KafkaRecord → List (BehaviorEvent F)
  live_events replaying [] = []
  live_events replaying (r ∷ rest) =
      live_event replaying r ++ live_events (replaying_next replaying r) rest

  pub live_events-append :
      (replaying : Bool) (xs ys : List KafkaRecord)
      → live_events replaying (xs ++ ys)
        ≡ live_events replaying xs ++ live_events (replaying_after replaying xs) ys
  live_events-append replaying [] ys = refl
  live_events-append replaying (x ∷ xs) ys =
      ap (λ rest. live_event replaying x ++ rest)
        (live_events-append (replaying_next replaying x) xs ys)
      ∙ rearrange (live_event replaying x) (live_events (replaying_next replaying x) xs)
          (live_events (replaying_after (replaying_next replaying x) xs) ys)
    where
      rearrange : (a b d : List (BehaviorEvent F)) → a ++ (b ++ d) ≡ (a ++ b) ++ d
      rearrange [] b d = refl
      rearrange (x ∷ a) b d = ap (λ rest. x ∷ rest) (rearrange a b d)

  pub replaying_after-append :
      (replaying : Bool) (xs ys : List KafkaRecord)
      → replaying_after replaying (xs ++ ys) ≡ replaying_after (replaying_after replaying xs) ys
  replaying_after-append replaying [] ys = refl
  replaying_after-append replaying (x ∷ xs) ys =
      replaying_after-append (replaying_next replaying x) xs ys

pub Decoded-cases :
    {F : Type 0} (d : Decoded F)
    → ((e : DecodeError) × (d ≡ undecodable e)) ⊎ ((event : BehaviorEvent F) × (d ≡ decoded event))
Decoded-cases (undecodable e) = inl (e, refl)
Decoded-cases (decoded event) = inr (event, refl)

-- the records of all polls
abbrev pub all_records : List Poll → List KafkaRecord
all_records [] = []
all_records (poll ∷ polls) = poll.records ++ all_records polls
