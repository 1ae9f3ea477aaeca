-- ===== src/Engine/Consumer/Replay/Records.antt =====
-- One poll of consumer_kafka.go: the side effects of its records.
use rule_engine.Prelude.{
  ℕ, ◌≡◌, refl, sym, ◌∙◌, Bool, true, false, not, ◌&&◌, List, [], ◌∷◌, ◌++◌, Option, inl, inr,
  arith, if◌then◌else◌, ℤ, pos, ltb_ℤ, Bool-cases,
}
use mathlib.Core.List.{Sublistᴰ}
use mathlib.Core.List.Sublistᴰ.{slnil, cons, cons-cons}
use rule_engine.Text.{Text}
use rule_engine.Float.{Float}
use rule_engine.Engine.Event.{BehaviorEvent}
use rule_engine.Engine.Core.{process_event}
use rule_engine.Engine.Core.Late.{replaying-process_event, late_events-process_event}
use rule_engine.Engine.Consumer.{DecodeError, decoded, undecodable, decode_event}
use rule_engine.Engine.Consumer.Loop.{Loop, Effects, no_effects, note_position, handle_event}
use rule_engine.Engine.Consumer.Kafka.{KafkaRecord, kafka_record, kafka_records}
use rule_engine.Engine.Consumer.Replay.{
  replaying_next, replaying_after, live_event, live_events, Decoded-cases, undecodable_record,
  decodable_record,
}

pub Sublist-append :
    {A : Type 0} {a b c d : List A} → Sublistᴰ a b → Sublistᴰ c d → Sublistᴰ (a ++ c) (b ++ d)
Sublist-append slnil q = q
Sublist-append (cons p) q = cons (Sublist-append p q)
Sublist-append (cons-cons e p) q = cons-cons e (Sublist-append p q)

-- the shard and the loop agree on whether a replay is running
abbrev pub InStep : {F : Type 0} → Loop F → Type 0
InStep l = l.core.replaying ≡ l.replaying

-- What a poll, or a part of it, did: its effects and the flag that it left.
pub record Handled {F : Type 0} (has_hook : Bool) (live : List (BehaviorEvent F)) (flag : Bool)
    (out : Loop F × Effects F) : Type 0 where
  pub on_processed : has_hook ≡ true → out.1.on_processed ≡ live
  pub late : Sublistᴰ out.1.late live
  pub replaying : out.0.replaying ≡ flag
  pub in_step : InStep out.0

module _ {F : Type 0} where
  replaying-note_position :
      (target : ℤ) (seq : ℕ) (l : Loop F)
      → (note_position target seq l).replaying ≡ (l.replaying && ltb_ℤ (pos seq) target)
  unfolding note_position
  replaying-note_position target seq l = ground arith

  note_position-InStep :
      (target : ℤ) (seq : ℕ) (l : Loop F) → InStep l → InStep (note_position target seq l)
  unfolding note_position
  note_position-InStep target seq l h = ground arith

module _ {F : Type 0} ⦃fl : Float F⦄ (unmarshal : Text → Option (BehaviorEvent F)) (has_hook : Bool)
    (target : ℤ) where
  dropped :
      (l : Loop F) (r : KafkaRecord) (e : DecodeError)
      → decode_event unmarshal r.value ≡ undecodable e
      → kafka_record unmarshal has_hook target l r ≡ (l, no_effects)
  unfolding kafka_record
  dropped l r e q = ground arith

  -- the loop after ProcessEvent
  abbrev processed : Loop F → BehaviorEvent F → Loop F
  processed l event = record l { core = (process_event l.core event).core }

  handled :
      (l : Loop F) (r : KafkaRecord) (event : BehaviorEvent F)
      → decode_event unmarshal r.value ≡ decoded event
      → kafka_record unmarshal has_hook target l r ≡ (
        note_position target r.offset (processed l event),
        record {
          late = (process_event l.core event).late_events;
          on_processed = if has_hook && not l.replaying then event ∷ [] else [];
        },
      )
  unfolding kafka_record handle_event
  handled l r event q = ground arith

  late_of :
      (l : Loop F) (event : BehaviorEvent F)
      → InStep l
      → Sublistᴰ (process_event l.core event).late_events (if l.replaying then [] else event ∷ [])
  late_of l event h = elim (late_events-process_event l.core event) [
    | inl e ↦ elim (Bool-cases l.replaying) [
      | inl on ↦ rw (e, on) slnil
      | inr off ↦ rw (e, off) (cons slnil)
    ]
    | inr (e, off) ↦ rw (e, sym h ∙ off) (cons-cons refl slnil)
  ]

  hook_of :
      (replaying : Bool) (event : BehaviorEvent F)
      → has_hook ≡ true
      → (if has_hook && not replaying then event ∷ [] else [])
        ≡ (if replaying then [] else event ∷ [])
  hook_of true event h = rw h refl
  hook_of false event h = rw h refl

  pub kafka_record-Handled :
      (l : Loop F) (r : KafkaRecord)
      → InStep l
      → Handled has_hook
          (live_event unmarshal target l.replaying r)
          (replaying_next unmarshal target l.replaying r)
          (kafka_record unmarshal has_hook target l r)
  kafka_record-Handled l r h = elim (Decoded-cases (decode_event unmarshal r.value)) [
    | inl (e, q) ↦
        let (live, next) = undecodable_record unmarshal target l.replaying r e q in
        rw (dropped l r e q, live, next)
          (record { on_processed = λ hook. refl; late = slnil; replaying = refl; in_step = h })
    | inr (event, q) ↦
        let (live, next) = decodable_record unmarshal target l.replaying r event q in
        rw (handled l r event q, live, next)
          (record {
            on_processed = hook_of l.replaying event;
            late = late_of l event h;
            replaying = replaying-note_position target r.offset (processed l event);
            in_step =
                note_position-InStep target r.offset (processed l event)
                  (replaying-process_event l.core event ∙ h);
          })
  ]

  pub kafka_records-Handled :
      (l : Loop F) (records : List KafkaRecord)
      → InStep l
      → Handled has_hook
          (live_events unmarshal target l.replaying records)
          (replaying_after unmarshal target l.replaying records)
          (kafka_records unmarshal has_hook target l records)
  unfolding kafka_records
  kafka_records-Handled l [] h = record {
    on_processed = λ hook. refl;
    late = slnil;
    replaying = refl;
    in_step = h;
  }
  kafka_records-Handled l (r ∷ records) h =
      let first = kafka_record-Handled l r h in
      let l' = (kafka_record unmarshal has_hook target l r).0 in
      let later = rw first.replaying at (kafka_records-Handled l' records first.in_step) in
      record {
        on_processed = λ hook. rw (first.on_processed hook, later.on_processed hook) refl;
        late = Sublist-append first.late later.late;
        replaying = later.replaying;
        in_step = later.in_step;
      }
