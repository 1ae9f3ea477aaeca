-- ===== src/Generator/Sent.antt =====
-- What the generator of cmd/event-producer counts, and where it stops.
use rule_engine.Prelude.{
  ℕ, suc, ◌+◌, ◌≤◌, ◌≡◌, ◌⊎◌, refl, List, [], ◌∷◌, Bool, true, false, Option, none, some, ◌&&◌, not,
  ltb_ℤ, pos, length, arith, inl, inr, Bool-cases, Option-cases,
}
use rule_engine.Engine.Event.{BehaviorEvent}
use rule_engine.Engine.Producer.{PublishError}
use rule_engine.Generator.{GeneratorSettings, Tick, generated_event, generate}

abbrev pub Publish : Type 0 → Type 0 → Type 0
Publish F S = S → BehaviorEvent F → S × Option PublishError

abbrev count_if_sent : Option PublishError → ℕ → ℕ
count_if_sent none n = suc n
count_if_sent (some e) n = n

-- a broker that counts the events it accepts and those it is given
abbrev pub accepting : {F S : Type 0} → Publish F S → Publish F (S × ℕ × ℕ)
accepting publish (store, accepted, given) event =
    let (store', err) = publish store event in
    ((store', count_if_sent err accepted, suc given), err)

-- the test on COUNT
abbrev is_last : GeneratorSettings → ℕ → Bool
is_last settings sent = ltb_ℤ (pos 0) settings.count && not (ltb_ℤ (pos (suc sent)) settings.count)

module _ {F S : Type 0} (publish : Publish F S) (settings : GeneratorSettings) (store : S)
    (sent : ℕ) (tick : Tick F) (ticks : List (Tick F)) where
  abbrev answer : S × Option PublishError
  answer = publish store (generated_event settings.behavior tick)

  unsent_lem :
      (e : PublishError)
      → answer.1 ≡ some e
      → generate publish settings store sent (tick ∷ ticks)
        ≡ generate publish settings answer.0 sent ticks
  unfolding generate
  unsent_lem e h = rw (generate, h) refl

  last_lem :
      answer.1 ≡ none
      → is_last settings sent ≡ true
      → generate publish settings store sent (tick ∷ ticks) ≡ (answer.0, suc sent)
  unfolding generate
  last_lem h l = rw (generate, h, l) refl

  next_lem :
      answer.1 ≡ none
      → is_last settings sent ≡ false
      → generate publish settings store sent (tick ∷ ticks)
        ≡ generate publish settings answer.0 (suc sent) ticks
  unfolding generate
  next_lem h l = rw (generate, h, l) refl

module _ {F S : Type 0} (publish : Publish F S) (settings : GeneratorSettings) where
  bounded :
      (store : S) (n k : ℕ) (ticks : List (Tick F))
      → settings.count ≡ pos (suc k)
      → n ≤ k
      → (generate publish settings store n ticks).1 ≤ suc k
  bounded store n k [] c h = unfold generate in omega (arith, h)
  bounded store n k (tick ∷ ticks) c h =
      let a = publish store (generated_event settings.behavior tick) in
      elim (Option-cases a.1) [
        | inr (e, q) ↦
            rw (unsent_lem publish settings store n tick ticks e q) (bounded a.0 n k ticks c h)
        | inl q ↦ elim (Bool-cases (is_last settings n)) [
          | inl l ↦ rw (last_lem publish settings store n tick ticks q l) (omega (arith, h))
          | inr l ↦
              rw (next_lem publish settings store n tick ticks q l)
                (bounded a.0 (suc n) k ticks c (ground (arith, c, l)))
        ]
      ]

module _ {F S : Type 0} (settings : GeneratorSettings) where
  counts :
      (publish : Publish F S) (store : S) (n given : ℕ) (ticks : List (Tick F))
      → (generate (accepting publish) settings (store, n, given) n ticks).0.1
        ≡ (generate (accepting publish) settings (store, n, given) n ticks).1
  counts publish store n given [] = unfold generate in refl
  counts publish store n given (tick ∷ ticks) =
      let a = publish store (generated_event settings.behavior tick) in
      let s : S × ℕ × ℕ = (store, n, given) in
      elim (Option-cases a.1) [
        | inr (e, h) ↦
            rw (unsent_lem (accepting publish) settings s n tick ticks e h, h)
              (counts publish a.0 n (suc given) ticks)
        | inl h ↦ elim (Bool-cases (is_last settings n)) [
          | inl l ↦ rw (last_lem (accepting publish) settings s n tick ticks h l, h) refl
          | inr l ↦
              rw (next_lem (accepting publish) settings s n tick ticks h l, h)
                (counts publish a.0 (suc n) (suc given) ticks)
        ]
      ]

  stops :
      (publish : Publish F S) (store : S) (accepted given n k total : ℕ) (ticks : List (Tick F))
      → settings.count ≡ pos (suc k)
      → n ≤ k
      → given + length ticks ≡ total
      → ((generate (accepting publish) settings (store, accepted, given) n ticks).1 ≡ suc k)
        ⊎ ((generate (accepting publish) settings (store, accepted, given) n ticks).0.2 ≡ total)
  stops publish store accepted given n k total [] c h t = inr (unfold generate in omega (arith, t))
  stops publish store accepted given n k total (tick ∷ ticks) c h t =
      let a = publish store (generated_event settings.behavior tick) in
      let s : S × ℕ × ℕ = (store, accepted, given) in
      elim (Option-cases a.1) [
        | inr (e, q) ↦ rw (unsent_lem (accepting publish) settings s n tick ticks e q) (
            stops publish a.0 (count_if_sent a.1 accepted) (suc given) n k total ticks c h
              (omega (arith, t)))
        | inl q ↦ elim (Bool-cases (is_last settings n)) [
          | inl l ↦
              rw (last_lem (accepting publish) settings s n tick ticks q l)
                (inl (ground (arith, c, l, h)))
          | inr l ↦ rw (next_lem (accepting publish) settings s n tick ticks q l) (
              stops publish a.0 (count_if_sent a.1 accepted) (suc given) (suc n) k total ticks c
                (ground (arith, c, l)) (omega (arith, t)))
        ]
      ]

  -- With COUNT = k + 1 the generator counts exactly the events that the broker accepted, at most
  -- k + 1 of them, and it stops at k + 1 or has given the broker an event for every tick.
  pub generate-sent :
      (publish : Publish F S) (store : S) (k : ℕ) (ticks : List (Tick F))
      → settings.count ≡ pos (suc k)
      → ((generate (accepting publish) settings (store, 0, 0) 0 ticks).0.1
          ≡ (generate (accepting publish) settings (store, 0, 0) 0 ticks).1)
        × ((generate (accepting publish) settings (store, 0, 0) 0 ticks).1 ≤ suc k)
        × (((generate (accepting publish) settings (store, 0, 0) 0 ticks).1 ≡ suc k)
            ⊎ ((generate (accepting publish) settings (store, 0, 0) 0 ticks).0.2 ≡ length ticks))
  generate-sent publish store k ticks c = (
    counts publish store 0 0 ticks,
    bounded (accepting publish) settings (store, 0, 0) 0 k ticks c (omega arith),
    stops publish store 0 0 0 k (length ticks) ticks c (omega arith) (omega arith),
  )
