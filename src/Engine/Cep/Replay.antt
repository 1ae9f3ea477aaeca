-- ===== src/Engine/Cep/Replay.antt =====
-- advanceProgress on an event that comes again.
use rule_engine.Prelude.{
  ◌≡◌, ◌≢◌, if◌then◌else◌, ap, Option, ◌∙◌, true, false, any, List, [], ◌∷◌, ◌++◌, none, some,
  arith, ◌==◌, get_elem?, inl, inr, ◌⊎◌, Option-cases, Bool-cases, beq_refl,
}
use rule_engine.Text.{Text, text_eq}
use rule_engine.Rule.Compile.{CompiledRule}
use rule_engine.Engine.Event.{PatternState, PatternProgress, CepEvent}
use rule_engine.Engine.Deadlines.{Heap}
use rule_engine.Engine.Cep.Pattern.{CompiledPattern, pattern_by_id}
use rule_engine.Engine.Cep.Advance.{
  Advanced, left_alone, step_progress, finish_step, advance_negative, advance_state,
  advance_progress,
}

any-last : (id : Text) (ids : List Text) → any (λ e. e == id) (ids ++ id ∷ []) ≡ true
any-last id [] = ground (arith, beq_refl id)
any-last id (x ∷ ids) = ground (arith, any-last id ids)

any-append :
    (id : Text) (ids : List Text) (last : Text)
    → any (λ e. e == id) ids ≡ true
    → any (λ e. e == id) (ids ++ last ∷ []) ≡ true
any-append id [] last known = ground (arith, known)
any-append id (x ∷ ids) last known = ground (arith, known, any-append id ids last)

-- A progress whose pattern is registered and has the state that it waits in.
abbrev HasState : {F : Type 0} → List (CompiledPattern F) → PatternProgress F → Type 0
HasState {F} patterns p =
    (cp : CompiledPattern F) × (st : PatternState F) × (pattern_by_id patterns p.pattern_id
      ≡ some cp)
    × (get_elem? cp.pattern.states p.current_step ≡ some st)

module _ {F : Type 0} (patterns : List (CompiledPattern F)) (cp : CompiledPattern F)
    (event : CepEvent F) (p : PatternProgress F) where
  finish_lem :
      (q : PatternProgress F) (heap : Heap)
      → (finish_step cp event q heap).removed ≡ false
      → (next : PatternState F) × (get_elem? cp.pattern.states q.current_step ≡ some next)
        × ((finish_step cp event q heap).progress.current_step ≡ q.current_step)
        × ((finish_step cp event q heap).progress.pattern_id ≡ q.pattern_id)
        × ((finish_step cp event q heap).progress.processed_events ≡ q.processed_events)
  unfolding finish_step
  finish_lem q heap h = ground arith

  noted_lem :
      (q : PatternProgress F) (heap : Heap) (next : PatternState F)
      → pattern_by_id patterns q.pattern_id ≡ some cp
      → get_elem? cp.pattern.states q.current_step ≡ some next
      → any (λ e. e == event.event_id) q.processed_events ≡ true
      → advance_progress patterns event q heap ≡ left_alone q heap
  unfolding advance_progress
  noted_lem q heap next f g n = ground arith

  state_lem :
      (st : PatternState F) (compiled : CompiledRule F) (heap : Heap)
      → (advance_state cp st compiled event p heap).removed ≡ false
      → (advance_state cp st compiled event p heap ≡ left_alone p heap)
        ⊎ (advance_state cp st compiled event p heap
            ≡ finish_step cp event (step_progress event st p) heap)
  unfolding advance_state advance_negative
  state_lem st compiled heap h = ground arith

module _ {F : Type 0} (patterns : List (CompiledPattern F)) (event : CepEvent F)
    (p : PatternProgress F) (heap : Heap) where
  abbrev after : Advanced F
  after = advance_progress patterns event p heap

  -- The event left the progress alone or made it take a step of its pattern.
  abbrev Kept : Type 0
  Kept =
      (after ≡ left_alone p heap)
      ⊎ ((cp : CompiledPattern F) × (st : PatternState F) × (pattern_by_id patterns p.pattern_id
            ≡ some cp)
          × (after ≡ finish_step cp event (step_progress event st p) heap))

  module _ (h : after.removed ≡ false) where
    found_pattern : (cp : CompiledPattern F) × (pattern_by_id patterns p.pattern_id ≡ some cp)
    unfolding advance_progress
    found_pattern = elim (Option-cases (pattern_by_id patterns p.pattern_id)) [
      | inl e ↦ absurd (ground arith)
      | inr x ↦ x
    ]

    module _ (cp : CompiledPattern F) (f : pattern_by_id patterns p.pattern_id ≡ some cp) where
      found_state : (st : PatternState F) × (get_elem? cp.pattern.states p.current_step ≡ some st)
      unfolding advance_progress
      found_state = elim (Option-cases (get_elem? cp.pattern.states p.current_step)) [
        | inl e ↦ absurd (ground arith)
        | inr x ↦ x
      ]

      module _ (st : PatternState F)
          (g : get_elem? cp.pattern.states p.current_step ≡ some st) where
        uncompiled_lem :
            (k : Heap)
            → get_elem? cp.compiled_states p.current_step ≡ none
            → advance_progress patterns event p k ≡ left_alone p k
        unfolding advance_progress
        uncompiled_lem k e = ground arith

        known_lem :
            (k : Heap)
            → any (λ e. e == event.event_id) p.processed_events ≡ true
            → advance_progress patterns event p k ≡ left_alone p k
        unfolding advance_progress
        known_lem k e = ground arith

        run_lem :
            (k : Heap) (compiled : CompiledRule F)
            → any (λ e. e == event.event_id) p.processed_events ≡ false
            → get_elem? cp.compiled_states p.current_step ≡ some compiled
            → advance_progress patterns event p k ≡ advance_state cp st compiled event p k
        unfolding advance_progress
        run_lem k compiled n e = ground arith

        kept_state : Kept
        kept_state = elim (Bool-cases (any (λ e. e == event.event_id) p.processed_events)) [
          | inl n ↦ inl (known_lem heap n)
          | inr n ↦ elim (Option-cases (get_elem? cp.compiled_states p.current_step)) [
            | inl e ↦ inl (uncompiled_lem heap e)
            | inr (compiled, e) ↦
                elim (state_lem patterns cp event p st compiled heap
                  (ground (arith, h, run_lem heap compiled n e))) [
                    | inl now ↦ inl (run_lem heap compiled n e ∙ now)
                    | inr step ↦ inr (cp, st, f, run_lem heap compiled n e ∙ step)
                  ]
          ]
        ]

    kept_lem : Kept
    kept_lem = let (cp, f) = found_pattern in let (st, g) = found_state cp f in kept_state cp f st g

    -- what a step leaves
    stepped_lem :
        (cp : CompiledPattern F) (st : PatternState F)
        → pattern_by_id patterns p.pattern_id ≡ some cp
        → after ≡ finish_step cp event (step_progress event st p) heap
        → HasState patterns after.progress
          × (after.progress.processed_events ≡ p.processed_events ++ event.event_id ∷ [])
    unfolding step_progress
    stepped_lem cp st f e =
        let (next, there, step, pattern, noted) =
          finish_lem patterns cp event p (step_progress event st p) heap (ground (arith, h, e)) in
        rw e ((cp, next, rw pattern f, rw step there), noted)

    HasState-after : HasState patterns after.progress
    HasState-after = elim kept_lem [
      | inl alone ↦
          let (cp, f) = found_pattern in let (st, g) = found_state cp f in rw alone (cp, st, f, g)
      | inr (cp, st, f, e) ↦ (stepped_lem cp st f e).0
    ]

    counted_lem :
        after.progress.current_step ≢ p.current_step
        → any (λ e. e == event.event_id) after.progress.processed_events ≡ true
    counted_lem moved = elim kept_lem [
      | inl alone ↦ absurd (moved (ap (λ a. a.progress.current_step) alone))
      | inr (cp, st, f, e) ↦
          rw ((stepped_lem cp st f e).1) (any-last event.event_id p.processed_events)
    ]

    still_counted :
        (id : Text)
        → any (λ e. e == id) p.processed_events ≡ true
        → any (λ e. e == id) after.progress.processed_events ≡ true
    still_counted id known = elim kept_lem [
      | inl alone ↦ rw alone known
      | inr (cp, st, f, e) ↦
          rw ((stepped_lem cp st f e).1) (any-append id p.processed_events event.event_id known)
    ]

module _ {F : Type 0} (patterns : List (CompiledPattern F)) where
  -- A progress after deliveries of events, each on some heap; none if one of them removed it.
  abbrev pub deliver_all : List (CepEvent F × Heap) → PatternProgress F → Option (PatternProgress F)
  deliver_all [] p = some p
  deliver_all ((event, heap) ∷ rest) p =
      let a = advance_progress patterns event p heap in
      let later = deliver_all rest a.progress in if a.removed then none else later

  kept_through :
      (id : Text) (deliveries : List (CepEvent F × Heap)) (p q : PatternProgress F)
      → deliver_all deliveries p ≡ some q
      → HasState patterns p
      → any (λ e. e == id) p.processed_events ≡ true
      → HasState patterns q × (any (λ e. e == id) q.processed_events ≡ true)
  kept_through id [] p q e there known =
      let same : p ≡ q = ground (arith, e) in rw (← same) (there, known)
  kept_through id ((event, heap) ∷ rest) p q e there known =
      let a = advance_progress patterns event p heap in
      elim (Bool-cases a.removed) [
        | inl gone ↦ absurd (ground (arith, e, gone))
        | inr stays ↦
            kept_through id rest a.progress q (ground (arith, e, stays))
              (HasState-after patterns event p heap stays)
              (still_counted patterns event p heap stays id known)
      ]

  -- An event that moved a progress on never acts on it again: after any further deliveries that left
  -- the progress in place, of that event or of others, a delivery of the event leaves the progress
  -- and the deadlines alone, without a match.
  pub advance_progress_again :
      (event : CepEvent F) (p q : PatternProgress F) (heap heap' : Heap)
      (between : List (CepEvent F × Heap))
      → (advance_progress patterns event p heap).removed ≡ false
      → (advance_progress patterns event p heap).progress.current_step ≢ p.current_step
      → deliver_all between (advance_progress patterns event p heap).progress ≡ some q
      → advance_progress patterns event q heap' ≡ left_alone q heap'
  advance_progress_again event p q heap heap' between stays moved e =
      let ((cp, st, f, g), known) =
        kept_through event.event_id between (advance_progress patterns event p heap).progress q e
          (HasState-after patterns event p heap stays)
          (counted_lem patterns event p heap stays moved) in
      noted_lem patterns cp event p q heap' st f g known
