-- ===== src/Engine/Cep/Pushes.antt =====
-- processCEP of cep.go and the heap of deadlines: it changes the heap by pushes only.
use rule_engine.Prelude.{
  ◌≡◌, true, false, List, [], ◌∷◌, some, arith, inl, inr, ◌⊎◌, Bool-cases, Option-cases, get_elem?,
  any, ◌==◌,
}
use rule_engine.Text.{Text, text_eq}
use rule_engine.Time.{Time, add_time}
use rule_engine.Rule.Window.{duration}
use rule_engine.Dict
use rule_engine.Dict.{Dict}
use rule_engine.Rule.Compile.{CompiledRule}
use rule_engine.Engine.Event.{PatternState, PatternProgress, CepEvent}
use rule_engine.Engine.Eval.{holds}
use rule_engine.Engine.Deadlines.{Deadline, Heap, push}
use rule_engine.Engine.Cep.Pattern.{CompiledPattern, pattern_by_id, deterministic_progress_id}
use rule_engine.Engine.Cep.Advance.{
  cep_match_state, step_progress, finish_step, advance_negative, advance_state, advance_progress,
  is_expired,
}
use rule_engine.Engine.Cep.Process.{
  CepRun, new_progress, open_progress, start_pattern, start_all, advance_all, process_cep,
  sweep_expired_progresses,
}

-- the heap, or the heap with one more deadline
abbrev pub IsPush : Heap → Heap → Type 0
IsPush h h' = (h' ≡ h) ⊎ ((x : Deadline) × (h' ≡ push h x))

kept :
    (P : Heap → Type 0)
    → ((h : Heap) (x : Deadline) → P h → P (push h x))
    → (h h' : Heap) → IsPush h h'
    → P h
    → P h'
kept P keep h h' (inl e) p = rw e p
kept P keep h h' (inr (x, e)) p = rw e (keep h x p)

module _ {F : Type 0} where
  finish_step-IsPush :
      (cp : CompiledPattern F) (event : CepEvent F) (p : PatternProgress F) (heap : Heap)
      → IsPush heap (finish_step cp event p heap).heap
  unfolding finish_step
  finish_step-IsPush cp event p heap =
      elim (Option-cases (get_elem? cp.pattern.states p.current_step)) [
        | inl e ↦ inl (ground arith)
        | inr (next, e) ↦ elim (Bool-cases next.is_negative) [
          | inl neg ↦ inr (
            record {
              deadline = add_time p.started_at (duration next.max_wait);
              member_id = event.member_id;
              progress_id = p.id;
            },
            ground arith,
          )
          | inr pos ↦ inl (ground arith)
        ]
      ]

  module _ (cp : CompiledPattern F) (st : PatternState F) (compiled : CompiledRule F)
      (event : CepEvent F) (p : PatternProgress F) (heap : Heap) where
    stepped :
        st.is_negative ≡ false
        → is_expired event st p ≡ false
        → holds (cep_match_state event compiled p.variables) ≡ true
        → advance_state cp st compiled event p heap
          ≡ finish_step cp event (step_progress event st p) heap
    unfolding advance_state
    stepped a b c = ground arith

    advance_state-IsPush : IsPush heap (advance_state cp st compiled event p heap).heap
    advance_state-IsPush = elim (Bool-cases st.is_negative) [
      | inl neg ↦ inl (unfold advance_state advance_negative in ground arith)
      | inr pos ↦ elim (Bool-cases (is_expired event st p)) [
        | inl old ↦ inl (unfold advance_state in ground arith)
        | inr new ↦ elim (Bool-cases (holds (cep_match_state event compiled p.variables))) [
          | inl hit ↦
              rw (stepped pos new hit) (finish_step-IsPush cp event (step_progress event st p) heap)
          | inr miss ↦ inl (unfold advance_state in ground arith)
        ]
      ]
    ]

  module _ (patterns : List (CompiledPattern F)) (event : CepEvent F) (p : PatternProgress F)
      (heap : Heap) where
    reached :
        (cp : CompiledPattern F) (st : PatternState F) (compiled : CompiledRule F)
        → pattern_by_id patterns p.pattern_id ≡ some cp
        → get_elem? cp.pattern.states p.current_step ≡ some st
        → any (λ e. e == event.event_id) p.processed_events ≡ false
        → get_elem? cp.compiled_states p.current_step ≡ some compiled
        → advance_progress patterns event p heap ≡ advance_state cp st compiled event p heap
    unfolding advance_progress
    reached cp st compiled a b c d = ground arith

    advance_progress-IsPush : IsPush heap (advance_progress patterns event p heap).heap
    advance_progress-IsPush = elim (Option-cases (pattern_by_id patterns p.pattern_id)) [
      | inl a ↦ inl (unfold advance_progress in ground arith)
      | inr (cp, a) ↦ elim (Option-cases (get_elem? cp.pattern.states p.current_step)) [
        | inl b ↦ inl (unfold advance_progress in ground arith)
        | inr (st, b) ↦ elim (Bool-cases (any (λ e. e == event.event_id) p.processed_events)) [
          | inl c ↦ inl (unfold advance_progress in ground arith)
          | inr c ↦ elim (Option-cases (get_elem? cp.compiled_states p.current_step)) [
            | inl d ↦ inl (unfold advance_progress in ground arith)
            | inr (compiled, d) ↦
                rw (reached cp st compiled a b c d)
                  (advance_state-IsPush cp st compiled event p heap)
          ]
        ]
      ]
    ]

  open_progress-IsPush :
      (cp : CompiledPattern F) (event : CepEvent F) (st : PatternState F) (id : Text)
      (run : CepRun F)
      → IsPush run.heap (open_progress cp event st id run).heap
  unfolding open_progress
  open_progress-IsPush cp event st id run = elim (Option-cases (get_elem? cp.pattern.states 1)) [
    | inl e ↦ inl (ground arith)
    | inr (next, e) ↦ elim (Bool-cases next.is_negative) [
      | inl neg ↦ inr (
        record {
          deadline = add_time event.occurred_at (duration next.max_wait);
          member_id = event.member_id;
          progress_id = id;
        },
        unfold new_progress in ground arith,
      )
      | inr pos ↦ inl (ground arith)
    ]
  ]

  module _ (cp : CompiledPattern F) (event : CepEvent F) (run : CepRun F) where
    abbrev id : Text
    id = deterministic_progress_id cp.pattern.id event.member_id event.event_id

    opened :
        (st : PatternState F) (compiled : CompiledRule F)
        → get_elem? cp.pattern.states 0 ≡ some st
        → get_elem? cp.compiled_states 0 ≡ some compiled
        → holds (cep_match_state event compiled []) ≡ true
        → Dict.has run.progresses id ≡ false
        → start_pattern cp event run ≡ open_progress cp event st id run
    unfolding start_pattern
    opened st compiled a b c d = ground arith

    start_pattern-IsPush : IsPush run.heap (start_pattern cp event run).heap
    start_pattern-IsPush = elim (Option-cases (get_elem? cp.pattern.states 0)) [
      | inl a ↦ inl (unfold start_pattern in ground arith)
      | inr (st, a) ↦ elim (Option-cases (get_elem? cp.compiled_states 0)) [
        | inl b ↦ inl (unfold start_pattern in ground arith)
        | inr (compiled, b) ↦ elim (Bool-cases (holds (cep_match_state event compiled []))) [
          | inr c ↦ inl (unfold start_pattern in ground arith)
          | inl c ↦ elim (Bool-cases (Dict.has run.progresses id)) [
            | inl d ↦ inl (unfold start_pattern in ground arith)
            | inr d ↦ rw (opened st compiled a b c d) (open_progress-IsPush cp event st id run)
          ]
        ]
      ]
    ]

  -- What every push keeps, processCEP keeps.
  module _ (P : Heap → Type 0) (keep : (h : Heap) (x : Deadline) → P h → P (push h x)) where
    advance_all-kept :
        (patterns : List (CompiledPattern F)) (event : CepEvent F)
        (progresses : Dict Text (PatternProgress F)) (heap : Heap)
        → P heap
        → P (advance_all patterns event progresses heap).heap
    unfolding advance_all
    advance_all-kept patterns event [] heap p = p
    advance_all-kept patterns event ((key, x) ∷ rest) heap p =
        advance_all-kept patterns event rest (advance_progress patterns event x heap).heap
          (kept P keep heap _ (advance_progress-IsPush patterns event x heap) p)

    start_all-kept :
        (patterns : List (CompiledPattern F)) (event : CepEvent F) (run : CepRun F)
        → P run.heap
        → P (start_all patterns event run).heap
    unfolding start_all
    start_all-kept [] event run p = p
    start_all-kept (cp ∷ patterns) event run p =
        start_all-kept patterns event (start_pattern cp event run)
          (kept P keep run.heap _ (start_pattern-IsPush cp event run) p)

    pub process_cep-kept :
        (patterns : List (CompiledPattern F)) (event : CepEvent F) (watermark : Time)
        (progresses : Dict Text (PatternProgress F)) (heap : Heap)
        → P heap
        → P (process_cep patterns event watermark progresses heap).heap
    unfolding process_cep
    process_cep-kept patterns event watermark progresses heap p = start_all-kept patterns event _ (
        advance_all-kept patterns event (sweep_expired_progresses patterns watermark progresses)
          heap p)
