-- ===== src/Engine/Cep/Advance.antt =====
-- advanceProgress of service/engine/core/cep.go, with cepMatchState and extractBindings.
use rule_engine.Prelude.{
  ◌+◌, Bool, true, false, any, List, [], ◌∷◌, ◌++◌, Option, none, some, leb, if◌then◌else◌, ◌==◌,
  length, get_elem?,
}
use rule_engine.Text.{Text, text_eq, bytes, trim_prefix}
use rule_engine.Time.{Time, add_time, is_after}
use rule_engine.Dict
use rule_engine.Dict.{Dict}
use rule_engine.Rule.Value.{Value, str}
use rule_engine.Rule.Window.{duration}
use rule_engine.Rule.Outcome.{Outcome}
use rule_engine.Rule.Context.{new_map_context, with_variables, map_eval_context}
use rule_engine.Rule.Compile.{CompiledRule}
use rule_engine.Engine.Event.{PatternState, PatternProgress, CepEvent, MatchResult}
use rule_engine.Engine.Eval.{holds}
use rule_engine.Engine.Deadlines.{Heap, push}
use rule_engine.Engine.Cep.Pattern.{CompiledPattern, pattern_by_id}

module _ {F : Type 0} where
  -- cepMatchState
  unfoldable pub cep_match_state : CepEvent F → CompiledRule F → Dict Text (Value F) → Outcome
  unfolding Dict.put Dict.put_all new_map_context with_variables map_eval_context
  cep_match_state event compiled vars =
      let fields =
        Dict.put (Dict.put (Dict.put_all [] event.fields) (bytes "behavior") (str event.behavior))
          (bytes "member_id") (str event.member_id) in
      let ctx = new_map_context fields in
      compiled (map_eval_context (if leb (length vars) 0 then ctx else with_variables ctx vars))

  unfoldable pub extract_bindings : CepEvent F → Dict Text Text → Dict Text (Value F)
  unfolding Dict.get Dict.put trim_prefix
  extract_bindings event [] = []
  extract_bindings event ((var_name, src) ∷ bindings) =
      elim (Dict.get event.fields (trim_prefix src (bytes "$event."))) [
        | none ↦ extract_bindings event bindings
        | some v ↦ Dict.put (extract_bindings event bindings) var_name v
      ]

  unfoldable pub match_result :
      CompiledPattern F → Text → Dict Text (Value F) → Time → MatchResult F
  match_result cp member_id variables matched_at = record {
    pattern_id = cp.pattern.id;
    pattern_name = cp.pattern.name;
    member_id = member_id;
    variables = variables;
    matched_at = matched_at;
  }

-- What advancing one progress leaves: the progress as it was mutated, the match if it completed,
-- whether it is removed, and the deadline heap.
pub record Advanced (F : Type 0) : Type 0 where
  pub progress : PatternProgress F
  pub matched : Option (MatchResult F)
  pub removed : Bool
  pub heap : Heap

module _ {F : Type 0} where
  abbrev pub left_alone : PatternProgress F → Heap → Advanced F
  left_alone p heap = record { progress = p; matched = none; removed = false; heap = heap }

  abbrev pub dropped : PatternProgress F → Heap → Advanced F
  dropped p heap = record { progress = p; matched = none; removed = true; heap = heap }

  -- the branch of a negative state
  unfoldable pub advance_negative :
      CepEvent F → CompiledRule F → PatternProgress F → Heap → Advanced F
  unfolding cep_match_state
  advance_negative event compiled p heap =
      if is_after event.occurred_at p.negative_deadline
      then left_alone p heap
      else if holds (cep_match_state event compiled p.variables)
      then dropped p heap
      else left_alone p heap

  -- `event.OccurredAt.After(deadline)` for a state with MaxWait
  unfoldable pub is_expired : CepEvent F → PatternState F → PatternProgress F → Bool
  unfolding add_time duration
  is_expired event st p = elim st.max_wait [
    | none ↦ false
    | some w ↦ is_after event.occurred_at (add_time p.started_at (duration (some w)))
  ]

  -- the progress after the next state matched: bindings merged, one step on, the event noted
  unfoldable pub step_progress : CepEvent F → PatternState F → PatternProgress F → PatternProgress F
  unfolding Dict.put_all extract_bindings
  step_progress event st p = record p {
    variables = Dict.put_all p.variables (extract_bindings event st.context_binding);
    current_step = p.current_step + 1;
    processed_events = p.processed_events ++ event.event_id ∷ [];
  }

  -- the tail of advanceProgress: complete, park on a negative state, or wait on
  unfoldable pub finish_step :
      CompiledPattern F → CepEvent F → PatternProgress F → Heap → Advanced F
  unfolding match_result add_time duration push
  finish_step cp event p heap = elim (get_elem? cp.pattern.states p.current_step) [
    | none ↦ record {
      progress = p;
      matched = some (match_result cp event.member_id p.variables event.occurred_at);
      removed = true;
      heap = heap;
    }
    | some next ↦
        if next.is_negative
        then (let deadline = add_time p.started_at (duration next.max_wait) in
            record {
              progress = record p { negative_deadline = deadline };
              matched = none;
              removed = false;
              heap =
                  push heap (record {
                    deadline = deadline;
                    member_id = event.member_id;
                    progress_id = p.id;
                  });
            })
        else left_alone p heap
  ]

  unfoldable pub advance_state :
      CompiledPattern F
      → PatternState F
      → CompiledRule F
      → CepEvent F
      → PatternProgress F
      → Heap
      → Advanced F
  unfolding advance_negative is_expired cep_match_state step_progress finish_step
  advance_state cp st compiled event p heap =
      if st.is_negative
      then advance_negative event compiled p heap
      else if is_expired event st p
      then dropped p heap
      else if holds (cep_match_state event compiled p.variables)
      then finish_step cp event (step_progress event st p) heap
      else left_alone p heap

  -- advanceProgress; the compiled states are aligned with the states
  unfoldable pub advance_progress :
      List (CompiledPattern F) → CepEvent F → PatternProgress F → Heap → Advanced F
  unfolding pattern_by_id advance_state
  advance_progress patterns event p heap = elim (pattern_by_id patterns p.pattern_id) [
    | none ↦ dropped p heap
    | some cp ↦ elim (get_elem? cp.pattern.states p.current_step) [
      | none ↦ dropped p heap
      | some st ↦
          if any (λ e. e == event.event_id) p.processed_events
          then left_alone p heap
          else (elim (get_elem? cp.compiled_states p.current_step) [
            | none ↦ left_alone p heap
            | some compiled ↦ advance_state cp st compiled event p heap
          ])
    ]
  ]
