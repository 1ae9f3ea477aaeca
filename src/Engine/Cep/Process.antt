-- ===== src/Engine/Cep/Process.antt =====
-- processCEP of service/engine/core/cep.go: the sweep, Action A and Action B.
use rule_engine.Prelude.{
  Bool, true, ◌&&◌, not, List, [], ◌∷◌, ◌++◌, Option, none, some, if◌then◌else◌, get_elem?, ltb_ℤ,
  pos,
}
use rule_engine.Text.{Text, text_eq}
use rule_engine.Time.{Time, add_time, sub_time}
use rule_engine.Dict
use rule_engine.Dict.{Dict}
use rule_engine.Rule.Value.{Value}
use rule_engine.Rule.Window.{duration}
use rule_engine.Engine.Event.{PatternState, PatternProgress, CepEvent, MatchResult}
use rule_engine.Engine.Eval.{holds}
use rule_engine.Engine.Deadlines.{Heap, push}
use rule_engine.Engine.Cep.Pattern.{
  CompiledPattern, pattern_by_id, max_duration, deterministic_progress_id,
}
use rule_engine.Engine.Cep.Advance.{
  cep_match_state, extract_bindings, match_result, advance_progress,
}

abbrev pub option_list {ℓ} : {A : Type ℓ} → Option A → List A
option_list none = []
option_list (some a) = a ∷ []

-- What processCEP threads through its loops: the member's progresses, the heap and the matches.
pub record CepRun (F : Type 0) : Type 0 where
  pub progresses : Dict Text (PatternProgress F)
  pub heap : Heap
  pub results : List (MatchResult F)

module _ {F : Type 0} where
  -- sweepExpiredProgresses: whether a progress is deleted
  unfoldable pub is_swept : List (CompiledPattern F) → Time → PatternProgress F → Bool
  unfolding pattern_by_id max_duration sub_time
  is_swept patterns watermark p = elim (pattern_by_id patterns p.pattern_id) [
    | none ↦ true
    | some cp ↦
        ltb_ℤ (pos 0) (max_duration cp) && ltb_ℤ (max_duration cp) (sub_time watermark p.started_at)
  ]

  unfoldable pub sweep_expired_progresses :
      List (CompiledPattern F)
      → Time
      → Dict Text (PatternProgress F)
      → Dict Text (PatternProgress F)
  unfolding is_swept
  sweep_expired_progresses patterns watermark [] = []
  sweep_expired_progresses patterns watermark ((id, p) ∷ rest) =
      let kept = sweep_expired_progresses patterns watermark rest in
      if is_swept patterns watermark p then kept else (id, p) ∷ kept

  -- Action A: the loop over the member's progresses
  unfoldable pub advance_all :
      List (CompiledPattern F) → CepEvent F → Dict Text (PatternProgress F) → Heap → CepRun F
  unfolding advance_progress
  advance_all patterns event [] heap = record { progresses = []; heap = heap; results = [] }
  advance_all patterns event ((id, p) ∷ rest) heap =
      let a = advance_progress patterns event p heap in
      let run = advance_all patterns event rest a.heap in
      record {
        progresses = if a.removed then run.progresses else (id, a.progress) ∷ run.progresses;
        heap = run.heap;
        results = option_list a.matched ++ run.results;
      }

  -- the new progress of Action B
  unfoldable pub new_progress :
      CompiledPattern F → CepEvent F → Text → Dict Text (Value F) → PatternProgress F
  new_progress cp event id vars = record {
    id = id;
    pattern_id = cp.pattern.id;
    member_id = event.member_id;
    current_step = 1;
    variables = vars;
    started_at = event.occurred_at;
    expires_at = 0;
    processed_events = event.event_id ∷ [];
    negative_deadline = 0;
  }

  -- The first state matched and the start is new: an instant match, or a new progress, which is
  -- parked if its next state is negative.
  unfoldable pub open_progress :
      CompiledPattern F → CepEvent F → PatternState F → Text → CepRun F → CepRun F
  unfolding extract_bindings match_result new_progress Dict.put push add_time duration
  open_progress cp event st id run =
      let vars = extract_bindings event st.context_binding in
      let p = new_progress cp event id vars in
      elim (get_elem? cp.pattern.states 1) [
        | none ↦ record run {
          results = run.results ++ match_result cp event.member_id vars event.occurred_at ∷ [];
        }
        | some next ↦
            if next.is_negative
            then (let deadline = add_time p.started_at (duration next.max_wait) in
                record run {
                  progresses =
                      Dict.put run.progresses id (record p { negative_deadline = deadline });
                  heap = push run.heap (record {
                    deadline = deadline;
                    member_id = event.member_id;
                    progress_id = id;
                  });
                })
            else record run { progresses = Dict.put run.progresses id p }
      ]

  -- one round of Action B
  unfoldable pub start_pattern : CompiledPattern F → CepEvent F → CepRun F → CepRun F
  unfolding cep_match_state deterministic_progress_id Dict.has open_progress
  start_pattern cp event run = elim (get_elem? cp.pattern.states 0) [
    | none ↦ run
    | some st ↦ elim (get_elem? cp.compiled_states 0) [
      | none ↦ run
      | some compiled ↦
          let id = deterministic_progress_id cp.pattern.id event.member_id event.event_id in
          if not (holds (cep_match_state event compiled []))
          then run
          else if Dict.has run.progresses id
          then run
          else open_progress cp event st id run
    ]
  ]

  -- Action B: the loop over the patterns
  unfoldable pub start_all : List (CompiledPattern F) → CepEvent F → CepRun F → CepRun F
  unfolding start_pattern
  start_all [] event run = run
  start_all (cp ∷ patterns) event run = start_all patterns event (start_pattern cp event run)

  -- processCEP
  unfoldable pub process_cep :
      List (CompiledPattern F) → CepEvent F → Time → Dict Text (PatternProgress F) → Heap → CepRun F
  unfolding sweep_expired_progresses advance_all start_all
  process_cep patterns event watermark progresses heap =
      start_all patterns event
        (advance_all patterns event (sweep_expired_progresses patterns watermark progresses) heap)
