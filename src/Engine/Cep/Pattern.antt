-- ===== src/Engine/Cep/Pattern.antt =====
-- Patterns of service/engine/core/cep.go: validation, compilation, lookup and progress ids.
use rule_engine.Prelude.{
  ℕ, suc, ◌&&◌, not, List, [], ◌∷◌, ◌++◌, Option, none, some, nat_beq, if◌then◌else◌, ◌==◌, length,
  ltb_ℤ, pos,
}
use rule_engine.Text.{Text, text_eq}
use rule_engine.Time.{Duration}
use rule_engine.Float.{Float}
use rule_engine.Rule.Window.{duration}
use rule_engine.Rule.Outcome.{Error}
use rule_engine.Rule.Compile
use rule_engine.Rule.Compile.{CompiledRule, compile}
use rule_engine.Engine.Event.{PatternState, CepPattern}

pub record CompiledPattern (F : Type 0) : Type 0 where
  pub pattern : CepPattern F
  pub compiled_states : List (CompiledRule F)

pub data PatternError : Type 0 where
  no_states : PatternError
  first_is_negative : PatternError
  negative_not_terminal : ℕ → PatternError
  negative_without_wait : ℕ → PatternError
  compile_failed : Error → PatternError

pub data AddResult {ℓ} (A : Type ℓ) : Type ℓ where
  added : A → AddResult A
  refused : PatternError → AddResult A

module _ {F : Type 0} where
  unfoldable pub max_wait_loop : Duration → List (PatternState F) → Duration
  max_wait_loop max [] = max
  max_wait_loop max (st ∷ states) =
      max_wait_loop
        (elim st.max_wait [
          | none ↦ max
          | some w ↦ if ltb_ℤ max (duration (some w)) then duration (some w) else max
        ])
        states

  -- maxDuration
  unfoldable pub max_duration : CompiledPattern F → Duration
  max_duration cp = max_wait_loop (pos 0) cp.pattern.states

  -- the loop of AddPattern that validates the states from index i on, of n
  unfoldable pub check_states : ℕ → ℕ → List (PatternState F) → Option PatternError
  check_states i n [] = none
  check_states i n (st ∷ states) =
      let rest = check_states (suc i) n states in
      if st.is_negative && not (nat_beq (suc i) n)
      then some (negative_not_terminal i)
      else (elim st.max_wait [
        | none ↦ if st.is_negative then some (negative_without_wait i) else rest
        | some w ↦ rest
      ])

  unfoldable pub compile_states :
      Float F → List (PatternState F) → AddResult (List (CompiledRule F))
  compile_states fl [] = added []
  compile_states fl (st ∷ states) = elim (compile fl st.condition) [
    | Compile.rejected e ↦ refused (compile_failed e)
    | Compile.ok fn ↦ elim (compile_states fl states) [
      | refused e ↦ refused e
      | added fns ↦ added (fn ∷ fns)
    ]
  ]

  -- the checks and the compilation of AddPattern: the registered pattern
  unfoldable pub compile_pattern : Float F → CepPattern F → AddResult (CompiledPattern F)
  compile_pattern fl pattern = elim pattern.states [
    | [] ↦ refused no_states
    | st ∷ states ↦
        if st.is_negative
        then refused first_is_negative
        else (elim (check_states 0 (suc (length states)) (st ∷ states)) [
          | some e ↦ refused e
          | none ↦ elim (compile_states fl (st ∷ states)) [
            | refused e ↦ refused e
            | added fns ↦ added (record { pattern = pattern; compiled_states = fns })
          ]
        ])
  ]

  -- AddPattern on the list of registered patterns
  unfoldable pub add_pattern :
      Float F → List (CompiledPattern F) → CepPattern F → AddResult (List (CompiledPattern F))
  add_pattern fl patterns pattern = elim (compile_pattern fl pattern) [
    | refused e ↦ refused e
    | added cp ↦ added (patterns ++ cp ∷ [])
  ]

  unfoldable pub pattern_by_id : List (CompiledPattern F) → Text → Option (CompiledPattern F)
  pattern_by_id [] id = none
  pattern_by_id (cp ∷ rest) id = if cp.pattern.id == id then some cp else pattern_by_id rest id

unfoldable pub deterministic_progress_id : Text → Text → Text → Text
deterministic_progress_id pattern_id member_id start_event_id =
    pattern_id ++ b'|' ∷ (member_id ++ b'|' ∷ start_event_id)
