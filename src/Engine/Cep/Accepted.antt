-- ===== src/Engine/Cep/Accepted.antt =====
-- What AddPattern accepts.
use rule_engine.Prelude.{
  ℕ, suc, ◌+◌, ◌≡◌, refl, Bool, true, false, ◌&&◌, not, List, [], ◌∷◌, Option, none, some, arith,
  nat_beq, if◌then◌else◌, length, nat_beq_iff,
}
use rule_engine.Text.{Text}
use rule_engine.Float.{Float}
use rule_engine.Rule.Window.{TimeWindow}
use rule_engine.Rule.Compile
use rule_engine.Rule.Compile.{CompiledRule, compile}
use rule_engine.Engine.Event.{PatternState, CepPattern}
use rule_engine.Engine.Cep.Pattern.{
  CompiledPattern, PatternError, added, check_states, compile_states, compile_pattern,
  negative_not_terminal, negative_without_wait,
}

-- A negative state is the last one and has a window.
abbrev pub NegativesAreTerminal : {F : Type 0} → List (PatternState F) → Type 0
NegativesAreTerminal [] = Unit
NegativesAreTerminal (st ∷ rest) =
    (st.is_negative ≡ true → (rest ≡ []) × ((w : TimeWindow) × (st.max_wait ≡ some w)))
    × NegativesAreTerminal rest

-- The compiled conditions stand beside the states, each compiled from its state's condition.
abbrev pub Aligned : {F : Type 0} → Float F → List (PatternState F) → List (CompiledRule F) → Type 0
Aligned fl [] [] = Unit
Aligned fl (st ∷ states) (fn ∷ fns) =
    (compile fl st.condition ≡ Compile.ok fn) × Aligned fl states fns
Aligned fl [] (fn ∷ fns) = ⊥
Aligned fl (st ∷ states) [] = ⊥

pub record IsAccepted {F : Type 0} (fl : Float F) (pattern : CepPattern F) (cp : CompiledPattern F)
    : Type 0 where
  pub first : PatternState F
  pub rest : List (PatternState F)
  pub states : pattern.states ≡ first ∷ rest
  pub positive_start : first.is_negative ≡ false
  pub terminal : NegativesAreTerminal pattern.states
  pub same_pattern : cp.pattern ≡ pattern
  pub aligned : Aligned fl pattern.states cp.compiled_states

state_check_lem :
    (b neg : Bool) (i : ℕ) (wait : Option TimeWindow) (rest : Option PatternError)
    → (if neg && not b then some (negative_not_terminal i) else (elim wait [
      | none ↦ if neg then some (negative_without_wait i) else rest
      | some w ↦ rest
    ]))
      ≡ none
    → (neg ≡ true → (b ≡ true) × ((w : TimeWindow) × (wait ≡ some w))) × (rest ≡ none)
state_check_lem b neg i (some w) rest h = (λ e. (ground arith, (w, refl)), ground arith)
state_check_lem b true i none rest h = absurd (ground arith)
state_check_lem b false i none rest h = (λ e. absurd (ground arith), ground arith)

module _ {F : Type 0} where
  check_states_next :
      (i n : ℕ) (st : PatternState F) (states : List (PatternState F))
      → check_states i n (st ∷ states) ≡ none
      → (st.is_negative ≡ true → (suc i ≡ n) × ((w : TimeWindow) × (st.max_wait ≡ some w)))
        × (check_states (suc i) n states ≡ none)
  unfolding check_states
  check_states_next i n st states h =
      let (wait, next) =
        state_check_lem (nat_beq (suc i) n) st.is_negative i st.max_wait
          (check_states (suc i) n states) h in
      (λ neg. ((nat_beq_iff (suc i) n).0 (wait neg).0, (wait neg).1), next)

  check_states_sound :
      (i n : ℕ) (states : List (PatternState F))
      → n ≡ i + length states
      → check_states i n states ≡ none
      → NegativesAreTerminal states
  check_states_sound i n [] e h = tt
  check_states_sound i n (st ∷ []) e h =
      let (wait, next) = check_states_next i n st [] h in (λ neg. (refl, (wait neg).1), tt)
  check_states_sound i n (st ∷ st' ∷ states) e h =
      let (wait, next) = check_states_next i n st (st' ∷ states) h in
      (
        λ neg. absurd (let last = (wait neg).0 in omega arith),
        check_states_sound (suc i) n (st' ∷ states) (omega arith) next,
      )

  compile_states-Aligned :
      (fl : Float F) (states : List (PatternState F)) (fns : List (CompiledRule F))
      → compile_states fl states ≡ added fns
      → Aligned fl states fns
  unfolding compile_states
  compile_states-Aligned fl [] [] h = tt
  compile_states-Aligned fl [] (fn ∷ fns) h = ground arith
  compile_states-Aligned fl (st ∷ states) [] h = ground arith
  compile_states-Aligned fl (st ∷ states) (fn ∷ fns) h =
      let next = compile_states-Aligned fl states fns in ground arith

  compile_pattern_parts :
      (fl : Float F) (id name : Text) (states : List (PatternState F)) (cp : CompiledPattern F)
      → compile_pattern fl (record { id = id; name = name; states = states }) ≡ added cp
      → IsAccepted fl (record { id = id; name = name; states = states }) cp
  unfolding compile_pattern
  compile_pattern_parts fl id name [] cp h = absurd (ground arith)
  compile_pattern_parts fl id name (st ∷ states) cp h = record {
    first = st;
    rest = states;
    states = refl;
    positive_start = ground arith;
    terminal =
        check_states_sound 0 (suc (length states)) (st ∷ states) (omega arith) (ground arith);
    same_pattern = ground arith;
    aligned = compile_states-Aligned fl (st ∷ states) cp.compiled_states (ground arith);
  }

  -- A pattern that AddPattern registers has a first state that is not negative, has negative
  -- states only at its end and with a window, and is kept with one compiled condition per state,
  -- each the one that the rule compiler makes of that state's condition.
  pub compile_pattern-IsAccepted :
      (fl : Float F) (pattern : CepPattern F) (cp : CompiledPattern F)
      → compile_pattern fl pattern ≡ added cp
      → IsAccepted fl pattern cp
  compile_pattern-IsAccepted fl pattern cp h =
      compile_pattern_parts fl pattern.id pattern.name pattern.states cp h
