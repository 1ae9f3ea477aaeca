-- ===== src/Tests/Patterns.antt =====
-- Patterns: what AddPattern accepts and refuses, and the sweep of a parked progress.
use rule_engine.Tests.Samples.{no_rules}
use rule_engine.Prelude.{false, false, ◌≡◌, ◌≢◌, some, pos, refl, List, [], ◌∷◌, ℤ, arith, ◌++◌}
use rule_engine.Text.{Text, bytes}
use rule_engine.Rule.Compile.{CompiledRule}
use rule_engine.Engine.Event.{CepEvent, PatternProgress}
use rule_engine.Engine.Cep.Pattern.{
  CompiledPattern, negative_not_terminal, AddResult, added, refused, compile_states,
  compile_pattern,
}
use rule_engine.Engine.Cep.Process.{sweep_expired_progresses}
use rule_engine.Engine.Cep.Accepted.{IsAccepted, compile_pattern-IsAccepted}
use rule_engine.Engine.Cep.Sweep.{Overdue, parked_progress-swept}
use rule_engine.Rule.Value.{str}
use rule_engine.Engine.Cep.Advance.{advance_progress, left_alone}
use rule_engine.Engine.Cep.Replay.{deliver_all, advance_progress_again}
use rule_engine.Engine.Deadlines.{Heap, Deadline}
use rule_engine.Engine.Core.{Core, new_core}
use rule_engine.Engine.Shard.{Shard, Address, new_shard, member_for_write, write_member}
use rule_engine.Engine.Member.{MemberState, new_member_state}
use rule_engine.Dict.{Dict}
use rule_engine.Tests.Program.{program}
use rule_engine.Tests.Samples.{int_float, alice, at_second, abandoned}

abbrev fns_of : AddResult (List (CompiledRule ℤ)) → List (CompiledRule ℤ)
fns_of (added fns) = fns
fns_of (refused e) = []

abbrev compiled : CompiledPattern ℤ
compiled = record {
  pattern = abandoned;
  compiled_states = fns_of (compile_states int_float abandoned.states);
}

abandoned_compiles : compile_pattern int_float abandoned ≡ added compiled
unfolding program
abandoned_compiles = refl

compile_pattern-IsAccepted_example : IsAccepted int_float abandoned compiled
compile_pattern-IsAccepted_example =
    compile_pattern-IsAccepted int_float abandoned compiled abandoned_compiles

negative_in_the_middle :
    compile_pattern int_float (record abandoned { states = abandoned.states ++ abandoned.states })
    ≡ refused (negative_not_terminal 1)
unfolding program
negative_in_the_middle = refl

-- alice's cart of second 1000, parked until second 1300
abbrev parked : PatternProgress ℤ
parked = record {
  id = bytes "p|alice|e1";
  pattern_id = bytes "p";
  member_id = alice;
  current_step = 1;
  variables = [];
  started_at = at_second 1000;
  expires_at = 0;
  processed_events = bytes "e1" ∷ [];
  negative_deadline = at_second 1300;
}

parked-Overdue : Overdue (compiled ∷ []) (at_second 1301) parked
unfolding program
parked-Overdue =
    (compiled, (300_000_000_000, (refl, (refl, (omega arith, (omega arith, (refl, refl)))))))

parked_is_swept :
    sweep_expired_progresses (compiled ∷ []) (at_second 1301) ((parked.id, parked) ∷ []) ≡ []
unfolding program
parked_is_swept = refl

-- a later progress, parked until second 1500
abbrev later : PatternProgress ℤ
later = record parked {
  id = bytes "p|alice|e9";
  started_at = at_second 1200;
  negative_deadline = at_second 1500;
}

abbrev both : Dict Text (PatternProgress ℤ)
both = (parked.id, parked) ∷ (later.id, later) ∷ []

abbrev swept : MemberState ℤ
swept = record (new_member_state alice) {
  progresses = sweep_expired_progresses (compiled ∷ []) (at_second 1301) both;
}

abbrev slot : Shard ℤ × Address
slot = member_for_write new_shard alice

abbrev swept_core : Core ℤ
swept_core = record (new_core (pos 0) no_rules []) {
  patterns = compiled ∷ [];
  shard = write_member slot.0 slot.1 swept;
}

abbrev later_deadline : Deadline
later_deadline = record {
  deadline = at_second 1500;
  member_id = alice;
  progress_id = bytes "p|alice|e9";
}

parked_progress-swept_example : ¬ (Overdue (compiled ∷ []) (at_second 1301) later)
parked_progress-swept_example =
    parked_progress-swept swept_core later_deadline swept (at_second 1301) both later
      (unfold program in refl) refl (unfold program in refl)

-- a progress whose next state the cart satisfies
abbrev starting : PatternProgress ℤ
starting = record parked { current_step = 0; processed_events = []; negative_deadline = 0 }

abbrev cart : CepEvent ℤ
cart = record {
  event_id = bytes "e1";
  member_id = alice;
  behavior = bytes "Cart";
  fields = (bytes "behavior", str (bytes "Cart")) ∷ [];
  occurred_at = at_second 1000;
}

cart_steps : (advance_progress (compiled ∷ []) cart starting []).progress.current_step ≡ 1
unfolding program
cart_steps = refl

cart_keeps : (advance_progress (compiled ∷ []) cart starting []).removed ≡ false
unfolding program
cart_keeps = refl

cart_moves : (advance_progress (compiled ∷ []) cart starting []).progress.current_step ≢ 0
cart_moves = rw cart_steps (λ e. ground (arith, e))

-- an event that the next state does not ask for
abbrev visit : CepEvent ℤ
visit = record cart { event_id = bytes "e2"; behavior = bytes "Visit"; fields = [] }

-- the visit and the cart again leave the progress as it was
abbrev between : List (CepEvent ℤ × Heap)
between = (visit, []) ∷ (cart, []) ∷ []

between_kept :
    deliver_all (compiled ∷ []) between (advance_progress (compiled ∷ []) cart starting []).progress
    ≡ some (advance_progress (compiled ∷ []) cart starting []).progress
unfolding program
between_kept = refl

advance_progress_again_example :
    advance_progress
      (compiled ∷ [])
      cart
      (advance_progress (compiled ∷ []) cart starting []).progress
      []
    ≡ left_alone (advance_progress (compiled ∷ []) cart starting []).progress []
advance_progress_again_example =
    advance_progress_again (compiled ∷ []) cart starting
      (advance_progress (compiled ∷ []) cart starting []).progress [] [] between cart_keeps
      cart_moves between_kept
