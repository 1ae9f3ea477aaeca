-- ===== src/Tests/Restarts.antt =====
-- A rule that counts visits, before and after a restart from a snapshot.
use rule_engine.Prelude.{ℕ, ◌≡◌, refl, List, [], ◌∷◌, none, some, false, ℤ, pos, length}
use rule_engine.Text.{Text, bytes, text_eq}
use rule_engine.Rule.Value.{float64}
use rule_engine.Rule.Node.{RuleNode, condition}
use rule_engine.Rule.Compile
use rule_engine.Rule.Compile.{CompiledRule, compile}
use rule_engine.Rule.Keys.{CompiledRuleSet, collect_aggregate_keys}
use rule_engine.Engine.Event.{BehaviorEvent}
use rule_engine.Engine.Core.{Core, new_core, with_late_sink, process_event}
use rule_engine.Engine.Snapshot.{restored, restore}
use rule_engine.Engine.Reachable.{Reachable, started, sunk, processed, positioned}
use rule_engine.Engine.RuleView.{view_of, see_all, process_all, Answer}
use rule_engine.Engine.RuleView.Refines.{process_all-see_all}
use rule_engine.Engine.RuleView.Restart.{process_all-restore}
use rule_engine.Tests.Program.{program}
use rule_engine.Tests.Samples.{int_float, alice, bob, event_of, minutes}
use rule_engine.Tests.Snapshots.{decoded_view, one_blob, view_at-IsDecoded}

-- more than one visit in ten minutes
abbrev often : RuleNode ℤ
often = condition (bytes "Visit:COUNT") (bytes ">") (float64 (pos 1)) (some (minutes 10))

abbrev compiled : CompiledRule ℤ
compiled = elim (compile int_float often) [
  | Compile.ok eval ↦ eval
  | Compile.rejected e ↦ (λ ctx. (false, none))
]

abbrev counting : CompiledRuleSet ℤ
counting = record {
  strategies =
      record {
        id = 7;
        name = bytes "often";
        eval = compiled;
        aggregate_keys = collect_aggregate_keys often;
      }
      ∷ [];
  max_window = pos 600_000_000_000;
}

abbrev fresh : Core ℤ
fresh = with_late_sink (new_core (pos 0) counting [])

abbrev visit : Text → Text → ℕ → BehaviorEvent ℤ
visit event_id member_id s = event_of event_id member_id (bytes "Visit") s

abbrev once : Core ℤ
once = record (process_event fresh (visit (bytes "e1") alice 1000)).core { last_seq = 41 }

fresh-Reachable : Reachable int_float fresh
fresh-Reachable = sunk (new_core (pos 0) counting []) (started (pos 0) counting)

once-Reachable : Reachable int_float once
once-Reachable =
    positioned (process_event fresh (visit (bytes "e1") alice 1000)).core 41
      (processed fresh (visit (bytes "e1") alice 1000) fresh-Reachable)

-- a second visit of the one, a first visit of the other, and a visit that comes too late
abbrev later : List (BehaviorEvent ℤ)
later =
    visit (bytes "e2") alice 1100 ∷ visit (bytes "e3") bob 1101 ∷ visit (bytes "e4") bob 900 ∷ []

abbrev sizes : List (Answer ℤ) → List (ℕ × ℕ)
sizes [] = []
sizes ((rules, late) ∷ rest) = (length rules, length late) ∷ sizes rest

second_visit : sizes (process_all once later) ≡ (1, 0) ∷ (0, 0) ∷ (0, 1) ∷ []
unfolding program
second_visit = refl

process_all-see_all_example : process_all once later ≡ see_all (view_of once) later
process_all-see_all_example = process_all-see_all once later once-Reachable

process_all-restore_example :
    (e : Core ℤ) × (restore (one_blob once) fresh (bytes "blob") ≡ restored (e, 41))
    × (process_all e later ≡ process_all once later)
process_all-restore_example =
    process_all-restore int_float (one_blob once) once fresh (bytes "blob") (decoded_view once)
      later once-Reachable fresh-Reachable
      (unfold program in
        record { rule_set = refl; max_window = refl; allowed_lateness = refl; reports_late = refl })
      (unfold program in refl) refl (view_at-IsDecoded once) (unfold program in ((refl, tt), tt))
