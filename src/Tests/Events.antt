-- ===== src/Tests/Events.antt =====
-- Events: aggregation, the watermark and the deadlines of a core with one pattern.
use rule_engine.Prelude.{
  ◌*◌, false, true, ◌≡◌, refl, ◌<◌, ◌≤◌, ℕ, [], ◌∷◌, none, Option, some, ℤ, pos, arith, Each,
  length,
}
use rule_engine.Text.{Text, bytes}
use rule_engine.Dict.{Dict}
use rule_engine.Engine.Event.{BehaviorEvent, PatternProgress}
use rule_engine.Engine.Member.{MemberState, new_member_state}
use rule_engine.Engine.Aggregation.{update_aggregations}
use rule_engine.Engine.Aggregation.Idempotent.{IsCounted, update_idempotent, update-IsCounted}
use rule_engine.Engine.Shard.Valid.{IsValid}
use rule_engine.Engine.Deadlines.{Deadline}
use rule_engine.Engine.Cep.Pattern.{CompiledPattern, pattern_by_id, AddResult, added, refused}
use rule_engine.Time.{Time}
use rule_engine.Engine.Core.{
  is_late, Core, new_core, register_pattern, process_event, fire_deadline, parked_progress,
  drain_negative_matches, with_late_sink, cep_event,
}
use rule_engine.Engine.Core.Drain.{drain_negative_matches-done}
use rule_engine.Engine.Core.Fire.{fire_deadline-once}
use rule_engine.Engine.Core.Watermark.{watermark-le-process_event, expired-Due}
use rule_engine.Engine.Reachable.{
  Reachable, started, sunk, registered, processed, Reachable-IsValid,
}
use rule_engine.Engine.Core.Overdue.{IsTimely}
use rule_engine.Engine.Reachable.Timely.{Reachable-IsTimely}
use rule_engine.Engine.Core.Targets.{IsIn}
use rule_engine.Engine.Core.Emitted.{drain_negative_matches-emits}
use rule_engine.Engine.Cep.Advance.{match_result}
use rule_engine.Engine.Cep.Process.{new_progress}
use rule_engine.Tests.Program.{program}
use rule_engine.Tests.Samples.{int_float, alice, bob, at_second, abandoned, no_rules, event_of}

abbrev from_added : Core ℤ → AddResult (Core ℤ) → Core ℤ
from_added c (added c') = c'
from_added c (refused e) = c

abbrev plain : Core ℤ
plain = with_late_sink (new_core (pos 0) no_rules [])

abbrev watching : Core ℤ
watching = from_added plain (register_pattern int_float plain abandoned)

watching-registered : register_pattern int_float plain abandoned ≡ added watching
unfolding program
watching-registered = refl

-- alice fills a cart at second 1000
abbrev cart : BehaviorEvent ℤ
cart = event_of (bytes "e1") alice (bytes "Cart") 1000

abbrev armed : Core ℤ
armed = (process_event watching cart).core

armed-Reachable : Reachable int_float armed
armed-Reachable = processed watching cart (
    registered plain watching abandoned watching-registered
      (sunk (new_core (pos 0) no_rules []) (started (pos 0) no_rules)))

-- the watermark follows five seconds behind
armed_watermark : armed.watermark ≡ at_second 995
unfolding program
armed_watermark = refl

abbrev deadline : Deadline
deadline = record { deadline = at_second 1300; member_id = alice; progress_id = bytes "p|alice|e1" }

abbrev matches_after : BehaviorEvent ℤ → ℕ
matches_after event = length (process_event armed event).result.matched_patterns

-- another member's event after the deadline lets the match fire
bob_fires_it : matches_after (event_of (bytes "e2") bob (bytes "Visit") 1400) ≡ 1
unfolding program
bob_fires_it = refl

-- alice's own event after the deadline does not
alice_loses_it : matches_after (event_of (bytes "e2") alice (bytes "Visit") 1400) ≡ 0
unfolding program
alice_loses_it = refl

Reachable-IsValid_example : IsValid armed.shard
Reachable-IsValid_example = Reachable-IsValid int_float armed armed-Reachable

fire_deadline-once_example : parked_progress (fire_deadline armed deadline).0 deadline ≡ none
fire_deadline-once_example =
    fire_deadline-once armed deadline (Reachable-IsValid int_float armed armed-Reachable)

watermark-le-process_event_example :
    armed.watermark
    ≤ (process_event armed (event_of (bytes "e2") bob (bytes "Visit") 1400)).core.watermark
watermark-le-process_event_example =
    watermark-le-process_event armed (event_of (bytes "e2") bob (bytes "Visit") 1400)

abbrev late : BehaviorEvent ℤ
late = event_of (bytes "e0") bob (bytes "Visit") 900

late_cart-lt : late.occurred_at < armed.watermark
unfolding program
late_cart-lt = omega (arith, armed_watermark)

expired-Due_example :
    Each (λ m. m.matched_at < at_second 1400) (drain_negative_matches armed (at_second 1400)).1
expired-Due_example = expired-Due armed (at_second 1400)

-- nothing is due yet
still_waiting : (drain_negative_matches armed (at_second 1200)).0.neg_deadlines ≡ deadline ∷ []
unfolding program
still_waiting = refl

drain_negative_matches-done_example : at_second 1200 ≤ at_second 1300
drain_negative_matches-done_example =
    drain_negative_matches-done armed (at_second 1200) deadline [] still_waiting

abbrev amounts : Dict Text ℤ
amounts = (bytes "amount", pos 50) ∷ []

abbrev counted : MemberState ℤ
counted =
    update_aggregations (new_member_state alice) (bytes "Cart") (bytes "e1") (at_second 1000)
      amounts (pos 3_600_000_000_000)

update_idempotent_example :
    update_aggregations counted
      (bytes "Cart")
      (bytes "e1")
      (at_second 1000)
      amounts
      (pos 3_600_000_000_000)
    ≡ counted
update_idempotent_example =
    update_idempotent (new_member_state alice) (bytes "Cart") (bytes "e1") (at_second 1000)
      3_600_000_000_000 amounts

update-IsCounted_example : IsCounted counted (bytes "Cart") (bytes "e1") (at_second 1000)
update-IsCounted_example =
    update-IsCounted (new_member_state alice) (bytes "Cart") (bytes "e1") (at_second 1000)
      3_600_000_000_000 amounts

Reachable-IsTimely_example : IsTimely armed.watermark armed.neg_deadlines
Reachable-IsTimely_example = Reachable-IsTimely int_float armed armed-Reachable

abbrev or_else : {A : Type 0} → A → Option A → A
or_else a none = a
or_else a (some b) = b

abbrev waiting : PatternProgress ℤ
waiting =
    or_else
      (new_progress (record { pattern = abandoned; compiled_states = [] }) (cep_event cart) [] [])
      (parked_progress armed deadline)

abbrev watched : CompiledPattern ℤ
watched =
    or_else (record { pattern = abandoned; compiled_states = [] })
      (pattern_by_id armed.patterns waiting.pattern_id)

deadline-lt : deadline.deadline < at_second 1400
deadline-lt = omega arith

drain_negative_matches-emits_example :
    IsIn
      (match_result watched waiting.member_id waiting.variables waiting.negative_deadline)
      (drain_negative_matches armed (at_second 1400)).1
drain_negative_matches-emits_example =
    drain_negative_matches-emits armed (at_second 1400) deadline waiting watched
      (Reachable-IsValid int_float armed armed-Reachable)
      (Reachable-IsTimely int_float armed armed-Reachable).heap
      (0, unfold program in omega arith, unfold program in refl) deadline-lt
      (unfold program in refl) (unfold program in refl)

-- UnixNano wraps around before 1678: a day of the year 1500 counts as one of 2085.
abbrev in_1500 : Time
in_1500 = 547_600 * 86_400_000_000_000

wraps_around : is_late (new_core {F = ℤ} (pos 0) no_rules []) in_1500 ≡ false
unfolding program
wraps_around = refl

-- the zero time lies before the epoch of a new core
zero_time_late : is_late (new_core {F = ℤ} (pos 0) no_rules []) 0 ≡ true
unfolding program
zero_time_late = refl
