-- ===== src/Engine/Core.antt =====
-- service/engine/core/core.go, watermark.go, and the drain of negative_queue.go: one event through
-- the shard.
pub mod Drain
pub mod Fire
pub mod Cases
pub mod Watermark
pub mod Late
pub mod Overdue
pub mod Targets
pub mod Emitted
use rule_engine.Prelude.{
  ℤ, ℕ, zero, suc, Bool, true, false, ◌&&◌, not, List, [], ◌∷◌, ◌++◌, Option, none, some, ltb,
  nat_beq, if◌then◌else◌, length, int_beq, pos,
}
use rule_engine.Text.{Text, text_eq}
use rule_engine.Time.{
  Time, Duration, add_time, unix_nano, unix_nano_of_sum, negate, is_after, is_zero, later_of,
  unix_epoch_nanos,
}
use rule_engine.Dict
use rule_engine.Dict.{Dict}
use rule_engine.Float.{Float}
use rule_engine.Rule.Keys.{CompiledRuleSet}
use rule_engine.Engine.Event.{BehaviorEvent, CepEvent, CepPattern, PatternProgress, MatchResult}
use rule_engine.Engine.Member.{MemberState}
use rule_engine.Engine.Shard.{Shard, Address, new_shard, member, member_for_write, write_member}
use rule_engine.Engine.Aggregation.{numeric_fields_of, update_aggregations}
use rule_engine.Engine.Eval.{MatchedRule, build_eval_fields, evaluate_rules}
use rule_engine.Engine.Deadlines.{Deadline, Heap, pop}
use rule_engine.Engine.Cep.Pattern.{
  CompiledPattern, pattern_by_id, AddResult, added, refused, add_pattern,
}
use rule_engine.Engine.Cep.Advance.{match_result}
use rule_engine.Engine.Cep.Process.{process_cep}

-- 24 hours and 5 seconds
abbrev pub default_max_window : Duration
default_max_window = pos 86_400_000_000_000

abbrev pub default_allowed_lateness : Duration
default_allowed_lateness = pos 5_000_000_000

-- Core; of the late sink it is kept whether there is one.
pub record Core (F : Type 0) : Type 0 where
  pub shard_id : ℤ
  pub shard : Shard F
  pub rule_set : CompiledRuleSet F
  pub max_window : Duration
  pub watermark : Time
  pub allowed_lateness : Duration
  pub has_late_sink : Bool
  pub patterns : List (CompiledPattern F)
  pub neg_deadlines : Heap
  pub last_seq : ℕ
  pub replaying : Bool

-- ProcessResult
pub record ProcessResult (F : Type 0) : Type 0 where
  pub matched_rules : List MatchedRule
  pub matched_patterns : List (MatchResult F)

-- What ProcessEvent leaves: the core, the result, and the events given to the late sink.
pub record Processed (F : Type 0) : Type 0 where
  pub core : Core F
  pub result : ProcessResult F
  pub late_events : List (BehaviorEvent F)

module _ {F : Type 0} where
  -- NewCore, with its options applied to the new core
  unfoldable pub new_core : ℤ → CompiledRuleSet F → List (Core F → Core F) → Core F
  unfolding new_shard
  new_core shard_id rule_set opts = apply_options opts (record {
    shard_id = shard_id;
    shard = new_shard;
    rule_set = rule_set;
    max_window =
        if int_beq rule_set.max_window (pos 0) then default_max_window else rule_set.max_window;
    watermark = unix_epoch_nanos;
    allowed_lateness = default_allowed_lateness;
    has_late_sink = false;
    patterns = [];
    neg_deadlines = [];
    last_seq = 0;
    replaying = false;
  })
    where
      apply_options : List (Core F → Core F) → Core F → Core F
      apply_options [] c = c
      apply_options (opt ∷ rest) c = apply_options rest (opt c)

  unfoldable pub with_allowed_lateness : Duration → Core F → Core F
  with_allowed_lateness d c = record c { allowed_lateness = d }

  unfoldable pub with_late_sink : Core F → Core F
  with_late_sink c = record c { has_late_sink = true }

  unfoldable pub begin_replay : Core F → Core F
  begin_replay c = record c { replaying = true }

  unfoldable pub end_replay : Core F → Core F
  end_replay c = record c { replaying = false }

  unfoldable pub is_late : Core F → Time → Bool
  unfolding unix_nano
  is_late c t = ltb (unix_nano t) c.watermark

  unfoldable pub advance_watermark : Core F → Time → Core F
  unfolding unix_nano_of_sum negate
  advance_watermark c t =
      let candidate = unix_nano_of_sum t (negate c.allowed_lateness) in
      if ltb c.watermark candidate then record c { watermark = candidate } else c

  -- the progress that an expired deadline stands for, unless the deadline is stale
  unfoldable pub parked_progress : Core F → Deadline → Option (PatternProgress F)
  parked_progress c top = elim (member c.shard top.member_id) [
    | none ↦ none
    | some ro ↦ elim (Dict.get ro.progresses top.progress_id) [
      | none ↦ none
      | some p ↦
          if not (is_zero p.negative_deadline) && nat_beq p.negative_deadline top.deadline
          then some p
          else none
    ]
  ]

  -- delete(ms.Progresses, id) through the pointer that memberForWrite returned
  unfoldable pub delete_progress : Shard F × Address → Text → Shard F
  unfolding write_member Dict.delete
  delete_progress (s, a) progress_id = elim (s.members a) [
    | none ↦ s
    | some ms ↦ write_member s a (record ms { progresses = Dict.delete ms.progresses progress_id })
  ]

  -- one popped deadline: the core afterwards, and the match if it fired
  unfoldable pub fire_deadline : Core F → Deadline → Core F × List (MatchResult F)
  unfolding delete_progress match_result
  fire_deadline c top = elim (parked_progress c top) [
    | none ↦ (c, [])
    | some p ↦
        let c' = record c {
          shard = delete_progress (member_for_write c.shard top.member_id) top.progress_id;
        } in
        elim (pattern_by_id c.patterns p.pattern_id) [
          | none ↦ (c', [])
          | some cp ↦ (c', match_result cp p.member_id p.variables p.negative_deadline ∷ [])
        ]
  ]

  -- the loop of drainNegativeMatches, on fuel
  unfoldable pub drain : ℕ → Core F → Time → Core F × List (MatchResult F)
  unfolding fire_deadline pop
  drain zero c watermark = (c, [])
  drain (suc f) c watermark = elim c.neg_deadlines [
    | [] ↦ (c, [])
    | top ∷ rest ↦
        if is_after watermark top.deadline
        then (let (c', fired) = fire_deadline (record c { neg_deadlines = pop (top ∷ rest) }) top in
            let (last, later) = drain f c' watermark in (last, fired ++ later))
        else (c, [])
  ]

  unfoldable pub drain_negative_matches : Core F → Time → Core F × List (MatchResult F)
  unfolding drain
  drain_negative_matches c watermark = drain (length c.neg_deadlines) c watermark

  abbrev pub cep_event : BehaviorEvent F → CepEvent F
  cep_event event = record {
    event_id = event.event_id;
    member_id = event.member_id;
    behavior = event.behavior;
    fields = event.fields;
    occurred_at = event.occurred_at;
  }

  unfoldable pub register_pattern : Float F → Core F → CepPattern F → AddResult (Core F)
  unfolding add_pattern
  register_pattern fl c pattern = elim (add_pattern fl c.patterns pattern) [
    | refused e ↦ refused e
    | added patterns ↦ added (record c { patterns = patterns })
  ]

module _ {F : Type 0} ⦃fl : Float F⦄ where
  -- the part of ProcessEvent before the lateness test: the member's new state
  unfoldable pub fold_event : Core F → BehaviorEvent F → MemberState F → MemberState F
  unfolding update_aggregations numeric_fields_of later_of
  fold_event c event ms =
      let ms' =
        update_aggregations ms event.behavior event.event_id event.occurred_at
          (numeric_fields_of event.fields) c.max_window in
      record ms' { last_seen_at = later_of ms'.last_seen_at event.occurred_at }

  -- the part for an event on time, on a core whose member at `a` is `ms`
  unfoldable pub process_on_time : Core F → Address → MemberState F → BehaviorEvent F → Processed F
  unfolding advance_watermark evaluate_rules build_eval_fields process_cep write_member
      drain_negative_matches
  process_on_time c a ms event =
      let c1 = advance_watermark c event.occurred_at in
      let rules = evaluate_rules ms (build_eval_fields event) event.occurred_at c1.rule_set in
      let run =
        process_cep c1.patterns (cep_event event) c1.watermark ms.progresses c1.neg_deadlines in
      let c2 = record c1 {
        shard = write_member c1.shard a (record ms { progresses = run.progresses });
        neg_deadlines = run.heap;
      } in
      let (c3, expired) = drain_negative_matches c2 c1.watermark in
      record {
        core = c3;
        result = record { matched_rules = rules; matched_patterns = run.results ++ expired };
        late_events = [];
      }

  -- ProcessEvent. A new or existing member is always found by memberForWrite.
  unfoldable pub process_event : Core F → BehaviorEvent F → Processed F
  process_event c event =
      let (s, a) = member_for_write c.shard event.member_id in
      elim (s.members a) [
        | none ↦ record {
          core = record c { shard = s };
          result = record { matched_rules = []; matched_patterns = [] };
          late_events = [];
        }
        | some ms ↦
            let ms' = fold_event c event ms in
            let c' = record c { shard = write_member s a ms' } in
            if is_late c event.occurred_at
            then record {
              core = c';
              result = record { matched_rules = []; matched_patterns = [] };
              late_events = if c.has_late_sink && not c.replaying then event ∷ [] else [];
            }
            else process_on_time c' a ms' event
      ]
