-- ===== src/Engine/Cep/Sweep.antt =====
-- What sweepExpiredProgresses of service/engine/core/cep.go takes from a member.
use rule_engine.Prelude.{
  ℕ, zero, ◌^◌, ◌<◌, ◌≡◌, sym, ap, ◌∙◌, Option-cases, true, List, [], ◌∷◌, some, arith, ltb_ℤ, pos,
  Each, Bool-cases, lt→ltb, inl, inr,
}
use rule_engine.Text.{Text, text_eq}
use rule_engine.Time.{Time, add_time, sub_time, is_after}
use rule_engine.Dict
use rule_engine.Dict.{Dict}
use rule_engine.Dict.Distinct.{Each-get}
use rule_engine.Engine.Deadlines.{Deadline}
use rule_engine.Engine.Member.{MemberState}
use rule_engine.Engine.Shard.{member}
use rule_engine.Engine.Core.{Core, parked_progress}
use rule_engine.Engine.Event.{PatternProgress}
use rule_engine.Engine.Cep.Pattern.{CompiledPattern, pattern_by_id, max_duration}
use rule_engine.Engine.Cep.Process.{is_swept, sweep_expired_progresses}

sub_time-past :
    (start d now : ℕ)
    → d < 2 ^ 62
    → is_after now (add_time start (pos d)) ≡ true
    → ltb_ℤ (pos d) (sub_time now start) ≡ true
unfolding add_time sub_time
sub_time-past start d now small h = ground arith

module _ {F : Type 0} where
  is_swept-past :
      (patterns : List (CompiledPattern F)) (p : PatternProgress F) (cp : CompiledPattern F)
      (d watermark : ℕ)
      → pattern_by_id patterns p.pattern_id ≡ some cp
      → max_duration cp ≡ pos d
      → zero < d
      → d < 2 ^ 62
      → is_after watermark (add_time p.started_at (pos d)) ≡ true
      → is_swept patterns watermark p ≡ true
  unfolding is_swept
  is_swept-past patterns p cp d watermark found longest h small past =
      let late = sub_time-past p.started_at d watermark small past in
      let far = lt→ltb zero d h in ground arith

  -- A progress parked until `started_at` plus the longest window of its pattern, its deadline passed.
  abbrev pub Overdue : List (CompiledPattern F) → Time → PatternProgress F → Type 0
  Overdue patterns watermark p =
      (cp : CompiledPattern F) × ((d : ℕ) × ((pattern_by_id patterns p.pattern_id ≡ some cp)
          × ((max_duration cp ≡ pos d)
              × ((zero < d)
                  × ((d < 2 ^ 62)
                      × ((p.negative_deadline ≡ add_time p.started_at (pos d))
                          × (is_after watermark p.negative_deadline ≡ true)))))))

  Overdue-is_swept :
      (patterns : List (CompiledPattern F)) (watermark : Time) (p : PatternProgress F)
      → Overdue patterns watermark p
      → is_swept patterns watermark p ≡ true
  Overdue-is_swept patterns watermark p
        (cp, (d, (found, (longest, (h, (small, (parked, past))))))) =
      is_swept-past patterns p cp d watermark found longest h small (ground arith)

  sweep_expired_progresses-keeps :
      (patterns : List (CompiledPattern F)) (watermark : Time)
      (progresses : Dict Text (PatternProgress F))
      → Each
          (λ e. ¬ (Overdue patterns watermark e.1))
          (sweep_expired_progresses patterns watermark progresses)
  unfolding sweep_expired_progresses
  sweep_expired_progresses-keeps patterns watermark [] = tt
  sweep_expired_progresses-keeps patterns watermark ((id, p) ∷ rest) =
      let kept = sweep_expired_progresses-keeps patterns watermark rest in
      elim (Bool-cases (is_swept patterns watermark p)) [
        | inl e ↦ rw (e) kept
        | inr e ↦ rw (e) (
            (
              λ over.
                  absurd (let gone = Overdue-is_swept patterns watermark p over in ground arith),
              kept,
            ))
      ]

  found_progress :
      (c : Core F) (top : Deadline) (ms : MemberState F) (p : PatternProgress F)
      → member c.shard top.member_id ≡ some ms
      → parked_progress c top ≡ some p
      → Dict.get ms.progresses top.progress_id ≡ some p
  unfolding parked_progress
  found_progress c top ms p there found =
      elim (Option-cases (Dict.get ms.progresses top.progress_id)) [
        | inl none_there ↦ absurd (ground (arith, there, found, none_there))
        | inr (q, has) ↦ ground (arith, there, found, has)
      ]

  -- Where a member's progresses are those that the sweep of processCEP left, the drain finds, for
  -- whatever deadline, no progress that is parked until its start plus the longest window d of its
  -- registered pattern, 0 < d < 2^62 nanoseconds, and whose deadline the sweep's watermark had
  -- passed: such a progress is deleted and its match is lost.
  pub parked_progress-swept :
      (c : Core F) (top : Deadline) (ms : MemberState F) (watermark : Time)
      (progresses : Dict Text (PatternProgress F)) (p : PatternProgress F)
      → member c.shard top.member_id ≡ some ms
      → ms.progresses ≡ sweep_expired_progresses c.patterns watermark progresses
      → parked_progress c top ≡ some p
      → ¬ (Overdue c.patterns watermark p)
  parked_progress-swept c top ms watermark progresses p there swept found =
      Each-get (λ q. ¬ (Overdue c.patterns watermark q))
        (sweep_expired_progresses c.patterns watermark progresses) top.progress_id p
        (sweep_expired_progresses-keeps c.patterns watermark progresses)
        (ap (λ d. Dict.get d top.progress_id) (sym swept) ∙ found_progress c top ms p there found)
