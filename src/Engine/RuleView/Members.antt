-- ===== src/Engine/RuleView/Members.antt =====
-- What the rules see of a member, through the operations on its state.
use rule_engine.Prelude.{
  ◌≡◌, refl, sym, ap, ◌∙◌, List, [], ◌∷◌, Option, some, none, inl, inr, arith, nat_beq, nat_beq_iff,
  Bool-cases,
}
use rule_engine.Text.{Text}
use rule_engine.Time.{Time, Duration}
use rule_engine.Dict.{Dict}
use rule_engine.Float.{Float}
use rule_engine.Rule.Value.{Value}
use rule_engine.Rule.Context.{AggregateKey}
use rule_engine.Rule.Keys.{CompiledRuleSet}
use rule_engine.Engine.Event.{BehaviorEvent}
use rule_engine.Engine.Member.{MemberState, new_member_state}
use rule_engine.Engine.Aggregation.{compute_bucket_aggregation}
use rule_engine.Engine.Eval.{fill_cache, evaluate_rules}
use rule_engine.Engine.Shard.{
  Shard, Address, address_in, member_in, member, update, deref, write_member,
}
use rule_engine.Engine.Shard.CopyOnWrite.{or_new, unversioned}
use rule_engine.Engine.RuleView.{base, base_of, counted}

module _ {F : Type 0} ⦃fl : Float F⦄ where
  pub base-counted :
      (w : Duration) (event : BehaviorEvent F) (ms : MemberState F)
      → base (counted w event ms) ≡ counted w event (base ms)
  unfolding counted
  base-counted w event ms = refl

  aggregation-base :
      (ms : MemberState F) (k : AggregateKey) (now : Time)
      → compute_bucket_aggregation (base ms) k now ≡ compute_bucket_aggregation ms k now
  unfolding compute_bucket_aggregation
  aggregation-base ms k now = refl

  fill_cache-base :
      (ms : MemberState F) (now : Time) (ks : List AggregateKey) (cache : Dict Text (Value F))
      → fill_cache (base ms) now ks cache ≡ fill_cache ms now ks cache
  unfolding fill_cache compute_bucket_aggregation
  fill_cache-base ms now [] cache = refl
  fill_cache-base ms now (k ∷ ks) cache = fill_cache-base ms now ks _

  pub evaluate_rules-base :
      (ms : MemberState F) (fields : Dict Text (Value F)) (t : Time) (rs : CompiledRuleSet F)
      → evaluate_rules (base ms) fields t rs ≡ evaluate_rules ms fields t rs
  unfolding evaluate_rules
  evaluate_rules-base ms fields t rs = rw (fill_cache-base ms t _ []) refl

module _ {F : Type 0} where
  pub base-or_new :
      (id : Text) (o : Option (MemberState F)) → base (or_new id o) ≡ or_new id (base_of o)
  unfolding new_member_state
  base-or_new id none = refl
  base-or_new id (some ms) = refl

  pub base-unversioned : (x y : MemberState F) → unversioned x ≡ unversioned y → base x ≡ base y
  base-unversioned x y e = ap base e

  -- a read through the slots, with and without the write
  member_at :
      (s : Shard F) (a : Address) (new : MemberState F) (j : Text) (o : Option Address)
      → address_in s s.state j ≡ o
      → (member (write_member s a new) j ≡ deref (update s.members a new) o)
        × (member s j ≡ deref s.members o)
  unfolding member member_in write_member address_in
  member_at s a new j o e = ground arith

  cell_at :
      (s : Shard F) (a : Address) (old new : MemberState F) (o : Option Address)
      → s.members a ≡ some old
      → base new ≡ base old
      → base_of (deref (update s.members a new) o) ≡ base_of (deref s.members o)
  cell_at s a old new none there same = refl
  cell_at s a old new (some m) there same = elim (Bool-cases (nat_beq a m)) [
    | inr apart ↦ rw (apart) refl
    | inl here ↦ rw (here) (
        ap some same
        ∙ ap base_of (sym there)
        ∙ ap (λ b. base_of (s.members b)) ((nat_beq_iff a m).0 here))
  ]

  -- A write that the rules do not see.
  pub base-write_member :
      (s : Shard F) (a : Address) (old new : MemberState F) (j : Text)
      → s.members a ≡ some old
      → base new ≡ base old
      → base_of (member (write_member s a new) j) ≡ base_of (member s j)
  base-write_member s a old new j there same =
      let (written, before) = member_at s a new j (address_in s s.state j) refl in
      ap base_of written
      ∙ cell_at s a old new (address_in s s.state j) there same
      ∙ ap base_of (sym before)
