-- ===== src/Engine/Member/Clone.antt =====
-- `clone` copies a member in full: only the version is left at zero.
use rule_engine.Prelude.{◌≡◌, refl, ap, [], ◌∷◌}
use rule_engine.Text.{Text}
use rule_engine.Time.{Time}
use rule_engine.Dict.{Dict}
use rule_engine.Engine.Event.{PatternProgress}
use rule_engine.Engine.Member.{
  BucketData, BehaviorAgg, MemberState, clone_buckets, clone_aggregations, clone_progresses,
  clone_member,
}

module _ {F : Type 0} where
  clone_buckets_lem : (m : Dict Time (BucketData F)) → clone_buckets m ≡ m
  unfolding clone_buckets
  clone_buckets_lem [] = refl
  clone_buckets_lem ((ts, b) ∷ rest) = ap (λ r. (ts, b) ∷ r) (clone_buckets_lem rest)

  clone_aggregations_lem : (m : Dict Text (BehaviorAgg F)) → clone_aggregations m ≡ m
  unfolding clone_aggregations
  clone_aggregations_lem [] = refl
  clone_aggregations_lem ((k, a) ∷ rest) =
      λ i. (k, record { buckets = clone_buckets_lem a.buckets i }) ∷ clone_aggregations_lem rest i

  clone_progresses_lem : (m : Dict Text (PatternProgress F)) → clone_progresses m ≡ m
  unfolding clone_progresses
  clone_progresses_lem [] = refl
  clone_progresses_lem ((k, p) ∷ rest) = ap (λ r. (k, p) ∷ r) (clone_progresses_lem rest)

  -- `clone` copies every field, the version apart.
  pub clone_member_lem : (ms : MemberState F) → clone_member ms ≡ record ms { version = 0 }
  unfolding clone_member
  clone_member_lem ms = λ i. record {
    member_id = ms.member_id;
    aggregations = clone_aggregations_lem ms.aggregations i;
    progresses = clone_progresses_lem ms.progresses i;
    last_seen_at = ms.last_seen_at;
    version = 0;
  }
