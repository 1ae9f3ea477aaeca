-- ===== src/Engine/Member.antt =====
-- MemberState, BehaviorAgg and BucketData of state.go, with their constructors and clones.
pub mod Clone
use rule_engine.Prelude.{ℕ, List, [], ◌∷◌}
use rule_engine.Text.{Text}
use rule_engine.Time.{Time}
use rule_engine.Dict.{Dict}
use rule_engine.Engine.Event.{PatternProgress}

-- Bucket starts and processed ids are the keys of maps.
pub record BucketData (F : Type 0) : Type 0 where
  pub count : ℕ
  pub sums : Dict Text F
  pub maxs : Dict Text F
  pub mins : Dict Text F
  pub processed_event_ids : List Text

pub record BehaviorAgg (F : Type 0) : Type 0 where
  pub buckets : Dict Time (BucketData F)

pub record MemberState (F : Type 0) : Type 0 where
  pub member_id : Text
  pub aggregations : Dict Text (BehaviorAgg F)
  pub progresses : Dict Text (PatternProgress F)
  pub last_seen_at : Time
  pub version : ℕ

module _ {F : Type 0} where
  unfoldable pub new_bucket_data : BucketData F
  new_bucket_data = record { count = 0; sums = []; maxs = []; mins = []; processed_event_ids = [] }

  unfoldable pub new_behavior_agg : BehaviorAgg F
  new_behavior_agg = record { buckets = [] }

  unfoldable pub new_member_state : Text → MemberState F
  new_member_state member_id = record {
    member_id = member_id;
    aggregations = [];
    progresses = [];
    last_seen_at = 0;
    version = 0;
  }

  unfoldable pub clone_bucket : BucketData F → BucketData F
  clone_bucket b = record {
    count = b.count;
    sums = b.sums;
    maxs = b.maxs;
    mins = b.mins;
    processed_event_ids = b.processed_event_ids;
  }

  unfoldable pub clone_buckets : Dict Time (BucketData F) → Dict Time (BucketData F)
  unfolding clone_bucket
  clone_buckets [] = []
  clone_buckets ((ts, b) ∷ rest) = (ts, clone_bucket b) ∷ clone_buckets rest

  unfoldable pub clone_agg : BehaviorAgg F → BehaviorAgg F
  unfolding clone_buckets
  clone_agg a = record { buckets = clone_buckets a.buckets }

  unfoldable pub clone_aggregations : Dict Text (BehaviorAgg F) → Dict Text (BehaviorAgg F)
  unfolding clone_agg
  clone_aggregations [] = []
  clone_aggregations ((k, a) ∷ rest) = (k, clone_agg a) ∷ clone_aggregations rest

  unfoldable pub clone_progresses : Dict Text (PatternProgress F) → Dict Text (PatternProgress F)
  clone_progresses [] = []
  clone_progresses ((k, p) ∷ rest) =
      (k, record p { variables = p.variables; processed_events = p.processed_events })
      ∷ clone_progresses rest

  -- The clone's version is left at its zero value; its caller stamps it.
  unfoldable pub clone_member : MemberState F → MemberState F
  unfolding clone_aggregations clone_progresses
  clone_member ms = record {
    member_id = ms.member_id;
    aggregations = clone_aggregations ms.aggregations;
    progresses = clone_progresses ms.progresses;
    last_seen_at = ms.last_seen_at;
    version = 0;
  }
