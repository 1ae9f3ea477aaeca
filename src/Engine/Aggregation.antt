-- ===== src/Engine/Aggregation.antt =====
-- service/engine/core/aggregation.go: time buckets and the queries over them.
pub mod Idempotent
use rule_engine.Prelude.{
  ℕ, ◌+◌, ◌*◌, ◌/◌, ◌%◌, ◌^◌, ◌||◌, any, List, [], ◌∷◌, Option, none, some, ltb, nat_beq,
  if◌then◌else◌, ◌==◌, nat_eq, pos,
}
use rule_engine.Text.{Text, text_eq, bytes, split_n, to_upper}
use rule_engine.Time.{Time, Duration, second, minute, unix_epoch, add_time, negate}
use rule_engine.Dict
use rule_engine.Dict.{Dict}
use rule_engine.Float.{Float}
use rule_engine.Rule.Value.{Value, float64, float32, integer, int, int32, int64, uint64}
use rule_engine.Rule.Window.{TimeWindow, duration}
use rule_engine.Rule.Context.{AggregateKey}
use rule_engine.Engine.Member.{
  BucketData, BehaviorAgg, MemberState, new_bucket_data, new_behavior_agg,
}

-- `t.Truncate(time.Minute).Unix()`, in seconds since the zero time: every key is larger than the
-- source's by the Unix epoch
unfoldable pub align_bucket : Time → ℕ
align_bucket t = t / minute * minute / second

abbrev pub or_else {ℓ} : {A : Type ℓ} → Option A → A → A
or_else none d = d
or_else (some a) d = a

module _ {F : Type 0} where
  -- `for ts := range agg.Buckets { if ts < cutoff { delete(agg.Buckets, ts) } }`
  unfoldable pub drop_before : ℕ → Dict ℕ (BucketData F) → Dict ℕ (BucketData F)
  drop_before cutoff [] = []
  drop_before cutoff ((ts, b) ∷ rest) =
      let kept = drop_before cutoff rest in if ltb ts cutoff then kept else (ts, b) ∷ kept

  unfoldable pub prune_expired_buckets : BehaviorAgg F → Time → Duration → BehaviorAgg F
  prune_expired_buckets agg occurred_at max_window = record {
    buckets = drop_before (align_bucket (add_time occurred_at (negate max_window))) agg.buckets;
  }

module _ {F : Type 0} ⦃fl : Float F⦄ where
  -- toFloat64 of the engine: fewer types than the rule usecase's
  unfoldable pub to_float64 : Value F → Option F
  to_float64 (float64 n) = some n
  to_float64 (float32 n) = some n
  to_float64 (integer int n) = some (fl.of_int n)
  to_float64 (integer int64 n) = some (fl.of_int n)
  to_float64 (integer int32 n) = some (fl.of_int n)
  to_float64 (integer uint64 n) = some (fl.of_int n)
  to_float64 _ = none

  unfoldable pub numeric_fields_of : Dict Text (Value F) → Dict Text F
  numeric_fields_of [] = []
  numeric_fields_of ((k, v) ∷ fields) = elim (to_float64 v) [
    | none ↦ numeric_fields_of fields
    | some f ↦ (k, f) ∷ numeric_fields_of fields
  ]

  -- one round of the loop over the numeric fields
  unfoldable pub fold_field : Text → F → BucketData F → BucketData F
  fold_field field value b = record b {
    sums = Dict.put b.sums field (fl.add (or_else (Dict.get b.sums field) fl.zero) value);
    maxs = elim (Dict.get b.maxs field) [
      | none ↦ Dict.put b.maxs field value
      | some cur ↦ if fl.lt cur value then Dict.put b.maxs field value else b.maxs
    ];
    mins = elim (Dict.get b.mins field) [
      | none ↦ Dict.put b.mins field value
      | some cur ↦ if fl.lt value cur then Dict.put b.mins field value else b.mins
    ];
  }

  unfoldable pub fold_fields : Dict Text F → BucketData F → BucketData F
  fold_fields [] b = b
  fold_fields ((field, value) ∷ rest) b = fold_fields rest (fold_field field value b)

  -- the dedup test and the fold of updateAggregations, on the event's bucket: none if the event
  -- was counted already
  unfoldable pub count_event : Text → Dict Text F → BucketData F → Option (BucketData F)
  count_event event_id numeric_fields b =
      if any (λ s. s == event_id) b.processed_event_ids
      then none
      else some (
          fold_fields numeric_fields (record b {
            processed_event_ids = event_id ∷ b.processed_event_ids;
            count = (b.count + 1) % 2 ^ 64;
          }))

  -- The member's maps hold the aggregation and the bucket also where they were created just now.
  unfoldable pub update_aggregations :
      MemberState F → Text → Text → Time → Dict Text F → Duration → MemberState F
  update_aggregations ms behavior event_id occurred_at numeric_fields max_window =
      let agg = or_else (Dict.get ms.aggregations behavior) new_behavior_agg in
      let bucket_ts = align_bucket occurred_at in
      let bucket = or_else (Dict.get agg.buckets bucket_ts) new_bucket_data in
      record ms {
        aggregations =
            Dict.put ms.aggregations behavior (elim (count_event event_id numeric_fields bucket) [
              | none ↦ record { buckets = Dict.put agg.buckets bucket_ts bucket }
              | some counted ↦
                  prune_expired_buckets
                    (record { buckets = Dict.put agg.buckets bucket_ts counted }) occurred_at
                    max_window
            ]);
      }

-- parseAggregateField: behavior, aggregation in capitals, and field path
unfoldable pub parse_parts : List Text → Text × Text × Text
unfolding to_upper
parse_parts [] = ([], [], [])
parse_parts (behavior ∷ []) = ([], [], [])
parse_parts (behavior ∷ agg ∷ []) = (behavior, to_upper agg, [])
parse_parts (behavior ∷ agg ∷ path ∷ _) = (behavior, to_upper agg, path)

unfoldable pub parse_aggregate_field : Text → Text × Text × Text
unfolding split_n parse_parts
parse_aggregate_field field = parse_parts (split_n b':' 3 field)

-- the lower bound of the window: Unix time 0 without a window
unfoldable pub window_start : Option TimeWindow → Time → ℕ
window_start none now = unix_epoch
window_start (some w) now = align_bucket (add_time now (negate (duration (some w))))

-- the running values of computeBucketAggregation
pub record Totals (F : Type 0) : Type 0 where
  pub count : ℕ
  pub sum : F
  pub max : Option F
  pub min : Option F

module _ {F : Type 0} ⦃fl : Float F⦄ where
  unfoldable pub add_bucket : Text → BucketData F → Totals F → Totals F
  add_bucket field_path b t = record {
    count = (t.count + b.count) % 2 ^ 64;
    sum = fl.add t.sum (or_else (Dict.get b.sums field_path) fl.zero);
    max = elim (Dict.get b.maxs field_path) [
      | none ↦ t.max
      | some v ↦ elim t.max [ none ↦ some v | some m ↦ if fl.lt m v then some v else some m ]
    ];
    min = elim (Dict.get b.mins field_path) [
      | none ↦ t.min
      | some v ↦ elim t.min [ none ↦ some v | some m ↦ if fl.lt v m then some v else some m ]
    ];
  }

  -- the loop over the buckets, between `since` and `upper`
  unfoldable pub total_buckets : ℕ → ℕ → Text → Dict ℕ (BucketData F) → Totals F → Totals F
  total_buckets since upper field_path [] t = t
  total_buckets since upper field_path ((ts, b) ∷ rest) t =
      total_buckets since upper field_path rest
        (if ltb ts since || ltb upper ts then t else add_bucket field_path b t)

  unfoldable pub read_total : Text → Totals F → F
  read_total agg t =
      if agg == bytes "COUNT"
      then fl.of_int (pos t.count)
      else if agg == bytes "SUM"
      then t.sum
      else if agg == bytes "AVG"
      then (if nat_beq t.count 0 then fl.zero else fl.div t.sum (fl.of_int (pos t.count)))
      else if agg == bytes "MAX"
      then or_else t.max fl.zero
      else if agg == bytes "MIN"
      then or_else t.min fl.zero
      else fl.zero

  unfoldable pub compute_bucket_aggregation : MemberState F → AggregateKey → Time → F
  compute_bucket_aggregation ms key now =
      let (behavior, agg, field_path) = parse_aggregate_field key.field in
      elim (Dict.get ms.aggregations behavior) [
        | none ↦ fl.zero
        | some behavior_agg ↦ read_total agg (
            total_buckets (window_start key.window now) (align_bucket now) field_path
              behavior_agg.buckets (record { count = 0; sum = fl.zero; max = none; min = none }))
      ]
