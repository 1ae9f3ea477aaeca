-- ===== src/Engine/Aggregation/Idempotent.antt =====
-- Redelivery: an event that its bucket has counted changes nothing, and every event is counted in
-- its bucket from the first delivery on.
use rule_engine.Prelude.{
  ℕ, ◌+◌, ◌%◌, ◌^◌, ◌≤◌, ◌≡◌, refl, ◌∙◌, true, any, [], ◌∷◌, none, some, arith, ltb, if◌then◌else◌,
  ◌==◌, nat_eq, pos, inl, inr, Option-cases, beq_refl,
}
use rule_engine.Text.{Text, text_eq}
use rule_engine.Time.{Time, Duration, add_time, negate}
use rule_engine.Dict
use rule_engine.Dict.{Dict, get-put, get-put_self, put-get}
use rule_engine.Float.{Float}
use rule_engine.Engine.Member.{
  BucketData, BehaviorAgg, MemberState, new_bucket_data, new_behavior_agg,
}
use rule_engine.Engine.Aggregation.{
  align_bucket, or_else, drop_before, prune_expired_buckets, fold_field, fold_fields, count_event,
  update_aggregations,
}

-- The member's bucket for the behavior and the time holds the event's id.
pub record IsCounted {F : Type 0} (ms : MemberState F) (behavior event_id : Text) (t : Time)
    : Type 0 where
  pub agg : BehaviorAgg F
  pub bucket : BucketData F
  pub found_agg : Dict.get ms.aggregations behavior ≡ some agg
  pub found_bucket : Dict.get agg.buckets (align_bucket t) ≡ some bucket
  pub noted : any (λ s. s == event_id) bucket.processed_event_ids ≡ true

module _ {F : Type 0} where
  pub get-drop_before :
      (cutoff ts : ℕ) (m : Dict ℕ (BucketData F))
      → Dict.get (drop_before cutoff m) ts ≡ (if ltb ts cutoff then none else Dict.get m ts)
  unfolding drop_before Dict.get
  get-drop_before cutoff ts [] = ground arith
  get-drop_before cutoff ts ((j, b) ∷ m) = ground (arith, get-drop_before cutoff ts m)

-- A window of retention never reaches past the event's own bucket.
pub align_bucket-retained : (t n : ℕ) → align_bucket (add_time t (negate (pos n))) ≤ align_bucket t
unfolding align_bucket add_time negate
align_bucket-retained t n = ground arith

module _ {F : Type 0} ⦃fl : Float F⦄ where
  ids-fold_fields :
      (fields : Dict Text F) (b : BucketData F)
      → (fold_fields fields b).processed_event_ids ≡ b.processed_event_ids
  unfolding fold_fields
  ids-fold_fields [] b = refl
  ids-fold_fields ((k, v) ∷ fields) b =
      ids-fold_fields fields (fold_field k v b) ∙ unfold fold_field in refl

  noted-count_event :
      (event_id : Text) (fields : Dict Text F) (b b' : BucketData F)
      → count_event event_id fields b ≡ some b'
      → any (λ s. s == event_id) b'.processed_event_ids ≡ true
  unfolding count_event
  noted-count_event event_id fields b b' h = ground (
    arith,
    ids-fold_fields fields (record b {
      processed_event_ids = event_id ∷ b.processed_event_ids;
      count = (b.count + 1) % 2 ^ 64;
    }),
    beq_refl event_id,
  )

  counted_none :
      (event_id : Text) (fields : Dict Text F) (b : BucketData F)
      → any (λ s. s == event_id) b.processed_event_ids ≡ true
      → count_event event_id fields b ≡ none
  unfolding count_event
  counted_none event_id fields b e = ground arith

  module _ (ms : MemberState F) (behavior event_id : Text) (t : Time) (fields : Dict Text F)
      (window : Duration) where
    -- A delivery of an event that is counted already leaves the member as it was.
    pub update_counted :
        IsCounted ms behavior event_id t
        → update_aggregations ms behavior event_id t fields window ≡ ms
    unfolding update_aggregations
    update_counted h = ground (
      arith,
      counted_none event_id fields h.bucket h.noted,
      h.found_agg,
      h.found_bucket,
      put-get h.agg.buckets (align_bucket t) h.bucket h.found_bucket,
      put-get ms.aggregations behavior h.agg h.found_agg,
    )

    -- the aggregation and the bucket that the event goes to, old or new
    abbrev agg : BehaviorAgg F
    agg = or_else (Dict.get ms.aggregations behavior) new_behavior_agg

    abbrev bucket : BucketData F
    bucket = or_else (Dict.get agg.buckets (align_bucket t)) new_bucket_data

    duplicate_lem :
        count_event event_id fields bucket ≡ none
        → update_aggregations ms behavior event_id t fields window ≡ record ms {
          aggregations =
              Dict.put ms.aggregations behavior
                (record { buckets = Dict.put agg.buckets (align_bucket t) bucket });
        }
    unfolding update_aggregations
    duplicate_lem e = ground arith

    counted_lem :
        (b : BucketData F)
        → count_event event_id fields bucket ≡ some b
        → update_aggregations ms behavior event_id t fields window ≡ record ms {
          aggregations = Dict.put ms.aggregations behavior (
              prune_expired_buckets
                (record { buckets = Dict.put agg.buckets (align_bucket t) b })
                t
                window);
        }
    unfolding update_aggregations
    counted_lem b e = ground arith

    noted_of_none :
        count_event event_id fields bucket ≡ none
        → any (λ s. s == event_id) bucket.processed_event_ids ≡ true
    unfolding count_event
    noted_of_none e = ground arith

  module _ (ms : MemberState F) (behavior event_id : Text) (t n : ℕ) (fields : Dict Text F) where
    retained :
        (m : Dict ℕ (BucketData F)) (b : BucketData F)
        → Dict.get
            (prune_expired_buckets
              (record { buckets = Dict.put m (align_bucket t) b })
              t
              (pos n)).buckets
            (align_bucket t)
          ≡ some b
    unfolding prune_expired_buckets
    retained m b = ground (
      arith,
      get-drop_before (align_bucket (add_time t (negate (pos n)))) (align_bucket t)
          (Dict.put m (align_bucket t) b),
      get-put_self m (align_bucket t) b,
      align_bucket-retained t n,
    )

    -- From its first delivery on an event is counted in its bucket, for any retention that is not
    -- negative.
    pub update-IsCounted :
        IsCounted (update_aggregations ms behavior event_id t fields (pos n)) behavior event_id t
    update-IsCounted =
        elim (Option-cases
          (count_event event_id fields (bucket ms behavior event_id t fields (pos n)))) [
            | inl e ↦ rw (duplicate_lem ms behavior event_id t fields (pos n) e) (record {
              agg = record {
                buckets =
                    Dict.put (agg ms behavior event_id t fields (pos n)).buckets (align_bucket t)
                      (bucket ms behavior event_id t fields (pos n));
              };
              bucket = bucket ms behavior event_id t fields (pos n);
              found_agg = get-put_self ms.aggregations behavior _;
              found_bucket =
                  get-put_self (agg ms behavior event_id t fields (pos n)).buckets (align_bucket t)
                    _;
              noted = noted_of_none ms behavior event_id t fields (pos n) e;
            })
            | inr (b, e) ↦ rw (counted_lem ms behavior event_id t fields (pos n) b e) (record {
              agg =
                  prune_expired_buckets
                    (record {
                      buckets =
                          Dict.put (agg ms behavior event_id t fields (pos n)).buckets
                            (align_bucket t) b;
                    })
                    t (pos n);
              bucket = b;
              found_agg = get-put_self ms.aggregations behavior _;
              found_bucket = retained (agg ms behavior event_id t fields (pos n)).buckets b;
              noted =
                  noted-count_event event_id fields (bucket ms behavior event_id t fields (pos n)) b
                    e;
            })
          ]

    -- A second delivery of an event leaves the member as the first one left it, for any retention
    -- that is not negative.
    pub update_idempotent :
        update_aggregations
          (update_aggregations ms behavior event_id t fields (pos n))
          behavior
          event_id
          t
          fields
          (pos n)
        ≡ update_aggregations ms behavior event_id t fields (pos n)
    update_idempotent =
        update_counted (update_aggregations ms behavior event_id t fields (pos n)) behavior event_id
          t fields (pos n) update-IsCounted
