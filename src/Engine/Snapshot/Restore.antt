-- ===== src/Engine/Snapshot/Restore.antt =====
-- Restore of snapshot.go: what the restored shard holds.
use rule_engine.Prelude.{
  ℕ, ◌<◌, ◌≡◌, ◌≢◌, refl, ap, ◌∙◌, [], ◌∷◌, none, some, arith, inl, inr, nat_beq, Each, int_eq, ℤ,
  pos, negsuc, Bool-cases,
}
use rule_engine.Text.{Text, text_eq}
use rule_engine.Dict
use rule_engine.Dict.{Dict}
use rule_engine.Dict.Distinct.{DistinctKeys}
use rule_engine.Engine.KeyGroup.{num_key_groups}
use rule_engine.Engine.Member.{MemberState}
use rule_engine.Engine.Shard.{Shard}
use rule_engine.Engine.Snapshot.{restored, store_group, restore_groups}
use rule_engine.Engine.Snapshot.StoreGroup.{lookup, IsBelow, store_group-StoredGroup}

-- the key groups of a shard
abbrev pub InRange : ℤ → Type 0
InRange (pos kg) = kg < num_key_groups
InRange (negsuc n) = ⊥

module _ {F : Type 0} where
  -- What Restore leaves of the groups of a snapshot.
  pub record RestoredGroups (s : Shard F) (groups : Dict ℤ (Dict Text (MemberState F)))
      : Type 0 where
    pub shard : Shard F
    pub done : restore_groups s groups ≡ restored shard
    pub there :
        (kg : ℕ) (members : Dict Text (MemberState F)) (id : Text)
        → Dict.get groups (pos kg) ≡ some members
        → lookup shard kg id ≡ Dict.get members id
    pub absent :
        (kg : ℕ) (id : Text) → Dict.get groups (pos kg) ≡ none → lookup shard kg id ≡ lookup s kg id

  restore_next :
      (s : Shard F) (kg : ℕ) (members : Dict Text (MemberState F))
      (rest : Dict ℤ (Dict Text (MemberState F)))
      → kg < num_key_groups
      → restore_groups s ((pos kg, members) ∷ rest) ≡ restore_groups (store_group s kg members) rest
  unfolding restore_groups
  restore_next s kg members rest lt = ground arith

  pub restore_groups-RestoredGroups :
      (s : Shard F) (groups : Dict ℤ (Dict Text (MemberState F)))
      → IsBelow s
      → DistinctKeys groups
      → Each (λ (p : ℤ × Dict Text (MemberState F)). InRange p.0) groups
      → RestoredGroups s groups
  unfolding Dict.get
  restore_groups-RestoredGroups s [] b d h = record {
    shard = s;
    done = unfold restore_groups in refl;
    there = λ kg members id e. cc e;
    absent = λ kg id e. refl;
  }
  restore_groups-RestoredGroups s ((negsuc n, ms) ∷ rest) b d (bad, h) = absurd bad
  restore_groups-RestoredGroups s ((pos k, ms) ∷ rest) b (fresh, d) (lt, h) =
      let g = store_group-StoredGroup s k ms b in
      let later = restore_groups-RestoredGroups (store_group s k ms) rest g.below d h in
      record {
        shard = later.shard;
        done = restore_next s k ms rest lt ∙ later.done;
        there = λ kg members id e. elim (Bool-cases (nat_beq k kg)) [
          | inl same ↦
              let here : kg ≡ k = ground arith in
              let whole : ms ≡ members = ground (arith, e) in
              ap (λ j. lookup later.shard j id) here
              ∙ later.absent k id fresh
              ∙ g.found id
              ∙ ap (λ m. Dict.get m id) whole
          | inr other ↦ later.there kg members id (ground (arith, e))
        ];
        absent = λ kg id e.
            let apart : kg ≢ k = λ q. ground (arith, e) in
            later.absent kg id (ground (arith, e)) ∙ g.others kg id apart;
      }
