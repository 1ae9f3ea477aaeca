-- ===== src/Engine/Snapshot/Stable.antt =====
-- encode of snapshot.go against the events that ProcessEvent handles while it runs.
use rule_engine.Prelude.{
  ℕ, zero, suc, ◌≡◌, refl, sym, ◌∙◌, [], ◌∷◌, ◌++◌, none, some, arith, inl, inr, Option-cases, pos,
  int_eq,
}
use rule_engine.Text.{Text, text_eq}
use rule_engine.Dict.{Dict}
use rule_engine.Engine.Shard.{Shard, ShardState, Address, KeyGroupState, deref, members_of}
use rule_engine.Engine.Shard.Frozen.{IsFrozen}
use rule_engine.Engine.Shard.Shared.{Keeps, HasDistinctKeys, members_of_same}
use rule_engine.Engine.Shard.{freeze_state}
use rule_engine.Engine.Snapshot.{frozen_groups}

module _ {F : Type 0} where
  module _ (s : Shard F) (view : ShardState) (kg n : ℕ) where
    no_group : view kg ≡ none → frozen_groups s view kg (suc n) ≡ frozen_groups s view (suc kg) n
    unfolding frozen_groups
    no_group e = ground arith

    some_group :
        (b : Address) (g : KeyGroupState)
        → view kg ≡ some b
        → s.groups b ≡ some g
        → frozen_groups s view kg (suc n)
          ≡ (pos kg, members_of s g.members) ∷ frozen_groups s view (suc kg) n
    unfolding frozen_groups
    some_group b g e c = ground arith

  module _ (s s' : Shard F) (view : ShardState) (fz : IsFrozen s view) (k : Keeps s s')
      (d : HasDistinctKeys s) where
    group_keeps :
        (kg : ℕ) (b : Address) (g : KeyGroupState)
        → view kg ≡ some b
        → s.groups b ≡ some g
        → members_of s' g.members ≡ members_of s g.members
    group_keeps kg b g e c = members_of_same s s' g.members (d b g c) λ id m f.
        let (ms, there, older) = fz.members kg b g id m e c f in
        k.members m ms there (ground (arith, fz.running, older)) ∙ sym there

    pub frozen_groups_keeps : (n kg : ℕ) → frozen_groups s' view kg n ≡ frozen_groups s view kg n
    frozen_groups_keeps zero kg = unfold frozen_groups in refl
    frozen_groups_keeps (suc n) kg = elim (Option-cases (view kg)) [
      | inl e ↦
          no_group s' view kg n e ∙ frozen_groups_keeps n (suc kg) ∙ sym (no_group s view kg n e)
      | inr (b, e) ↦
          let (g, c, older) = fz.groups kg b e in
          let c' = k.groups b g c (ground (arith, fz.running, older)) in
          some_group s' view kg n b g e c'
          ∙ (λ i. (pos kg, group_keeps kg b g e c i) ∷ frozen_groups_keeps n (suc kg) i)
          ∙ sym (some_group s view kg n b g e c)
    ]

  members_of_cells :
      (s s' : Shard F) (ids : Dict Text Address)
      → ((m : Address) → s'.members m ≡ s.members m)
      → members_of s' ids ≡ members_of s ids
  unfolding members_of
  members_of_cells s s' [] same = refl
  members_of_cells s s' ((k, m) ∷ ids) same =
      let rest = members_of_cells s s' ids same in let here = same m in ground (arith, rest, here)

  -- The freeze itself changes nothing that encode reads.
  pub frozen_groups-freeze_state :
      (s : Shard F) (view : ShardState) (n kg : ℕ)
      → frozen_groups (freeze_state s).0 view kg n ≡ frozen_groups s view kg n
  unfolding frozen_groups freeze_state
  frozen_groups-freeze_state s view zero kg = refl
  frozen_groups-freeze_state s view (suc n) kg = elim (Option-cases (deref s.groups (view kg))) [
    | inl e ↦ ground (arith, frozen_groups-freeze_state s view n (suc kg))
    | inr (g, e) ↦ ground (
      arith,
      frozen_groups-freeze_state s view n (suc kg),
      members_of_cells s (freeze_state s).0 g.members (λ m. refl),
    )
  ]

  -- One group more is one group read.
  pub frozen_groups-append :
      (s : Shard F) (view : ShardState) (kg n : ℕ)
      → frozen_groups s view kg (suc n)
        ≡ frozen_groups s view kg 1 ++ frozen_groups s view (suc kg) n
  unfolding frozen_groups
  frozen_groups-append s view kg n = ground arith
