-- ===== src/Engine/Snapshot/Lookup.antt =====
-- encode of snapshot.go: the members that it writes are those that the shard reads.
use rule_engine.Prelude.{
  ℕ, zero, suc, ◌+◌, ◌<◌, ◌≤◌, ◌≡◌, refl, sym, ap, ◌∙◌, [], ◌∷◌, Option, none, some, arith, inl,
  inr, Option-cases, int_eq, pos, negsuc, Bool-cases, nat_beq,
}
use mathlib.Core.Option
use rule_engine.Text.{Text, text_eq, text_beq_iff}
use rule_engine.Dict
use rule_engine.Dict.{Dict}
use rule_engine.Dict.Distinct.{DistinctKeys}
use rule_engine.Engine.Member.{MemberState}
use rule_engine.Engine.Shard.{
  Shard, ShardState, Address, KeyGroupState, deref, find_in_group, members_of,
}
use rule_engine.Engine.Shard.Valid.{slot_of}
use rule_engine.Engine.Shard.Shared.{HasDistinctKeys}
use rule_engine.Engine.Snapshot.{frozen_groups}
use rule_engine.Engine.Snapshot.StoreGroup.{lookup}

module _ {F : Type 0} where
  -- a member of a list of a key group's members, if there is one
  abbrev pub find_member : Option (Dict Text (MemberState F)) → Text → Option (MemberState F)
  find_member none id = none
  find_member (some members) id = Dict.get members id

  members_of_absent :
      (s : Shard F) (ids : Dict Text Address) (id : Text)
      → Dict.get ids id ≡ none
      → Dict.get (members_of s ids) id ≡ none
  unfolding members_of Dict.get
  members_of_absent s [] id e = refl
  members_of_absent s ((k, m) ∷ ids) id e =
      let rest = members_of_absent s ids id in ground (arith, e)

  get-members_of :
      (s : Shard F) (ids : Dict Text Address) (id : Text)
      → DistinctKeys ids
      → Dict.get (members_of s ids) id ≡ deref s.members (Dict.get ids id)
  unfolding members_of Dict.get
  get-members_of s [] id d = refl
  get-members_of s ((k, m) ∷ ids) id (fresh, d) =
      let rest = get-members_of s ids id d in
      let gone = λ (q : k ≡ id). members_of_absent s ids id (ap (Dict.get ids) (sym q) ∙ fresh) in
      elim (Option-cases (s.members m)) [
        | inl none_there ↦ ground (arith, text_beq_iff k id)
        | inr (ms, there) ↦ ground arith
      ]

  module _ (s : Shard F) (view : ShardState) where
    -- the key group that encode writes
    abbrev pub written : ℕ → Option (Dict Text (MemberState F))
    written kg =
        Option.map (λ (g : KeyGroupState). members_of s g.members) (deref s.groups (view kg))

    frozen_groups_before :
        (n from kg : ℕ) → kg < from → Dict.get (frozen_groups s view from n) (pos kg) ≡ none
    unfolding frozen_groups Dict.get
    frozen_groups_before zero from kg l = refl
    frozen_groups_before (suc n) from kg l =
        let rest = frozen_groups_before n (suc from) kg (omega arith) in
        elim (Option-cases (deref s.groups (view from))) [
          | inl e ↦ ground arith
          | inr (g, e) ↦ ground arith
        ]

    pub frozen_groups-negsuc :
        (n from k : ℕ) → Dict.get (frozen_groups s view from n) (negsuc k) ≡ none
    unfolding frozen_groups Dict.get
    frozen_groups-negsuc zero from k = refl
    frozen_groups-negsuc (suc n) from k =
        let rest = frozen_groups-negsuc n (suc from) k in
        elim (Option-cases (deref s.groups (view from))) [
          | inl e ↦ ground arith
          | inr (g, e) ↦ ground arith
        ]

    skipped :
        (n from : ℕ)
        → deref s.groups (view from) ≡ none
        → frozen_groups s view from (suc n) ≡ frozen_groups s view (suc from) n
    unfolding frozen_groups
    skipped n from e = ground arith

    listed :
        (n from : ℕ) (g : KeyGroupState)
        → deref s.groups (view from) ≡ some g
        → frozen_groups s view from (suc n)
          ≡ (pos from, members_of s g.members) ∷ frozen_groups s view (suc from) n
    unfolding frozen_groups
    listed n from g e = ground arith

    -- no key group is written twice
    pub frozen_groups-DistinctKeys : (n from : ℕ) → DistinctKeys (frozen_groups s view from n)
    frozen_groups-DistinctKeys zero from = unfold frozen_groups in tt
    frozen_groups-DistinctKeys (suc n) from =
        let rest = frozen_groups-DistinctKeys n (suc from) in
        elim (Option-cases (deref s.groups (view from))) [
          | inl e ↦ rw (skipped n from e) rest
          | inr (g, e) ↦
              rw (listed n from g e) (frozen_groups_before n (suc from) from (omega arith), rest)
        ]

    pub frozen_groups_after :
        (n from kg : ℕ) → from + n ≤ kg → Dict.get (frozen_groups s view from n) (pos kg) ≡ none
    unfolding frozen_groups Dict.get
    frozen_groups_after zero from kg l = refl
    frozen_groups_after (suc n) from kg l =
        let rest = frozen_groups_after n (suc from) kg (omega arith) in
        elim (Option-cases (deref s.groups (view from))) [
          | inl e ↦ ground arith
          | inr (g, e) ↦ ground arith
        ]

    pub get-frozen_groups :
        (n from kg : ℕ)
        → from ≤ kg
        → kg < from + n
        → Dict.get (frozen_groups s view from n) (pos kg) ≡ written kg
    unfolding frozen_groups Dict.get
    get-frozen_groups zero from kg h l = absurd (omega arith)
    get-frozen_groups (suc n) from kg h l = elim (Bool-cases (nat_beq from kg)) [
      | inl same ↦
          let here : from ≡ kg = ground arith in
          let before = frozen_groups_before n (suc from) kg (omega (arith, here)) in
          let cell = ap (λ j. deref s.groups (view j)) here in
          elim (Option-cases (deref s.groups (view kg))) [
            | inl e ↦ let e' = cell ∙ e in ground arith
            | inr (g, e) ↦ let e' = cell ∙ e in ground arith
          ]
      | inr other ↦
          let later = get-frozen_groups n (suc from) kg (ground arith) (omega arith) in
          elim (Option-cases (deref s.groups (view from))) [
            | inl e ↦ ground arith
            | inr (g, e) ↦ ground arith
          ]
    ]

  pub written-lookup :
      (s : Shard F) (kg : ℕ) (id : Text)
      → HasDistinctKeys s
      → find_member (written s s.state kg) id ≡ lookup s kg id
  unfolding find_in_group
  written-lookup s kg id d = elim (Option-cases (deref s.groups (s.state kg))) [
    | inl e ↦ rw e refl
    | inr (g, e) ↦
        let (b, slot, cell) = slot_of s kg g e in rw e (get-members_of s g.members id (d b g cell))
  ]
