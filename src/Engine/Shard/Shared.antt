-- ===== src/Engine/Shard/Shared.antt =====
-- What the writes of an event leave to a snapshot in flight: every cell that the frozen view reaches.
use rule_engine.Prelude.{
  ℕ, ◌≡◌, refl, ◌∙◌, true, false, [], ◌∷◌, Option, none, some, arith, inl, inr, Bool-cases,
  Option-cases, ◌⊎◌,
}
use rule_engine.Text.{Text, text_eq}
use rule_engine.Dict
use rule_engine.Dict.{Dict}
use rule_engine.Dict.Distinct.{DistinctKeys, put-DistinctKeys, get-tail, get-head}
use rule_engine.Engine.KeyGroup.{key_group_of}
use rule_engine.Engine.Member.{MemberState, new_member_state, clone_member}
use rule_engine.Engine.Shard.{
  Shard, ShardState, Address, update, KeyGroupState, deref, is_shared, install_group,
  group_for_write, install_member, member_for_write_in, write_member, members_of, new_shard,
}
use rule_engine.Engine.Shard.Valid.{
  first_write, shared_write, plain_write, slot_of, group_for_write-GroupReady,
}
use rule_engine.Engine.Shard.CopyOnWrite.{second_switch, member_for_write-Writable}
use rule_engine.Engine.Shard.Frozen.{IsFrozen}
use rule_engine.Engine.Writes.{IsKept}

-- The snapshot in flight is the same, and every cell that it shares holds what it held.
pub record Keeps {F : Type 0} (s s' : Shard F) : Type 0 where
  pub frozen_epoch : s'.frozen_epoch ≡ s.frozen_epoch
  pub groups :
      (b : Address) (g : KeyGroupState)
      → s.groups b ≡ some g
      → is_shared s g.version ≡ true
      → s'.groups b ≡ some g
  pub members :
      (b : Address) (m : MemberState F)
      → s.members b ≡ some m
      → is_shared s m.version ≡ true
      → s'.members b ≡ some m

module _ {F : Type 0} where
  pub Keeps-IsKept : (s : Shard F) → IsKept (Keeps s)
  unfolding write_member
  Keeps-IsKept s = record {
    grows = λ t id v k.
        let w = member_for_write-Writable t id v in
        record {
          frozen_epoch = w.frozen_epoch ∙ k.frozen_epoch;
          groups = λ b g e shared.
              w.shared_groups b g (k.groups b g e shared) (ground (arith, shared, k.frozen_epoch));
          members = λ b m e shared. w.old_members b m (k.members b m e shared);
        };
    writes = λ t a old new v there alone version k. record {
      frozen_epoch = k.frozen_epoch;
      groups = k.groups;
      members = λ b m e shared.
          ground (arith, there, alone, k.members b m e shared, k.frozen_epoch, shared);
    };
  }

  pub IsFrozen-Keeps :
      (s s' : Shard F) (view : ShardState) → Keeps s s' → IsFrozen s view → IsFrozen s' view
  IsFrozen-Keeps s s' view k fz = record {
    running = rw k.frozen_epoch fz.running;
    groups = λ kg b h.
        let (g, e, older) = fz.groups kg b h in
        (g, k.groups b g e (ground (arith, fz.running, older)), rw k.frozen_epoch older);
    members = λ kg b g id m h c f.
        let (g', e, older) = fz.groups kg b h in
        let same = k.groups b g' e (ground (arith, fz.running, older)) in
        let (ms, there, past) = fz.members kg b g id m h (ground (arith, e, same, c)) f in
        (ms, k.members m ms there (ground (arith, fz.running, past)), rw k.frozen_epoch past);
  }

  -- A read of a whole map gives the same where its entries' cells are the same.
  pub members_of_same :
      (s s' : Shard F) (d : Dict Text Address)
      → DistinctKeys d
      → ((id : Text) (m : Address) → Dict.get d id ≡ some m → s'.members m ≡ s.members m)
      → members_of s' d ≡ members_of s d
  unfolding members_of
  members_of_same s s' [] u same = refl
  members_of_same s s' ((k, m) ∷ d) (fresh, u) same =
      let rest = members_of_same s s' d u (λ id b e. same id b (get-tail d k id m b fresh e)) in
      let here : s'.members m ≡ s.members m = same k m (get-head d k m) in
      ground (arith, rest, here)

-- The keys of every key group map are distinct.
abbrev pub HasDistinctKeys : {F : Type 0} → Shard F → Type 0
HasDistinctKeys s = (b : Address) (g : KeyGroupState) → s.groups b ≡ some g → DistinctKeys g.members

-- what a read after an update found
updated {ℓ} :
    {A : Type ℓ} (h : ℕ → Option A) (a : ℕ) (v : A) (b : ℕ) (x : A)
    → update h a v b ≡ some x
    → (x ≡ v) ⊎ (h b ≡ some x)
updated h a v b x e = ground arith

module _ {F : Type 0} where
  install_group-HasDistinctKeys :
      (s : Shard F) (kg : ℕ) (ids : Dict Text Address)
      → DistinctKeys ids
      → HasDistinctKeys s
      → HasDistinctKeys (install_group s kg ids)
  unfolding install_group
  install_group-HasDistinctKeys s kg ids u d b g e =
      elim (updated s.groups s.next (record { members = ids; version = s.epoch }) b g e) [
        | inl same ↦ rw same u
        | inr old ↦ d b g old
      ]

  install_member-HasDistinctKeys :
      (s : Shard F) (a : Address) (g : KeyGroupState) (id : Text) (ms : MemberState F)
      → DistinctKeys g.members
      → HasDistinctKeys s
      → HasDistinctKeys (install_member s a g id ms).0
  unfolding install_member
  install_member-HasDistinctKeys s a g id ms u d b h e =
      elim (updated s.groups a (record g { members = Dict.put g.members id s.next }) b h e) [
        | inl same ↦ rw same (put-DistinctKeys g.members id s.next u)
        | inr old ↦ d b h old
      ]

  group_for_write-HasDistinctKeys :
      (s : Shard F) (kg : ℕ) → HasDistinctKeys s → HasDistinctKeys (group_for_write s kg)
  group_for_write-HasDistinctKeys s kg d = elim (Option-cases (deref s.groups (s.state kg))) [
    | inl e ↦ rw (first_write s kg e) (install_group-HasDistinctKeys s kg [] tt d)
    | inr (g, e) ↦
        let (a, slot, cell) = slot_of s kg g e in
        elim (Bool-cases (is_shared s g.version)) [
          | inl h ↦
              rw (shared_write s kg g e h)
                (install_group-HasDistinctKeys s kg g.members (d a g cell) d)
          | inr h ↦ rw (plain_write s kg g e h) d
        ]
  ]

  module _ (s : Shard F) (a : Address) (g : KeyGroupState) (id : Text) where
    new_case :
        Dict.get g.members id ≡ none
        → member_for_write_in s a g id ≡ install_member s a g id (new_member_state id)
    unfolding member_for_write_in
    new_case e = ground arith

    module _ (m : Address) (e : Dict.get g.members id ≡ some m) where
      lost_case : s.members m ≡ none → member_for_write_in s a g id ≡ (s, m)
      unfolding member_for_write_in
      lost_case p = ground arith

      shared_case :
          (ms : MemberState F)
          → s.members m ≡ some ms
          → is_shared s ms.version ≡ true
          → member_for_write_in s a g id ≡ install_member s a g id (clone_member ms)
      unfolding member_for_write_in
      shared_case ms p h = ground arith

      own_case :
          (ms : MemberState F)
          → s.members m ≡ some ms
          → is_shared s ms.version ≡ false
          → member_for_write_in s a g id ≡ (s, m)
      unfolding member_for_write_in
      own_case ms p h = ground arith

    member_for_write_in-HasDistinctKeys :
        s.groups a ≡ some g → HasDistinctKeys s → HasDistinctKeys (member_for_write_in s a g id).0
    member_for_write_in-HasDistinctKeys cell d = elim (Option-cases (Dict.get g.members id)) [
      | inl e ↦ rw (new_case e) (install_member-HasDistinctKeys s a g id _ (d a g cell) d)
      | inr (m, e) ↦ elim (Option-cases (s.members m)) [
        | inl p ↦ rw (lost_case m e p) d
        | inr (ms, p) ↦ elim (Bool-cases (is_shared s ms.version)) [
          | inl h ↦
              rw (shared_case m e ms p h) (install_member-HasDistinctKeys s a g id _ (d a g cell) d)
          | inr h ↦ rw (own_case m e ms p h) d
        ]
      ]
    ]

  pub HasDistinctKeys-IsKept : IsKept (HasDistinctKeys {F = F})
  unfolding write_member
  HasDistinctKeys-IsKept = record {
    grows = λ s id v d.
        let ready = group_for_write-GroupReady s (key_group_of id) v in
        rw (second_switch s id v) (
          member_for_write_in-HasDistinctKeys (group_for_write s (key_group_of id)) ready.address
            ready.group id ready.cell (group_for_write-HasDistinctKeys s (key_group_of id) d));
    writes = λ s a old new v there alone version d. d;
  }

pub new_shard-HasDistinctKeys : (F : Type 0) → HasDistinctKeys (new_shard {F = F})
unfolding new_shard
new_shard-HasDistinctKeys F b g e = cc e
