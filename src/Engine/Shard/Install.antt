-- ===== src/Engine/Shard/Install.antt =====
-- Installing a key group map, installing a member and writing one keep a shard valid.
use rule_engine.Prelude.{
  ℕ, ◌≡◌, refl, sym, ap, ◌∙◌, Option, some, arith, nat_beq, if◌then◌else◌, inl, inr, Bool-cases,
  Option-cases, [],
}
use rule_engine.Text.{Text, text_eq, text_beq, text_beq_iff}
use rule_engine.Dict
use rule_engine.Dict.{Dict, get-put}
use rule_engine.Engine.KeyGroup.{key_group_of}
use rule_engine.Engine.Member.{MemberState}
use rule_engine.Engine.Shard.{
  Address, KeyGroupState, Shard, update, deref, find_in_group, address_in, is_shared, install_group,
  group_for_write, install_member, write_member,
}
use rule_engine.Engine.Shard.Valid.{
  IsValid, first_write, shared_write, plain_write, find_in_none, find_in_some,
}

-- A hit in the map of a slot, taken apart.
pub find_some :
    {F : Type 0} (s : Shard F) (slot : Option Address) (id : Text) (m : Address)
    → find_in_group (deref s.groups slot) id ≡ some m
    → (a : Address) × (g : KeyGroupState) × (slot ≡ some a)
      × (s.groups a ≡ some g)
      × (Dict.get g.members id ≡ some m)
unfolding find_in_group
find_some s slot id m h = ground arith

-- An address that a map holds is in use.
pub address_in_use :
    {F : Type 0} (s : Shard F) (v : IsValid s) (j : Text) (m : Address)
    → address_in s s.state j ≡ some m
    → (x : MemberState F) × (s.members m ≡ some x)
unfolding address_in
address_in_use s v j m h =
    let (b, g, p, q, r) = find_some s (s.state (key_group_of j)) j m h in
    v.entries (key_group_of j) b g j m p q r

-- A slot that is set to a new map with the old entries.
module _ {F : Type 0} (s : Shard F) (kg : ℕ) (ids : Dict Text Address) (v : IsValid s)
    (same : (id : Text) → Dict.get ids id ≡ find_in_group (deref s.groups (s.state kg)) id) where
  pub address-install_group :
      (id : Text)
      → address_in (install_group s kg ids) (install_group s kg ids).state id
        ≡ address_in s s.state id
  unfolding address_in install_group find_in_group
  address-install_group id =
      ground (arith, same id, v.slots (key_group_of id) s.next, v.free_groups s.next)

  entries-install_group :
      (k : ℕ) (a : Address) (g : KeyGroupState) (id : Text) (m : Address)
      → update s.state kg s.next k ≡ some a
      → update s.groups s.next (record { members = ids; version = s.epoch }) a ≡ some g
      → Dict.get g.members id ≡ some m
      → (ms : MemberState F) × (s.members m ≡ some ms)
  unfolding find_in_group
  entries-install_group k a g id m p q r = elim (Bool-cases (nat_beq kg k)) [
    | inl e ↦
        let (b, g', slot, cell, found) =
          find_some s (s.state kg) id m (sym (same id) ∙ ground arith) in
        v.entries kg b g' id m slot cell found
    | inr e ↦
        v.entries k a g id m (ground arith) (ground (arith, v.slots k a, v.free_groups s.next)) r
  ]

  slots-install_group :
      (k : ℕ) (a : Address)
      → update s.state kg s.next k ≡ some a
      → (g : KeyGroupState) × (update s.groups s.next
            (record { members = ids; version = s.epoch })
            a
          ≡ some g)
  slots-install_group k a h = elim (Bool-cases (nat_beq kg k)) [
    | inl e ↦ (record { members = ids; version = s.epoch }, ground arith)
    | inr e ↦
        let (g, cell) = v.slots k a (ground arith) in (g, ground (arith, v.free_groups s.next))
  ]

  pub install_group-IsValid : IsValid (install_group s kg ids)
  unfolding install_group
  install_group-IsValid = record {
    free_groups = λ a h. ground (arith, v.free_groups a);
    free_members = λ a h. v.free_members a (omega arith);
    epochs = v.epochs;
    slots = slots-install_group;
    entries = entries-install_group;
    group_versions = λ a g h. ground (arith, v.group_versions a g);
    member_versions = v.member_versions;
    slots_apart = λ j k a p q.
        ground (arith, v.slots_apart j k a, v.slots j a, v.slots k a, v.free_groups s.next);
    members_apart = λ i j m p q.
        v.members_apart i j m (sym (address-install_group i) ∙ p)
          (sym (address-install_group j) ∙ q);
  }

-- The first switch of memberForWrite keeps validity and every member's address.
module _ {F : Type 0} (s : Shard F) (kg : ℕ) (v : IsValid s) where
  abbrev pub KeepsAddresses : Shard F → Type 0
  KeepsAddresses s' = IsValid s' × ((j : Text) → address_in s' s'.state j ≡ address_in s s.state j)

  pub group_for_write_keeps : KeepsAddresses (group_for_write s kg)
  group_for_write_keeps = elim (Option-cases (deref s.groups (s.state kg))) [
    | inl e ↦
        let same = λ (id : Text). find_in_none s kg (deref s.groups (s.state kg)) id e in
        rw (first_write s kg e)
          (install_group-IsValid s kg [] v same, address-install_group s kg [] v same)
    | inr (g, e) ↦
        let same = λ (id : Text). find_in_some s kg (deref s.groups (s.state kg)) g id e in
        elim (Bool-cases (is_shared s g.version)) [
          | inl h ↦ rw (shared_write s kg g e h) (
            install_group-IsValid s kg g.members v same,
            address-install_group s kg g.members v same,
          )
          | inr h ↦ rw (plain_write s kg g e h) (v, λ j. refl)
        ]
  ]

-- A new member at a free address, in the map of its key group's slot.
module _ {F : Type 0} (s : Shard F) (a : Address) (g : KeyGroupState) (id : Text)
    (ms : MemberState F) (v : IsValid s) (slot : s.state (key_group_of id) ≡ some a)
    (cell : s.groups a ≡ some g) where
  abbrev pub after : Shard F
  unfolding install_member
  after = (install_member s a g id ms).0

  pub address-install_member :
      (j : Text)
      → address_in after after.state j
        ≡ (if text_beq id j then some s.next else address_in s s.state j)
  unfolding address_in install_member find_in_group
  address-install_member j = elim (Bool-cases (text_beq id j)) [
    | inl e ↦
        let same : id ≡ j = (text_beq_iff id j).0 e in
        ground (arith, ap key_group_of same, get-put g.members id j s.next)
    | inr e ↦ ground (
      arith,
      v.slots_apart (key_group_of id) (key_group_of j) a slot,
      get-put g.members id j s.next,
    )
  ]

  members_apart-install_member :
      (i j : Text) (m : Address)
      → address_in after after.state i ≡ some m
      → address_in after after.state j ≡ some m
      → i ≡ j
  members_apart-install_member i j m p q = grind (
    arith,
    text_beq_iff id i,
    text_beq_iff id j,
    address-install_member i,
    address-install_member j,
    address_in_use s v i m,
    address_in_use s v j m,
    v.free_members s.next,
    v.members_apart i j m,
  )

  slots-install_member :
      (k : ℕ) (b : Address) → s.state k ≡ some b → (g' : KeyGroupState) × (after.groups b ≡ some g')
  unfolding install_member
  slots-install_member k b h = elim (Bool-cases (nat_beq a b)) [
    | inl e ↦ (record g { members = Dict.put g.members id s.next }, ground arith)
    | inr e ↦ let (g', c) = v.slots k b h in (g', ground arith)
  ]

  entries-install_member :
      (k : ℕ) (b : Address) (g' : KeyGroupState) (i : Text) (m : Address)
      → s.state k ≡ some b
      → after.groups b ≡ some g'
      → Dict.get g'.members i ≡ some m
      → (x : MemberState F) × (after.members m ≡ some x)
  unfolding install_member
  entries-install_member k b g' i m p q r = elim (Bool-cases (nat_beq s.next m)) [
    | inl e ↦ (record ms { version = s.epoch }, ground arith)
    | inr e ↦ elim (Bool-cases (nat_beq a b)) [
      | inl f ↦
          let (x, c) =
            v.entries (key_group_of id) a g i m slot cell
              (ground (arith, get-put g.members id i s.next)) in
          (x, ground arith)
      | inr f ↦ let (x, c) = v.entries k b g' i m p (ground arith) r in (x, ground arith)
    ]
  ]

  pub install_member-IsValid : IsValid after
  unfolding install_member
  install_member-IsValid = record {
    free_groups = λ b h. ground (arith, v.free_groups b, v.free_groups a);
    free_members = λ b h. ground (arith, v.free_members b);
    epochs = v.epochs;
    slots = slots-install_member;
    entries = entries-install_member;
    group_versions = λ b g' h. ground (arith, v.group_versions b g', v.group_versions a g);
    member_versions = λ b m h. ground (arith, v.member_versions b m);
    slots_apart = v.slots_apart;
    members_apart = members_apart-install_member;
  }

-- A write to a member that is there, which keeps its version.
module _ {F : Type 0} (s : Shard F) (a : Address) (old ms : MemberState F) (v : IsValid s)
    (there : s.members a ≡ some old) (version : ms.version ≡ old.version) where
  pub write_member-IsValid : IsValid (write_member s a ms)
  unfolding write_member address_in
  write_member-IsValid = record {
    free_groups = v.free_groups;
    free_members = λ b h. ground (arith, v.free_members b);
    epochs = v.epochs;
    slots = v.slots;
    entries = λ k b g i m p q r. entry m (v.entries k b g i m p q r);
    group_versions = v.group_versions;
    member_versions = λ b m h. ground (arith, v.member_versions b m, v.member_versions a old);
    slots_apart = v.slots_apart;
    members_apart = v.members_apart;
  }
    where
      entry :
          (m : Address)
          → (x : MemberState F) × (s.members m ≡ some x)
          → (x : MemberState F) × ((write_member s a ms).members m ≡ some x)
      entry m (x, e) = elim (Bool-cases (nat_beq a m)) [
        | inl f ↦ (ms, ground arith)
        | inr f ↦ (x, ground arith)
      ]
