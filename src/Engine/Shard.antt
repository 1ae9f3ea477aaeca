-- ===== src/Engine/Shard.antt =====
-- service/engine/core/state.go: the shard's state and its copy-on-write.
-- The pointers of Go are addresses in a store. A key group map and a member are a cell each; what a
-- member owns (aggregations, progresses, their maps) belongs to its cell, and clones copy it.
pub mod Valid
pub mod Install
pub mod CopyOnWrite
pub mod Frozen
pub mod Live
pub mod Shared
use rule_engine.Prelude.{
  ℕ, zero, suc, ◌+◌, Bool, ◌&&◌, not, [], ◌∷◌, ◌++◌, Option, none, some, ltb, nat_beq,
  if◌then◌else◌, nat_eq,
}
use rule_engine.Text.{Text, text_eq}
use rule_engine.Dict
use rule_engine.Dict.{Dict}
use rule_engine.Engine.KeyGroup.{key_group_of, num_key_groups}
use rule_engine.Engine.Member.{MemberState, new_member_state, clone_member}

abbrev pub Address : Type 0
Address = ℕ

-- keyGroupState: member ids to the addresses of their states
pub record KeyGroupState : Type 0 where
  pub members : Dict Text Address
  pub version : ℕ

-- ShardState: none where no member of the key group was written
abbrev pub ShardState : Type 0
ShardState = ℕ → Option Address

-- The store, and the part of Core that state.go works on. Addresses from `next` on are free.
pub record Shard (F : Type 0) : Type 0 where
  pub groups : ℕ → Option KeyGroupState
  pub members : ℕ → Option (MemberState F)
  pub next : Address
  pub state : ShardState
  pub epoch : ℕ
  pub frozen_epoch : ℕ

abbrev pub update {ℓ} : {A : Type ℓ} → (ℕ → Option A) → ℕ → A → ℕ → Option A
update h a v b = if nat_beq a b then some v else h b

-- the member's address in a key group map
unfoldable pub find_in_group : Option KeyGroupState → Text → Option Address
unfolding Dict.get
find_in_group none member_id = none
find_in_group (some g) member_id = Dict.get g.members member_id

abbrev pub deref {ℓ} : {A : Type ℓ} → (ℕ → Option A) → Option Address → Option A
deref h none = none
deref h (some a) = h a

module _ {F : Type 0} where
  unfoldable pub new_shard : Shard F
  new_shard = record {
    groups = λ a. none;
    members = λ a. none;
    next = 0;
    state = λ kg. none;
    epoch = 0;
    frozen_epoch = 0;
  }

  -- the address of a member in a state
  unfoldable pub address_in : Shard F → ShardState → Text → Option Address
  unfolding find_in_group
  address_in s state member_id =
      find_in_group (deref s.groups (state (key_group_of member_id))) member_id

  -- `member` of a state, which the live state and a frozen copy of it share
  unfoldable pub member_in : Shard F → ShardState → Text → Option (MemberState F)
  unfolding address_in
  member_in s state member_id = deref s.members (address_in s state member_id)

  unfoldable pub member : Shard F → Text → Option (MemberState F)
  unfolding member_in
  member s = member_in s s.state

  -- `c.frozenEpoch != 0 && version < c.frozenEpoch`
  abbrev pub is_shared : Shard F → ℕ → Bool
  is_shared s version = not (nat_beq s.frozen_epoch 0) && ltb version s.frozen_epoch

  -- A new key group map with these members takes the slot.
  unfoldable pub install_group : Shard F → ℕ → Dict Text Address → Shard F
  install_group s id members = record s {
    groups = update s.groups s.next (record { members = members; version = s.epoch });
    next = suc s.next;
    state = update s.state id s.next;
  }

  -- the first switch of memberForWrite: the slot's map is there and not shared afterwards
  unfoldable pub group_for_write : Shard F → ℕ → Shard F
  unfolding install_group
  group_for_write s id = elim (deref s.groups (s.state id)) [
    | none ↦ install_group s id []
    | some g ↦ if is_shared s g.version then install_group s id g.members else s
  ]

  -- A new member state, stamped with the epoch, takes the member's place in the map at `a`.
  unfoldable pub install_member :
      Shard F → Address → KeyGroupState → Text → MemberState F → Shard F × Address
  unfolding Dict.put
  install_member s a g member_id ms = (
    record s {
      groups = update s.groups a (record g { members = Dict.put g.members member_id s.next });
      members = update s.members s.next (record ms { version = s.epoch });
      next = suc s.next;
    },
    s.next,
  )

  -- the second switch of memberForWrite, on the map at `a`
  unfoldable pub member_for_write_in : Shard F → Address → KeyGroupState → Text → Shard F × Address
  unfolding Dict.get install_member new_member_state clone_member
  member_for_write_in s a g member_id = elim (Dict.get g.members member_id) [
    | none ↦ install_member s a g member_id (new_member_state member_id)
    | some m ↦ elim (s.members m) [
      | none ↦ (s, m)
      | some ms ↦
          if is_shared s ms.version
          then install_member s a g member_id (clone_member ms)
          else (s, m)
    ]
  ]

  -- memberForWrite: the shard, and the address of a member state that may be written
  unfoldable pub member_for_write : Shard F → Text → Shard F × Address
  unfolding group_for_write member_for_write_in
  member_for_write s member_id =
      let id = key_group_of member_id in
      let s' = group_for_write s id in
      elim (s'.state id) [
        | none ↦ (s', s'.next)
        | some a ↦ elim (s'.groups a) [
          | none ↦ (s', s'.next)
          | some g ↦ member_for_write_in s' a g member_id
        ]
      ]

  -- a write through the pointer to a member
  unfoldable pub write_member : Shard F → Address → MemberState F → Shard F
  write_member s a ms = record s { members = update s.members a ms }

  unfoldable pub freeze_state : Shard F → Shard F × ShardState
  freeze_state s = (record s { epoch = s.epoch + 1; frozen_epoch = s.epoch + 1 }, s.state)

  unfoldable pub unfreeze_state : Shard F → Shard F
  unfreeze_state s = record s { frozen_epoch = 0 }

  -- the members of a key group map, in its order
  unfoldable pub members_of : Shard F → Dict Text Address → Dict Text (MemberState F)
  members_of s [] = []
  members_of s ((k, a) ∷ rest) = elim (s.members a) [
    | none ↦ members_of s rest
    | some ms ↦ (k, ms) ∷ members_of s rest
  ]

  abbrev pub group_members : Shard F → Option KeyGroupState → Dict Text (MemberState F)
  group_members s none = []
  group_members s (some g) = members_of s g.members

  -- forEachMember: the members that it visits, from the n-th key group on
  unfoldable pub visit_groups : Shard F → ℕ → ℕ → Dict Text (MemberState F)
  unfolding members_of
  visit_groups s kg zero = []
  visit_groups s kg (suc n) =
      group_members s (deref s.groups (s.state kg)) ++ visit_groups s (suc kg) n

  unfoldable pub for_each_member : Shard F → Dict Text (MemberState F)
  unfolding visit_groups
  for_each_member s = visit_groups s 0 num_key_groups
