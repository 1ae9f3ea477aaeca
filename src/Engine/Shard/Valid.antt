-- ===== src/Engine/Shard/Valid.antt =====
-- What holds of every shard that state.go builds, and what a write keeps.
use rule_engine.Prelude.{
  ℕ, ◌≤◌, ◌≡◌, refl, ◌≢◌, true, false, Option, none, some, arith, inl, inr, Bool-cases,
  Option-cases, [],
}
use rule_engine.Text.{Text, text_eq}
use rule_engine.Dict
use rule_engine.Dict.{Dict}
use rule_engine.Engine.Member.{MemberState}
use rule_engine.Engine.Shard.{
  Address, KeyGroupState, Shard, deref, find_in_group, address_in, is_shared, install_group,
  group_for_write,
}

-- Free addresses hold nothing, slots and map entries point to cells, versions are epochs that have
-- begun, and two slots or two members never share a cell.
pub record IsValid {F : Type 0} (s : Shard F) : Type 0 where
  pub free_groups : (a : Address) → s.next ≤ a → s.groups a ≡ none
  pub free_members : (a : Address) → s.next ≤ a → s.members a ≡ none
  pub epochs : s.frozen_epoch ≤ s.epoch
  pub slots :
      (kg : ℕ) (a : Address) → s.state kg ≡ some a → (g : KeyGroupState) × (s.groups a ≡ some g)
  pub entries :
      (kg : ℕ) (a : Address) (g : KeyGroupState) (id : Text) (m : Address)
      → s.state kg ≡ some a
      → s.groups a ≡ some g
      → Dict.get g.members id ≡ some m
      → (ms : MemberState F) × (s.members m ≡ some ms)
  pub group_versions : (a : Address) (g : KeyGroupState) → s.groups a ≡ some g → g.version ≤ s.epoch
  pub member_versions :
      (a : Address) (m : MemberState F) → s.members a ≡ some m → m.version ≤ s.epoch
  pub slots_apart : (j k : ℕ) (a : Address) → s.state j ≡ some a → s.state k ≡ some a → j ≡ k
  pub members_apart :
      (i j : Text) (m : Address)
      → address_in s s.state i ≡ some m
      → address_in s s.state j ≡ some m
      → i ≡ j

-- What the first switch of memberForWrite leaves.
pub record GroupReady {F : Type 0} (s s' : Shard F) (kg : ℕ) : Type 0 where
  pub address : Address
  pub group : KeyGroupState
  pub slot : s'.state kg ≡ some address
  pub cell : s'.groups address ≡ some group
  pub same_members :
      (id : Text) → Dict.get group.members id ≡ find_in_group (deref s.groups (s.state kg)) id
  pub unshared : is_shared s group.version ≡ false
  pub old_groups : (a : Address) (g : KeyGroupState) → s.groups a ≡ some g → s'.groups a ≡ some g
  pub members : (a : Address) → s'.members a ≡ s.members a
  pub other_slots : (k : ℕ) → k ≢ kg → s'.state k ≡ s.state k
  pub epoch : s'.epoch ≡ s.epoch
  pub frozen_epoch : s'.frozen_epoch ≡ s.frozen_epoch

module _ {F : Type 0} where
  install_group-GroupReady :
      (s : Shard F) (kg : ℕ) (ids : Dict Text Address)
      → IsValid s
      → ((id : Text) → Dict.get ids id ≡ find_in_group (deref s.groups (s.state kg)) id)
      → GroupReady s (install_group s kg ids) kg
  unfolding install_group
  install_group-GroupReady s kg ids v same = record {
    address = s.next;
    group = record { members = ids; version = s.epoch };
    slot = ground arith;
    cell = ground arith;
    same_members = same;
    unshared = ground (arith, v.epochs);
    old_groups = λ a g e. ground (arith, v.free_groups a);
    members = λ a. refl;
    other_slots = λ k ne. ground arith;
    epoch = refl;
    frozen_epoch = refl;
  }

  module _ (s : Shard F) (kg : ℕ) where
    pub first_write :
        deref s.groups (s.state kg) ≡ none → group_for_write s kg ≡ install_group s kg []
    unfolding group_for_write
    first_write e = ground arith

    pub shared_write :
        (g : KeyGroupState)
        → deref s.groups (s.state kg) ≡ some g
        → is_shared s g.version ≡ true
        → group_for_write s kg ≡ install_group s kg g.members
    unfolding group_for_write
    shared_write g e h = ground arith

    pub plain_write :
        (g : KeyGroupState)
        → deref s.groups (s.state kg) ≡ some g
        → is_shared s g.version ≡ false
        → group_for_write s kg ≡ s
    unfolding group_for_write
    plain_write g e h = ground arith

    pub slot_of :
        (g : KeyGroupState)
        → deref s.groups (s.state kg) ≡ some g
        → (a : Address) × (s.state kg ≡ some a) × (s.groups a ≡ some g)
    slot_of g e = ground arith

    pub find_in_none :
        (o : Option KeyGroupState) (id : Text)
        → o ≡ none
        → Dict.get {V = Address} [] id ≡ find_in_group o id
    unfolding find_in_group
    find_in_none o id e = ground arith

    pub find_in_some :
        (o : Option KeyGroupState) (g : KeyGroupState) (id : Text)
        → o ≡ some g
        → Dict.get g.members id ≡ find_in_group o id
    unfolding find_in_group
    find_in_some o g id e = ground arith

    plain-GroupReady :
        (g : KeyGroupState)
        → deref s.groups (s.state kg) ≡ some g
        → is_shared s g.version ≡ false
        → GroupReady s s kg
    plain-GroupReady g e h =
        let (a, slot, cell) = slot_of g e in
        record {
          address = a;
          group = g;
          slot = slot;
          cell = cell;
          same_members = λ id. find_in_some (deref s.groups (s.state kg)) g id e;
          unshared = h;
          old_groups = λ a g e. e;
          members = λ a. refl;
          other_slots = λ k ne. refl;
          epoch = refl;
          frozen_epoch = refl;
        }

    pub group_for_write-GroupReady : IsValid s → GroupReady s (group_for_write s kg) kg
    group_for_write-GroupReady v = elim (Option-cases (deref s.groups (s.state kg))) [
      | inl e ↦ rw (first_write e) (
          install_group-GroupReady s kg [] v
            (λ id. find_in_none (deref s.groups (s.state kg)) id e))
      | inr (g, e) ↦ elim (Bool-cases (is_shared s g.version)) [
        | inl h ↦ rw (shared_write g e h) (
            install_group-GroupReady s kg g.members v
              (λ id. find_in_some (deref s.groups (s.state kg)) g id e))
        | inr h ↦ rw (plain_write g e h) (plain-GroupReady g e h)
      ]
    ]
