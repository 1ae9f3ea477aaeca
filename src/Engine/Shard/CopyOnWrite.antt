-- ===== src/Engine/Shard/CopyOnWrite.antt =====
-- memberForWrite of state.go: what it returns, and that a frozen view never changes.
use rule_engine.Prelude.{
  ℕ, ◌≡◌, refl, sym, ap, ◌∙◌, true, false, Option, none, some, arith, inl, inr, Bool-cases,
}
use rule_engine.Text.{Text, text_eq, text_beq, text_beq_iff}
use rule_engine.Dict
use rule_engine.Dict.{Dict, get-put}
use rule_engine.Engine.KeyGroup.{key_group_of}
use rule_engine.Engine.Member.{MemberState, new_member_state, clone_member}
use rule_engine.Engine.Member.Clone.{clone_member_lem}
use rule_engine.Engine.Shard.{
  Address, KeyGroupState, Shard, deref, address_in, member_in, member, is_shared, group_for_write,
  install_member, member_for_write_in, member_for_write,
}
use rule_engine.Engine.Shard.Valid.{IsValid, GroupReady, group_for_write-GroupReady}
use rule_engine.Engine.Shard.Install.{
  group_for_write_keeps, install_member-IsValid, address-install_member,
}

-- a member state with its version out of view
abbrev pub unversioned : {F : Type 0} → MemberState F → MemberState F
unversioned ms = record ms { version = 0 }

-- the member's state, or a new one
abbrev pub or_new : {F : Type 0} → Text → Option (MemberState F) → MemberState F
or_new id none = new_member_state id
or_new id (some ms) = ms

-- What memberForWrite promises: a member state of the right content that no frozen view shares, in
-- the member's place, with all other members and everything shared left as they were.
pub record Writable {F : Type 0} (s : Shard F) (id : Text) (s' : Shard F) (a : Address)
    : Type 0 where
  pub content : MemberState F
  pub cell : s'.members a ≡ some content
  pub same_content : unversioned content ≡ unversioned (or_new id (member s id))
  pub unshared : is_shared s content.version ≡ false
  pub slot : Address
  pub group : KeyGroupState
  pub slot_set : s'.state (key_group_of id) ≡ some slot
  pub slot_cell : s'.groups slot ≡ some group
  pub slot_unshared : is_shared s group.version ≡ false
  pub place : address_in s' s'.state id ≡ some a
  pub others :
      (j : Text) → text_beq id j ≡ false → address_in s' s'.state j ≡ address_in s s.state j
  pub old_members : (b : Address) (m : MemberState F) → s.members b ≡ some m → s'.members b ≡ some m
  pub shared_groups :
      (b : Address) (g : KeyGroupState)
      → s.groups b ≡ some g
      → is_shared s g.version ≡ true
      → s'.groups b ≡ some g
  pub frozen_epoch : s'.frozen_epoch ≡ s.frozen_epoch
  pub epoch : s'.epoch ≡ s.epoch
  pub valid : IsValid s'

module _ {F : Type 0} (s : Shard F) (id : Text) (v : IsValid s) where
  abbrev pub kg : ℕ
  kg = key_group_of id

  abbrev pub s1 : Shard F
  s1 = group_for_write s kg

  abbrev pub ready : GroupReady s s1 kg
  ready = group_for_write-GroupReady s kg v

  abbrev valid1 : IsValid s1
  valid1 = (group_for_write_keeps s kg v).0

  abbrev pub a : Address
  a = ready.address

  abbrev pub g : KeyGroupState
  g = ready.group

  pub second_switch : member_for_write s id ≡ member_for_write_in s1 a g id
  unfolding member_for_write
  second_switch = ground (arith, ready.slot, ready.cell)

  -- the member, through the map that the first switch left
  found_member : (m : Option Address) → Dict.get g.members id ≡ m → member s id ≡ deref s.members m
  unfolding member member_in address_in
  found_member m e = cc (sym (ready.same_members id) ∙ e)

  fresh-Writable :
      (ms : MemberState F)
      → unversioned ms ≡ unversioned (or_new id (member s id))
      → Writable s id (install_member s1 a g id ms).0 (install_member s1 a g id ms).1
  unfolding install_member
  fresh-Writable ms same = record {
    content = record ms { version = s1.epoch };
    cell = ground arith;
    same_content = same;
    unshared = ground (arith, v.epochs, ready.epoch);
    slot = a;
    group = record g { members = Dict.put g.members id s1.next };
    slot_set = ready.slot;
    slot_cell = ground arith;
    slot_unshared = ready.unshared;
    place = ground (
      arith,
      address-install_member s1 a g id ms valid1 ready.slot ready.cell id,
      (text_beq_iff id id).1 refl,
    );
    others = λ j h. ground (
      arith,
      address-install_member s1 a g id ms valid1 ready.slot ready.cell j,
      (group_for_write_keeps s kg v).1 j,
    );
    old_members = λ b m e.
        ground (arith, ready.members b, ready.members s1.next, valid1.free_members s1.next);
    shared_groups = λ b g' e h. ground (arith, ready.old_groups b g' e, ready.cell, ready.unshared);
    frozen_epoch = ready.frozen_epoch;
    epoch = ready.epoch;
    valid = install_member-IsValid s1 a g id ms valid1 ready.slot ready.cell;
  }

  -- the member is there and not shared: nothing changes but the slot's map
  kept-Writable :
      (m : Address) (ms : MemberState F)
      → Dict.get g.members id ≡ some m
      → s.members m ≡ some ms
      → is_shared s ms.version ≡ false
      → Writable s id s1 m
  kept-Writable m ms found cell h = record {
    content = ms;
    cell = ready.members m ∙ cell;
    same_content = ap (λ o. unversioned (or_new id o)) (sym (found_member (some m) found ∙ cell));
    unshared = h;
    slot = a;
    group = g;
    slot_set = ready.slot;
    slot_cell = ready.cell;
    slot_unshared = ready.unshared;
    place = (group_for_write_keeps s kg v).1 id ∙ address_found m found;
    others = λ j h. (group_for_write_keeps s kg v).1 j;
    old_members = λ b m e. ready.members b ∙ e;
    shared_groups = λ b g' e h. ready.old_groups b g' e;
    frozen_epoch = ready.frozen_epoch;
    epoch = ready.epoch;
    valid = valid1;
  }
    where
      address_found :
          (m : Address) → Dict.get g.members id ≡ some m → address_in s s.state id ≡ some m
      address_found m e = unfold address_in in (sym (ready.same_members id) ∙ e)

  new_case :
      Dict.get g.members id ≡ none
      → member_for_write_in s1 a g id ≡ install_member s1 a g id (new_member_state id)
  unfolding member_for_write_in
  new_case e = ground arith

  clone_case :
      (m : Address) (ms : MemberState F)
      → Dict.get g.members id ≡ some m
      → s1.members m ≡ some ms
      → is_shared s1 ms.version ≡ true
      → member_for_write_in s1 a g id ≡ install_member s1 a g id (clone_member ms)
  unfolding member_for_write_in
  clone_case m ms e c h = ground arith

  kept_case :
      (m : Address) (ms : MemberState F)
      → Dict.get g.members id ≡ some m
      → s1.members m ≡ some ms
      → is_shared s1 ms.version ≡ false
      → member_for_write_in s1 a g id ≡ (s1, m)
  unfolding member_for_write_in
  kept_case m ms e c h = ground arith

  by_entry :
      (o : Option Address)
      → Dict.get g.members id ≡ o
      → Writable s id (member_for_write_in s1 a g id).0 (member_for_write_in s1 a g id).1
  by_entry none e = rw (new_case e) (
      fresh-Writable (new_member_state id)
        (ap (λ o. unversioned (or_new id o)) (sym (found_member none e))))
  by_entry (some m) e =
      let (ms, c) = valid1.entries kg a g id m ready.slot ready.cell e in
      let cell : s.members m ≡ some ms = sym (ready.members m) ∙ c in
      let same : unversioned ms ≡ unversioned (or_new id (member s id)) =
        ap (λ o. unversioned (or_new id o)) (sym (found_member (some m) e ∙ cell)) in
      elim (Bool-cases (is_shared s1 ms.version)) [
        | inl h ↦
            rw (clone_case m ms e c h)
              (fresh-Writable (clone_member ms) (ap unversioned (clone_member_lem ms) ∙ same))
        | inr h ↦
            rw (kept_case m ms e c h)
              (kept-Writable m ms e cell (ground (arith, ready.frozen_epoch)))
      ]

  -- On a valid shard memberForWrite finds, creates or clones the member's state, whatever was
  -- frozen: the result is writable, has the member's content, and nothing shared is changed.
  pub member_for_write-Writable : Writable s id (member_for_write s id).0 (member_for_write s id).1
  member_for_write-Writable = rw second_switch (by_entry (Dict.get g.members id) refl)
