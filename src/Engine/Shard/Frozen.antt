-- ===== src/Engine/Shard/Frozen.antt =====
-- Writes during a snapshot: the frozen view stays as it was, the live state is as if there were no
-- sharing, and an object is cloned at most once.
use rule_engine.Prelude.{
  ℕ, ◌<◌, ◌≡◌, refl, sym, ◌∙◌, Option, none, some, arith, inl, inr, Option-cases, List, [], ◌∷◌,
}
use rule_engine.Text.{Text, text_eq}
use rule_engine.Dict
use rule_engine.Engine.KeyGroup.{key_group_of}
use rule_engine.Engine.Member.{MemberState}
use rule_engine.Engine.Shard.{
  Address, KeyGroupState, ShardState, Shard, deref, find_in_group, address_in, member_in, member,
  member_for_write, write_member, freeze_state,
}
use rule_engine.Engine.Shard.Valid.{IsValid}
use rule_engine.Engine.Shard.Install.{write_member-IsValid}
use rule_engine.Engine.Shard.CopyOnWrite.{Writable, member_for_write-Writable}

-- A change of a member's fields, which leaves the version alone.
pub record Edit (F : Type 0) : Type 0 where
  pub run : MemberState F → MemberState F
  pub version : (ms : MemberState F) → (run ms).version ≡ ms.version

-- A mutation through the pointer that memberForWrite returned.
unfoldable pub edit_at : {F : Type 0} → Shard F × Address → Edit F → Shard F
unfolding write_member
edit_at (s, a) edit = elim (s.members a) [ none ↦ s | some ms ↦ write_member s a (edit.run ms) ]

-- `ms := c.memberForWrite(id)`, and a mutation of `*ms`
unfoldable pub edit_member : {F : Type 0} → Shard F → Text × Edit F → Shard F
unfolding member_for_write edit_at
edit_member s (id, edit) = edit_at (member_for_write s id) edit

unfoldable pub edit_members : {F : Type 0} → Shard F → List (Text × Edit F) → Shard F
unfolding edit_member
edit_members s [] = s
edit_members s (w ∷ writes) = edit_members (edit_member s w) writes

-- Everything that a frozen copy of the slots reaches is older than the freeze.
pub record IsFrozen {F : Type 0} (s : Shard F) (view : ShardState) : Type 0 where
  pub running : 0 < s.frozen_epoch
  pub groups :
      (kg : ℕ) (a : Address)
      → view kg ≡ some a
      → (g : KeyGroupState) × (s.groups a ≡ some g) × (g.version < s.frozen_epoch)
  pub members :
      (kg : ℕ) (a : Address) (g : KeyGroupState) (id : Text) (m : Address)
      → view kg ≡ some a
      → s.groups a ≡ some g
      → Dict.get g.members id ≡ some m
      → (ms : MemberState F) × (s.members m ≡ some ms) × (ms.version < s.frozen_epoch)

pub freeze_state-IsFrozen :
    {F : Type 0} (s : Shard F) → IsValid s → IsFrozen (freeze_state s).0 (freeze_state s).1
unfolding freeze_state
freeze_state-IsFrozen s v = record {
  running = omega arith;
  groups = λ kg a h. let (g, e) = v.slots kg a h in (g, e, omega (arith, v.group_versions a g e));
  members = λ kg a g id m h c f.
      let (ms, e) = v.entries kg a g id m h c f in (ms, e, omega (arith, v.member_versions m ms e));
}

pub freeze_state-IsValid : {F : Type 0} (s : Shard F) → IsValid s → IsValid (freeze_state s).0
unfolding freeze_state address_in
freeze_state-IsValid s v = record {
  free_groups = v.free_groups;
  free_members = v.free_members;
  epochs = omega arith;
  slots = v.slots;
  entries = v.entries;
  group_versions = λ a g e. omega (arith, v.group_versions a g e);
  member_versions = λ a m e. omega (arith, v.member_versions a m e);
  slots_apart = v.slots_apart;
  members_apart = v.members_apart;
}

-- A read through a slot, one pointer after the other.
pub member_in_lem :
    {F : Type 0} (s : Shard F) (view : ShardState) (j : Text) (b : Address) (g : KeyGroupState)
    (o : Option Address)
    → view (key_group_of j) ≡ some b
    → s.groups b ≡ some g
    → Dict.get g.members j ≡ o
    → member_in s view j ≡ deref s.members o
unfolding member_in address_in find_in_group
member_in_lem s view j b g o p q r = ground arith

member_in-none :
    {F : Type 0} (s : Shard F) (view : ShardState) (j : Text)
    → view (key_group_of j) ≡ none
    → member_in s view j ≡ none
unfolding member_in address_in find_in_group
member_in-none s view j p = ground arith

module _ {F : Type 0} (s : Shard F) (id : Text) (edit : Edit F) (v : IsValid s) where
  abbrev pub s' : Shard F
  s' = (member_for_write s id).0

  abbrev pub a : Address
  a = (member_for_write s id).1

  abbrev pub w : Writable s id s' a
  w = member_for_write-Writable s id v

  pub edit_lem : edit_member s (id, edit) ≡ write_member s' a (edit.run w.content)
  unfolding edit_member edit_at
  edit_lem = ground (arith, w.cell)

  pub edit_member-IsValid : IsValid (edit_member s (id, edit))
  edit_member-IsValid = rw edit_lem (
      write_member-IsValid s' a w.content (edit.run w.content) w.valid w.cell
        (edit.version w.content))

  frozen_epoch-edit_member : (edit_member s (id, edit)).frozen_epoch ≡ s.frozen_epoch
  frozen_epoch-edit_member = rw edit_lem (unfold write_member in w.frozen_epoch)

  -- a member state that is shared stays in its cell
  old_member :
      (b : Address) (m : MemberState F)
      → 0 < s.frozen_epoch
      → s.members b ≡ some m
      → m.version < s.frozen_epoch
      → (edit_member s (id, edit)).members b ≡ some m
  old_member b m pos e older =
      rw edit_lem (unfold write_member in ground (arith, w.old_members b m e, w.cell, w.unshared))

  old_group :
      (b : Address) (g : KeyGroupState)
      → 0 < s.frozen_epoch
      → s.groups b ≡ some g
      → g.version < s.frozen_epoch
      → (edit_member s (id, edit)).groups b ≡ some g
  old_group b g pos e older =
      rw edit_lem (unfold write_member in w.shared_groups b g e (ground arith))

  module _ (view : ShardState) (fz : IsFrozen s view) where
    same_group :
        (kg : ℕ) (b : Address) → view kg ≡ some b → (edit_member s (id, edit)).groups b ≡ s.groups b
    same_group kg b h =
        let (g, e, older) = fz.groups kg b h in old_group b g fz.running e older ∙ sym e

    pub edit_member-IsFrozen : IsFrozen (edit_member s (id, edit)) view
    edit_member-IsFrozen = record {
      running = rw frozen_epoch-edit_member fz.running;
      groups = λ kg b h.
          let (g, e, older) = fz.groups kg b h in
          (g, old_group b g fz.running e older, rw frozen_epoch-edit_member older);
      members = λ kg b g i m h c f.
          let (ms, e, older) = fz.members kg b g i m h (sym (same_group kg b h) ∙ c) f in
          (ms, old_member m ms fz.running e older, rw frozen_epoch-edit_member older);
    }

    by_entry :
        (j : Text) (b : Address) (g : KeyGroupState)
        → view (key_group_of j) ≡ some b
        → s.groups b ≡ some g
        → (edit_member s (id, edit)).groups b ≡ some g
        → (o : Option Address) → Dict.get g.members j ≡ o
        → member_in (edit_member s (id, edit)) view j ≡ member_in s view j
    by_entry j b g e c c' none f =
        member_in_lem (edit_member s (id, edit)) view j b g none e c' f
        ∙ sym (member_in_lem s view j b g none e c f)
    by_entry j b g e c c' (some m) f =
        let (ms, old, older) = fz.members (key_group_of j) b g j m e c f in
        member_in_lem (edit_member s (id, edit)) view j b g (some m) e c' f
        ∙ old_member m ms fz.running old older
        ∙ sym (member_in_lem s view j b g (some m) e c f ∙ old)

    -- A write leaves what a frozen view reads as it was.
    pub frozen-edit_member :
        (j : Text) → member_in (edit_member s (id, edit)) view j ≡ member_in s view j
    frozen-edit_member j = elim (Option-cases (view (key_group_of j))) [
      | inl e ↦ member_in-none (edit_member s (id, edit)) view j e ∙ sym (member_in-none s view j e)
      | inr (b, e) ↦
          let (g, c, older) = fz.groups (key_group_of j) b e in
          by_entry j b g e c (old_group b g fz.running c older) (Dict.get g.members j) refl
    ]

module _ {F : Type 0} where
  frozen-edit_members :
      (s : Shard F) (view : ShardState) (writes : List (Text × Edit F)) (j : Text)
      → IsValid s
      → IsFrozen s view
      → member_in (edit_members s writes) view j ≡ member_in s view j
  unfolding edit_members
  frozen-edit_members s view [] j v fz = refl
  frozen-edit_members s view ((id, edit) ∷ writes) j v fz =
      frozen-edit_members (edit_member s (id, edit)) view writes j (edit_member-IsValid s id edit v)
        (edit_member-IsFrozen s id edit v view fz)
      ∙ frozen-edit_member s id edit v view fz j

  freeze_state-member_in :
      (s : Shard F) (j : Text) → member_in (freeze_state s).0 (freeze_state s).1 j ≡ member s j
  unfolding freeze_state member member_in address_in
  freeze_state-member_in s j = refl

  -- From the freeze of a valid shard on, whatever members are then written and in whatever order,
  -- the frozen view returns for every member the state that it had at the freeze.
  pub frozen_view_stable :
      (s : Shard F) (writes : List (Text × Edit F)) (j : Text)
      → IsValid s
      → member_in (edit_members (freeze_state s).0 writes) (freeze_state s).1 j ≡ member s j
  frozen_view_stable s writes j v =
      frozen-edit_members (freeze_state s).0 (freeze_state s).1 writes j (freeze_state-IsValid s v)
        (freeze_state-IsFrozen s v)
      ∙ freeze_state-member_in s j
