-- ===== src/Engine/Shard/Live.antt =====
-- The live state behind copy-on-write: a map from member ids to member states, in which an object is
-- cloned at most once per freeze.
use rule_engine.Prelude.{
  ℕ, ◌≡◌, refl, sym, ap, ◌∙◌, false, Option, none, some, arith, if◌then◌else◌, inl, inr, Bool-cases,
}
use rule_engine.Text.{Text, text_eq, text_beq, text_beq_iff}
use rule_engine.Dict
use rule_engine.Engine.KeyGroup.{key_group_of}
use rule_engine.Engine.Member.{MemberState}
use rule_engine.Engine.Shard.{
  Address, KeyGroupState, Shard, update, deref, find_in_group, address_in, member_in, member,
  is_shared, group_for_write, member_for_write_in, member_for_write, write_member, new_shard,
}
use rule_engine.Engine.Shard.Valid.{IsValid}
use rule_engine.Engine.Shard.Install.{address_in_use}
use rule_engine.Engine.Shard.CopyOnWrite.{unversioned, or_new, Writable, member_for_write-Writable}
use rule_engine.Engine.Shard.Frozen.{Edit, edit_member, edit_lem}

-- The empty shard is valid.
pub new_shard-IsValid : {F : Type 0} → IsValid (new_shard {F = F})
unfolding new_shard address_in find_in_group
new_shard-IsValid = record {
  free_groups = λ a h. refl;
  free_members = λ a h. refl;
  epochs = omega arith;
  slots = λ kg a h. cc;
  entries = λ kg a g id m h c f. cc;
  group_versions = λ a g h. cc;
  member_versions = λ a m h. cc;
  slots_apart = λ j k a p q. cc;
  members_apart = λ i j m p q. cc;
}

module _ {F : Type 0} (s : Shard F) (id : Text) (edit : Edit F) (v : IsValid s) where
  abbrev s' : Shard F
  s' = (member_for_write s id).0

  abbrev a : Address
  a = (member_for_write s id).1

  abbrev pub w : Writable s id s' a
  w = member_for_write-Writable s id v

  member-write_member :
      (t : Shard F) (b : Address) (ms : MemberState F) (j : Text) (o : Option Address)
      → address_in t t.state j ≡ o
      → member (write_member t b ms) j ≡ deref (update t.members b ms) o
  unfolding member member_in write_member address_in
  member-write_member t b ms j o e = ground arith

  member_lem :
      (j : Text) (o : Option Address) → address_in s s.state j ≡ o → member s j ≡ deref s.members o
  unfolding member member_in
  member_lem j o e = ground arith

  written_self :
      (j : Text)
      → id ≡ j
      → member (write_member s' a (edit.run w.content)) j ≡ some (edit.run w.content)
  written_self j e =
      member-write_member s' a (edit.run w.content) j (some a)
        (ap (λ x. address_in s' s'.state x) (sym e) ∙ w.place)
      ∙ ground arith

  written_other :
      (j : Text) (o : Option Address)
      → text_beq id j ≡ false
      → address_in s s.state j ≡ o
      → member (write_member s' a (edit.run w.content)) j ≡ member s j
  written_other j none ne e =
      member-write_member s' a (edit.run w.content) j none (w.others j ne ∙ e)
      ∙ sym (member_lem j none e)
  written_other j (some m) ne e =
      let (ms, old) = address_in_use s v j m e in
      member-write_member s' a (edit.run w.content) j (some m) (w.others j ne ∙ e)
      ∙ ground (
        arith,
        w.old_members m ms old,
        w.valid.members_apart id j a w.place,
        w.others j ne,
        text_beq_iff id j,
      )
      ∙ sym (member_lem j (some m) e ∙ old)

  -- What the live state holds after a write: the edited state of the member written, and every
  -- other member as it was.
  pub member-edit_member :
      (j : Text)
      → member (edit_member s (id, edit)) j
        ≡ (if text_beq id j then some (edit.run w.content) else member s j)
  member-edit_member j = rw (edit_lem s id edit v) (elim (Bool-cases (text_beq id j)) [
    | inl e ↦ rw e (written_self j ((text_beq_iff id j).0 e))
    | inr e ↦ rw e (written_other j (address_in s s.state j) e refl)
  ])

  -- On a valid shard copy-on-write refines a plain map: an edit of a member applies to its state (or
  -- to a new one), up to the version stamp, and every other member reads as before.
  pub edit_member-live :
      (c : MemberState F) × (unversioned c ≡ unversioned (or_new id (member s id)))
      × ((j : Text)
          → member (edit_member s (id, edit)) j
            ≡ (if text_beq id j then some (edit.run c) else member s j))
  edit_member-live = (w.content, w.same_content, member-edit_member)

module _ {F : Type 0} (t : Shard F) (kg : ℕ) (b : Address) (g : KeyGroupState) where
  group_stays :
      t.state kg ≡ some b
      → t.groups b ≡ some g
      → is_shared t g.version ≡ false
      → group_for_write t kg ≡ t
  unfolding group_for_write
  group_stays p q r = ground arith

  member_stays :
      (id : Text) (m : Address) (ms : MemberState F)
      → Dict.get g.members id ≡ some m
      → t.members m ≡ some ms
      → is_shared t ms.version ≡ false
      → member_for_write_in t b g id ≡ (t, m)
  unfolding member_for_write_in
  member_stays id m ms p q r = ground arith

module _ {F : Type 0} (t : Shard F) (id : Text) (b m : Address) (g : KeyGroupState)
    (ms : MemberState F) where
  writable_stays :
      t.state (key_group_of id) ≡ some b
      → t.groups b ≡ some g
      → is_shared t g.version ≡ false
      → Dict.get g.members id ≡ some m
      → t.members m ≡ some ms
      → is_shared t ms.version ≡ false
      → member_for_write t id ≡ (t, m)
  unfolding member_for_write
  writable_stays p q r f c u = ground (
    arith,
    group_stays t (key_group_of id) b g p q r,
    member_stays t (key_group_of id) b g id m ms f c u,
  )

  found_in_slot :
      address_in t t.state id ≡ some m
      → t.state (key_group_of id) ≡ some b
      → t.groups b ≡ some g
      → Dict.get g.members id ≡ some m
  unfolding address_in find_in_group
  found_in_slot h p q = ground arith

-- On a valid shard a second memberForWrite of the same member changes nothing and returns the same pointer: an object
-- is cloned at most once per freeze, and a member is created once.
pub member_for_write_once :
    {F : Type 0} (s : Shard F) (id : Text)
    → IsValid s
    → member_for_write (member_for_write s id).0 id ≡ member_for_write s id
member_for_write_once s id v =
    let w = member_for_write-Writable s id v in
    let t = (member_for_write s id).0 in
    writable_stays t id w.slot (member_for_write s id).1 w.group w.content w.slot_set w.slot_cell
      (ground (arith, w.slot_unshared, w.frozen_epoch))
      (found_in_slot t id w.slot (member_for_write s id).1 w.group w.content w.place w.slot_set
        w.slot_cell)
      w.cell (ground (arith, w.unshared, w.frozen_epoch))
