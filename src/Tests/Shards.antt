-- ===== src/Tests/Shards.antt =====
-- Shards: key groups, and copy-on-write on a shard of two members.
use rule_engine.Prelude.{
  ◌≡◌, refl, ◌<◌, ◌≤◌, ◌↔◌, ◌+◌, ◌*◌, ◌%◌, ℕ, List, [], ◌∷◌, Option, none, some, ℤ, if◌then◌else◌,
}
use rule_engine.Text.{Text, bytes, text_beq}
use rule_engine.Engine.KeyGroup.{key_group_of, shard_of}
use rule_engine.Engine.KeyGroup.Layout.{shard_of-eq_iff}
use rule_engine.Engine.Member.{MemberState}
use rule_engine.Engine.Shard.{Shard, member, member_in, freeze_state, new_shard, member_for_write}
use rule_engine.Engine.Shard.Valid.{IsValid}
use rule_engine.Engine.Shard.CopyOnWrite.{unversioned, or_new}
use rule_engine.Engine.Shard.Frozen.{
  Edit, edit_member, edit_members, edit_member-IsValid, frozen_view_stable,
}
use rule_engine.Engine.Shard.Live.{new_shard-IsValid, edit_member-live, member_for_write_once}
use rule_engine.Tests.Program.{program}
use rule_engine.Tests.Samples.{alice, bob}

abbrev seen_at : ℕ → Edit ℤ
seen_at t = record { run = λ ms. record ms { last_seen_at = t }; version = λ ms. refl }

abbrev one_member : Shard ℤ
one_member = edit_member new_shard (alice, seen_at 7)

one_member-IsValid : IsValid one_member
one_member-IsValid = edit_member-IsValid new_shard alice (seen_at 7) new_shard-IsValid

abbrev writes : List (Text × Edit ℤ)
writes = (alice, seen_at 8) ∷ (bob, seen_at 9) ∷ (alice, seen_at 10) ∷ []

abbrev last_seen : Option (MemberState ℤ) → ℕ
last_seen none = 0
last_seen (some ms) = ms.last_seen_at

crc_check_value : key_group_of (bytes "123456789") ≡ 0xcbf43926 % 1024
unfolding program
crc_check_value = refl

frozen_run :
    last_seen (
      member_in (edit_members (freeze_state one_member).0 writes) (freeze_state one_member).1 alice)
    ≡ 7
unfolding program edit_members edit_member
frozen_run = refl

live_run : last_seen (member (edit_members (freeze_state one_member).0 writes) alice) ≡ 10
unfolding program
live_run = refl

frozen_view_stable_example :
    member_in (edit_members (freeze_state one_member).0 writes) (freeze_state one_member).1 alice
    ≡ member one_member alice
frozen_view_stable_example = frozen_view_stable one_member writes alice one_member-IsValid

edit_member-live_example :
    (c : MemberState ℤ) × (unversioned c ≡ unversioned (or_new bob (member one_member bob)))
    × ((j : Text)
        → member (edit_member one_member (bob, seen_at 9)) j
          ≡ (if text_beq bob j then some ((seen_at 9).run c) else member one_member j))
edit_member-live_example = edit_member-live one_member bob (seen_at 9) one_member-IsValid

member_for_write_once_example :
    member_for_write (member_for_write one_member bob).0 bob ≡ member_for_write one_member bob
member_for_write_once_example = member_for_write_once one_member bob one_member-IsValid

shard_of-eq_iff_example : (shard_of 700 3 ≡ 2) ↔ ((1024 * 2 ≤ 700 * 3) × (700 * 3 < 1024 * (2 + 1)))
shard_of-eq_iff_example = shard_of-eq_iff 700 3 2
