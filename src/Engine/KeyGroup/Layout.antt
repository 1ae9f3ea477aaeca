-- ===== src/Engine/KeyGroup/Layout.antt =====
-- Key groups and shards: ranges, and the contiguous, balanced assignment.
use rule_engine.Prelude.{ℕ, ◌+◌, ◌*◌, ◌≤◌, ◌<◌, ◌≡◌, ◌↔◌, arith}
use rule_engine.Text.{Text}
use rule_engine.Engine.KeyGroup.{num_key_groups, key_group_of, shard_of, shard_of_member}

pub key_group_of-lt : (member_id : Text) → key_group_of member_id < num_key_groups
unfolding key_group_of
key_group_of-lt member_id = omega arith

-- A key group belongs to shard `s` exactly if it lies in the s-th of `n` equal parts of the key
-- groups, which are 1024 in number.
pub shard_of-eq_iff :
    (kg n s : ℕ) → (shard_of kg n ≡ s) ↔ ((1024 * s ≤ kg * n) × (kg * n < 1024 * (s + 1)))
unfolding shard_of
shard_of-eq_iff kg n s = (λ h. (omega arith, omega arith), λ h. omega arith)

-- Every member has a shard among the configured ones.
pub shard_of_member-lt : (member_id : Text) (n : ℕ) → 0 < n → shard_of_member member_id n < n
unfolding shard_of_member shard_of
shard_of_member-lt member_id n h = grind (arith, key_group_of-lt member_id)
