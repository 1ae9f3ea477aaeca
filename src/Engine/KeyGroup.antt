-- ===== src/Engine/KeyGroup.antt =====
-- service/engine/core/keygroup.go
pub mod Layout
use Prim.Native.Nat.{bit_xor}
use rule_engine.Prelude.{ℕ, zero, suc, ◌*◌, ◌/◌, ◌%◌, [], ◌∷◌, nat_beq, if◌then◌else◌}
use rule_engine.Text.{Text}

abbrev pub num_key_groups : ℕ
num_key_groups = 1024

-- One bit of the reflected CRC-32 of IEEE 802.3, as hash/crc32 computes it.
crc_bit : ℕ → ℕ
crc_bit crc = if nat_beq (crc % 2) 1 then bit_xor (crc / 2) 0xedb88320 else crc / 2

crc_bits : ℕ → ℕ → ℕ
crc_bits zero crc = crc
crc_bits (suc k) crc = crc_bits k (crc_bit crc)

crc_update : ℕ → Text → ℕ
crc_update crc [] = crc
crc_update crc (b ∷ s) = crc_update (crc_bits 8 (bit_xor crc b)) s

-- `crc32.ChecksumIEEE`
unfoldable pub checksum_ieee : Text → ℕ
unfolding crc_bit crc_bits crc_update
checksum_ieee s = bit_xor (crc_update 0xffffffff s) 0xffffffff

unfoldable pub key_group_of : Text → ℕ
key_group_of member_id = checksum_ieee member_id % num_key_groups

unfoldable pub shard_of : ℕ → ℕ → ℕ
shard_of kg num_shards = kg * num_shards / num_key_groups

unfoldable pub shard_of_member : Text → ℕ → ℕ
unfolding key_group_of shard_of
shard_of_member member_id num_shards = shard_of (key_group_of member_id) num_shards
