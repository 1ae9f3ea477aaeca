-- ===== src/Engine/Snapshot.antt =====
-- service/engine/core/snapshot.go, over a codec that stands for encoding/gob.
pub mod Stable
pub mod StoreGroup
pub mod Restore
pub mod Valid
pub mod Lookup
pub mod RoundTrip
use rule_engine.Prelude.{
  pos, ℤ, ℕ, zero, suc, [], ◌∷◌, ◌++◌, Option, none, some, leb, if◌then◌else◌, nat_eq, negsuc,
  int_eq,
}
use rule_engine.Text.{Text, text_eq}
use rule_engine.Time.{Time, is_zero}
use rule_engine.Dict.{Dict}
use rule_engine.Engine.KeyGroup.{num_key_groups}
use rule_engine.Engine.Event.{PatternProgress}
use rule_engine.Engine.Member.{MemberState}
use rule_engine.Engine.Shard.{
  Shard, ShardState, Address, deref, members_of, update, freeze_state, unfreeze_state,
  for_each_member,
}
use rule_engine.Engine.Deadlines.{Heap, init}
use rule_engine.Engine.Core.{Core}

-- `snapshot`
pub record Snapshot (F : Type 0) : Type 0 where
  pub key_groups : Dict ℤ (Dict Text (MemberState F))
  pub watermark_nanos : Time
  pub last_seq : ℕ

-- `frozenSnapshot`
pub record FrozenSnapshot : Type 0 where
  pub state : ShardState
  pub watermark_nanos : Time
  pub last_seq : ℕ

-- gob: the encoder gives bytes unless it fails; the decoder is partial
pub record Codec (F : Type 0) : Type 0 where
  pub encode : Snapshot F → Option Text
  pub decode : Text → Option (Snapshot F)

pub data RestoreError : Type 0 where
  decode_failed : RestoreError
  key_group_out_of_range : ℤ → RestoreError

pub data Restored {ℓ} (A : Type ℓ) : Type ℓ where
  restored : A → Restored A
  failed : RestoreError → Restored A

module _ {F : Type 0} where
  unfoldable pub begin_snapshot : Core F → Core F × FrozenSnapshot
  unfolding freeze_state
  begin_snapshot c =
      let (s, state) = freeze_state c.shard in
      (
        record c { shard = s },
        record { state = state; watermark_nanos = c.watermark; last_seq = c.last_seq },
      )

  unfoldable pub end_snapshot : Core F → Core F
  unfolding unfreeze_state
  end_snapshot c = record c { shard = unfreeze_state c.shard }

  -- the loop of encode over n key groups from `kg` on, which reads the store
  unfoldable pub frozen_groups : Shard F → ShardState → ℕ → ℕ → Dict ℤ (Dict Text (MemberState F))
  unfolding members_of
  frozen_groups s state kg zero = []
  frozen_groups s state kg (suc n) =
      let rest = frozen_groups s state (suc kg) n in
      elim (deref s.groups (state kg)) [
        | none ↦ rest
        | some g ↦ (pos kg, members_of s g.members) ∷ rest
      ]

  -- what encode hands to gob, from the store as it is when it runs
  unfoldable pub frozen_view : Shard F → FrozenSnapshot → Snapshot F
  unfolding frozen_groups
  frozen_view s f = record {
    key_groups = frozen_groups s f.state 0 num_key_groups;
    watermark_nanos = f.watermark_nanos;
    last_seq = f.last_seq;
  }

  unfoldable pub encode : Codec F → Shard F → FrozenSnapshot → Option Text
  unfolding frozen_view
  encode gob s f = gob.encode (frozen_view s f)

  -- Snapshot: freeze, encode, release
  unfoldable pub take_snapshot : Codec F → Core F → Core F × Option Text
  unfolding begin_snapshot end_snapshot encode
  take_snapshot gob c = let (c', f) = begin_snapshot c in (end_snapshot c', encode gob c'.shard f)

  -- the decoded members, stored from `next` on
  unfoldable pub store_members : Shard F → Dict Text (MemberState F) → Shard F × Dict Text Address
  store_members s [] = (s, [])
  store_members s ((k, ms) ∷ rest) =
      let (s', addresses) =
        store_members (record s { members = update s.members s.next ms; next = suc s.next }) rest in
      (s', (k, s.next) ∷ addresses)

  -- a decoded key group, in its slot; its version is the zero value
  unfoldable pub store_group : Shard F → ℕ → Dict Text (MemberState F) → Shard F
  unfolding store_members
  store_group s id members =
      let (s', addresses) = store_members s members in
      record s' {
        groups = update s'.groups s'.next (record { members = addresses; version = 0 });
        next = suc s'.next;
        state = update s'.state id s'.next;
      }

  -- the loop of Restore over the key groups
  unfoldable pub restore_groups : Shard F → Dict ℤ (Dict Text (MemberState F)) → Restored (Shard F)
  unfolding store_group
  restore_groups s [] = restored s
  restore_groups s ((negsuc n, members) ∷ rest) = failed (key_group_out_of_range (negsuc n))
  restore_groups s ((pos id, members) ∷ rest) =
      let later = restore_groups (store_group s id members) rest in
      if leb num_key_groups id then failed (key_group_out_of_range (pos id)) else later

  -- the deadlines of the progresses that are parked
  unfoldable pub parked_deadlines : Dict Text (PatternProgress F) → Heap
  parked_deadlines [] = []
  parked_deadlines ((id, p) ∷ rest) =
      let later = parked_deadlines rest in
      if is_zero p.negative_deadline
      then later
      else record { deadline = p.negative_deadline; member_id = p.member_id; progress_id = p.id }
        ∷ later

  unfoldable pub member_deadlines : Dict Text (MemberState F) → Heap
  unfolding parked_deadlines
  member_deadlines [] = []
  member_deadlines ((k, ms) ∷ rest) = parked_deadlines ms.progresses ++ member_deadlines rest

  unfoldable pub rebuild_negative_deadlines : Core F → Core F
  unfolding for_each_member member_deadlines init
  rebuild_negative_deadlines c = record c {
    neg_deadlines = init (member_deadlines (for_each_member c.shard));
  }

  -- Restore of a decoded snapshot
  unfoldable pub restore_snapshot : Core F → Snapshot F → Restored (Core F × ℕ)
  unfolding restore_groups rebuild_negative_deadlines
  restore_snapshot c snap =
      elim (restore_groups (record c.shard { state = λ kg. none }) snap.key_groups) [
        | failed e ↦ failed e
        | restored s ↦ restored (
          rebuild_negative_deadlines
              (record c { shard = s; watermark = snap.watermark_nanos; last_seq = snap.last_seq }),
          snap.last_seq,
        )
      ]

  -- Restore
  unfoldable pub restore : Codec F → Core F → Text → Restored (Core F × ℕ)
  unfolding restore_snapshot
  restore gob c blob = elim (gob.decode blob) [
    | none ↦ failed decode_failed
    | some snap ↦ restore_snapshot c snap
  ]
