-- ===== src/Engine/Reachable.antt =====
-- The cores that the operations of service/engine/core can lead to, and what holds of all of them.
pub mod Timely
pub mod Keys
use rule_engine.Prelude.{ℤ, ℕ, ◌≡◌, [], arith}
use rule_engine.Time.{Duration}
use rule_engine.Float.{Float}
use rule_engine.Rule.Keys.{CompiledRuleSet}
use rule_engine.Engine.Event.{BehaviorEvent, CepPattern}
use rule_engine.Engine.Shard.{Shard, unfreeze_state, address_in}
use rule_engine.Engine.Shard.Valid.{IsValid}
use rule_engine.Engine.Shard.Install.{write_member-IsValid}
use rule_engine.Engine.Shard.CopyOnWrite.{member_for_write-Writable}
use rule_engine.Engine.Shard.Frozen.{freeze_state-IsValid}
use rule_engine.Engine.Shard.Live.{new_shard-IsValid}
use rule_engine.Engine.Cep.Pattern.{added}
use rule_engine.Engine.Core.{
  Core, new_core, with_allowed_lateness, with_late_sink, begin_replay, end_replay, register_pattern,
  process_event,
}
use rule_engine.Engine.Core.Cases.{s}
use rule_engine.Engine.Snapshot.{begin_snapshot, end_snapshot}
use rule_engine.Engine.Writes.{IsKept, process_event-IsKept}

-- A new core, its options, pattern registrations, events, replays and snapshots, and the positions
-- that a consumer notes, in any order.
pub data Reachable {F : Type 0} (fl : Float F) : Core F → Type 0 where
  started :
      (shard_id : ℤ) (rule_set : CompiledRuleSet F) → Reachable fl (new_core shard_id rule_set [])
  tuned : (c : Core F) (d : Duration) → Reachable fl c → Reachable fl (with_allowed_lateness d c)
  sunk : (c : Core F) → Reachable fl c → Reachable fl (with_late_sink c)
  registered :
      (c c' : Core F) (pattern : CepPattern F)
      → register_pattern fl c pattern ≡ added c'
      → Reachable fl c
      → Reachable fl c'
  replay_begun : (c : Core F) → Reachable fl c → Reachable fl (begin_replay c)
  replay_ended : (c : Core F) → Reachable fl c → Reachable fl (end_replay c)
  snapshot_begun : (c : Core F) → Reachable fl c → Reachable fl (begin_snapshot c).0
  snapshot_ended : (c : Core F) → Reachable fl c → Reachable fl (end_snapshot c)
  positioned : (c : Core F) (seq : ℕ) → Reachable fl c → Reachable fl (record c { last_seq = seq })
  processed :
      (c : Core F) (event : BehaviorEvent F)
      → Reachable fl c
      → Reachable fl (process_event ⦃fl = fl⦄ c event).core

module _ {F : Type 0} where
  pub unfreeze_state-IsValid : (s : Shard F) → IsValid s → IsValid (unfreeze_state s)
  unfolding unfreeze_state address_in
  unfreeze_state-IsValid s v = record {
    free_groups = v.free_groups;
    free_members = v.free_members;
    epochs = omega arith;
    slots = v.slots;
    entries = v.entries;
    group_versions = v.group_versions;
    member_versions = v.member_versions;
    slots_apart = v.slots_apart;
    members_apart = v.members_apart;
  }

-- Validity is one of the things that every event keeps.
pub IsValid-IsKept : {F : Type 0} → IsKept (IsValid {F = F})
IsValid-IsKept = record {
  grows = λ s id v _. (member_for_write-Writable s id v).valid;
  writes = λ s a old new v there _ version _. write_member-IsValid s a old new v there version;
}

pub shard-register_pattern :
    {F : Type 0} (fl : Float F) (c c' : Core F) (pattern : CepPattern F)
    → register_pattern fl c pattern ≡ added c'
    → c'.shard ≡ c.shard
unfolding register_pattern
shard-register_pattern fl c c' pattern h = ground arith

module _ {F : Type 0} (fl : Float F) where
  -- The shard of every core that the operations lead to is valid: its pointers lead to cells, no
  -- two key groups or members share a cell, and no version is newer than the epoch.
  pub Reachable-IsValid : (c : Core F) → Reachable fl c → IsValid c.shard
  unfolding new_core with_allowed_lateness with_late_sink begin_replay end_replay begin_snapshot
      end_snapshot
  Reachable-IsValid _ (started id rs) = new_shard-IsValid
  Reachable-IsValid _ (tuned d q r) = Reachable-IsValid d r
  Reachable-IsValid _ (sunk d r) = Reachable-IsValid d r
  Reachable-IsValid _ (registered d c p h r) =
      rw (shard-register_pattern fl d c p h) (Reachable-IsValid d r)
  Reachable-IsValid _ (replay_begun d r) = Reachable-IsValid d r
  Reachable-IsValid _ (replay_ended d r) = Reachable-IsValid d r
  Reachable-IsValid _ (snapshot_begun d r) = freeze_state-IsValid d.shard (Reachable-IsValid d r)
  Reachable-IsValid _ (snapshot_ended d r) = unfreeze_state-IsValid d.shard (Reachable-IsValid d r)
  Reachable-IsValid _ (positioned d seq r) = Reachable-IsValid d r
  Reachable-IsValid _ (processed d event r) =
      process_event-IsKept IsValid IsValid-IsKept ⦃fl = fl⦄ d event (Reachable-IsValid d r)
        (Reachable-IsValid d r)
