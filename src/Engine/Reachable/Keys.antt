-- ===== src/Engine/Reachable/Keys.antt =====
-- The maps of a shard through the operations of service/engine/core: no key stands in one twice.
use rule_engine.Float.{Float}
use rule_engine.Engine.Shard.Shared.{
  HasDistinctKeys, HasDistinctKeys-IsKept, new_shard-HasDistinctKeys,
}
use rule_engine.Engine.Shard.{freeze_state, unfreeze_state}
use rule_engine.Engine.Core.{
  Core, new_core, with_allowed_lateness, with_late_sink, begin_replay, end_replay,
}
use rule_engine.Engine.Snapshot.{begin_snapshot, end_snapshot}
use rule_engine.Engine.Writes.{process_event-IsKept}
use rule_engine.Engine.Reachable.{
  Reachable, started, tuned, sunk, registered, replay_begun, replay_ended, snapshot_begun,
  snapshot_ended, positioned, processed, Reachable-IsValid, shard-register_pattern,
}

module _ {F : Type 0} (fl : Float F) where
  pub Reachable-HasDistinctKeys : (c : Core F) → Reachable fl c → HasDistinctKeys c.shard
  unfolding new_core with_allowed_lateness with_late_sink begin_replay end_replay begin_snapshot
      end_snapshot freeze_state unfreeze_state
  Reachable-HasDistinctKeys _ (started id rs) = new_shard-HasDistinctKeys F
  Reachable-HasDistinctKeys _ (tuned d q r) = Reachable-HasDistinctKeys d r
  Reachable-HasDistinctKeys _ (sunk d r) = Reachable-HasDistinctKeys d r
  Reachable-HasDistinctKeys _ (registered d c p h r) =
      rw (shard-register_pattern fl d c p h) (Reachable-HasDistinctKeys d r)
  Reachable-HasDistinctKeys _ (replay_begun d r) = Reachable-HasDistinctKeys d r
  Reachable-HasDistinctKeys _ (replay_ended d r) = Reachable-HasDistinctKeys d r
  Reachable-HasDistinctKeys _ (snapshot_begun d r) = Reachable-HasDistinctKeys d r
  Reachable-HasDistinctKeys _ (snapshot_ended d r) = Reachable-HasDistinctKeys d r
  Reachable-HasDistinctKeys _ (positioned d seq r) = Reachable-HasDistinctKeys d r
  Reachable-HasDistinctKeys _ (processed d event r) =
      process_event-IsKept HasDistinctKeys HasDistinctKeys-IsKept ⦃fl = fl⦄ d event
        (Reachable-IsValid fl d r) (Reachable-HasDistinctKeys d r)
