-- ===== src/Engine.antt =====
-- service/engine/core: the shard's in-memory engine.
pub mod KeyGroup
pub mod Event
pub mod Member
pub mod Aggregation
pub mod Shard
pub mod Deadlines
pub mod Eval
pub mod Cep
pub mod Core
pub mod Snapshot
pub mod Producer
pub mod Consumer
pub mod Reachable
pub mod Writes
pub mod RuleView
