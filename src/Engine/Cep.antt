-- ===== src/Engine/Cep.antt =====
-- service/engine/core/cep.go: sequences of events, with terminal negative states.
pub mod Pattern
pub mod Table
pub mod Advance
pub mod Process
pub mod Sweep
pub mod Pushes
pub mod Replay
pub mod Accepted
