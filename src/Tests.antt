-- ===== src/Tests.antt =====
-- Runs of the definitions on sample data, and the theorems at concrete inputs.
mod Samples
mod Program
mod Rules
mod Strategies
mod Shards
mod Events
mod Patterns
mod Snapshots
mod Consumers
mod Loops
mod Rows
mod Api
mod Subjects
mod Startup
mod Restarts
mod Generators
