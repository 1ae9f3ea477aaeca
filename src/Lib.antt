-- ===== src/Lib.antt =====
-- The rule engine: event rules and event sequences evaluated in memory, shard by shard.
--
-- A rule is a tree of conditions. It is evaluated on the tree, or compiled to a closure once. A
-- shard (Core) takes one behavior event after the other: it finds the member's state by
-- copy-on-write, folds the event into time buckets, and for an event that is not behind the
-- watermark moves the watermark on, evaluates the rules against fields and bucket aggregates,
-- advances the member's event sequences, and fires the deadlines that the watermark has passed.
-- A snapshot freezes the shard by its copy-on-write epoch and is encoded while events go on.
--
-- Files, with the code that they model:
-- - Prelude, Text, Dict, Float, Time: shared types. A text is a list of bytes, a Go map an
--   association list with the key order of its loop, a time the nanoseconds since Go's zero time,
--   a duration an int64 with its wrap-around. float64 is a parameter type F with a record of its
--   operations (Float); no law of arithmetic is assumed.
-- - Rule/Value, Rule/Operator, Rule/Evaluate, Rule/Compile: service/base/rule/usecase/rule.go and
--   compile.go. Rule/Node, Rule/Window, Rule/Context, Rule/Keys, Rule/Validate:
--   service/base/rule/model and the rest of service/base/rule/usecase.
--   Rule/Agreement compares the two evaluators. Rule/Strategy: strategy.go over a repository
--   interface, with its cache; Rule/Strategy/Coherence: sequences of its calls.
-- - Engine/KeyGroup: service/engine/core/keygroup.go. Its crc32 is computed bit by bit.
-- - Engine/Member, Engine/Shard: state.go. Key group maps and members are cells of a store, and
--   pointers are addresses, since the frozen view and the live state share them. What a member
--   owns is part of its cell. Engine/Shard/Valid, Install and CopyOnWrite hold the invariant and
--   memberForWrite's promise; Frozen and Live what a snapshot and the live state read.
-- - Engine/Aggregation: aggregation.go. Engine/Eval: eval.go. Engine/Deadlines:
--   negative_queue.go's heap, with the algorithm that container/heap documents. Deadlines/Order, Up,
--   Down and Ordered: the heap order; Engine/Cep/Pushes: processCEP only pushes; Engine/Core/Overdue
--   and Engine/Reachable/Timely: the deadlines against the watermark; Deadlines/Held, Core/Targets and
--   Core/Emitted: what the drain emits.
-- - Engine/Cep: cep.go, in Pattern (registration), Advance (one progress) and Process (one event).
-- - Engine/Core: core.go, watermark.go and the drain of negative_queue.go. Engine/Snapshot:
--   snapshot.go, with gob as a parameter (Codec). Engine/Reachable: sequences of operations.
-- - Engine/Writes: what every event keeps of the shard. Engine/Snapshot/Stable: the frozen view while
--   events go on; StoreGroup, Restore, Lookup and RoundTrip: from a snapshot back to the shard.
-- - Engine/Snapshot/Valid: the restored shard keeps the invariant; Engine/Reachable/Keys: distinct keys.
-- - Engine/RuleView: an abstract specification of ProcessEvent for the rules and the late sink, a plain
--   map from member ids to aggregates; Refines compares the engine with it, over lists of events, and
--   Restart a core with the one that Restore makes of its snapshot.
-- - Engine/Consumer: consumer.go, over a file system (Disk) and a JSON decoder. Its Snapshotter is
--   the periodic snapshot: the goroutine reads one key group of the frozen view in a step, then
--   encodes, then writes, and Snapshotter/Steps lets these steps and those of the main loop
--   come in any order. Consumer/Kafka and Consumer/Nats: Run of consumer_kafka.go and
--   consumer_nats.go, where the broker is the list of the polls or messages that it returns, with
--   the readings of the clock and the steps that the goroutine has taken by then; Loop is what
--   both do with one event. Replay, Mirror and Runs hold what is shown of the loops.
-- - Rule/Repository: service/base/rule/repository/db/rule.go, over a table that gorm keeps (Table)
--   and the JSON of encoding/json (Codec), with their laws in Repository/Rows. Strategy/Persistence
--   is the use case over it. Engine/Cep/Table: service/base/cep/repository/db/cep_pattern.go.
-- - Api: service/bff/apis/controller/rule.go and the routes of router/rule.go, on texts of paths,
--   queries and bodies; gin binds a body (Bind). Text/Number: what the program calls of strconv.
-- - Engine/Producer: producer_kafka.go and producer_nats.go, over the client's call as a function on
--   the state of a broker. Startup: cmd/rule-engine-core/main.go with pkg/env, up to the run of the
--   consumer. Startup/Subject and Routing: from the producers to the shard that reads an event.
-- - Generator: cmd/event-producer/main.go, the loop over its ticks; random numbers, ids and the clock
--   come with each tick, and the broker is a function as in Producer.
-- - Tests: runs on sample data, and the theorems at concrete inputs.
--
-- The drain runs on fuel equal to the number of deadlines, of which each round pops one; up and
-- down run on fuel equal to the heap's length, which their index can not pass. The wait for a
-- snapshot's goroutine runs as many steps as there are key groups, and two. Offsets and sequence
-- numbers are natural numbers, taken to stay below 2^63. Errors keep their kind and the values that
-- they name, and leave out the wrapping of messages by enclosing calls. Times are taken not to lie
-- before the zero time of Go; UnixNano wraps around as in an int64 (Time.unix_nano). Numbers of type
-- float64 are a parameter, in which the two zeros are taken to be one, as a column of jsonb stores
-- them. The maps and slices below a member state are values, so a deep and a shallow copy of them are
-- the same here. ToUpper and ToLower are those of ASCII. The goroutine of a snapshot takes its steps
-- between two polls or messages in Consumer/Kafka and Consumer/Nats, and at any time in
-- Snapshotter/Steps.
--
-- Not modelled: overlapping calls of the rule strategy use case, what only configures the clients of
-- the brokers and of the database, the HTTP server around the handlers, the configuration file, and
-- the benchmark (cmd/bench).
pub mod Prelude
pub mod Text
pub mod Dict
pub mod Float
pub mod Time
pub mod Rule
pub mod Engine
pub mod Api
pub mod Startup
pub mod Generator
pub mod Tests
