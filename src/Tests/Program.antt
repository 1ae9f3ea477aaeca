-- ===== src/Tests/Program.antt =====
-- The definitions that a run unfolds, under one name.
use rule_engine.Api.Controller
use rule_engine.Dict
use rule_engine.Engine.Aggregation
use rule_engine.Engine.Cep.Advance
use rule_engine.Engine.Cep.Pattern
use rule_engine.Engine.Cep.Process
use rule_engine.Engine.Cep.Table
use rule_engine.Engine.Consumer
use rule_engine.Engine.Consumer.Kafka
use rule_engine.Engine.Consumer.Loop
use rule_engine.Engine.Consumer.Nats
use rule_engine.Engine.Consumer.Snapshotter
use rule_engine.Engine.Core
use rule_engine.Engine.Deadlines
use rule_engine.Engine.Eval
use rule_engine.Engine.KeyGroup
use rule_engine.Engine.Member
use rule_engine.Engine.Producer
use rule_engine.Engine.RuleView
use rule_engine.Engine.Shard
use rule_engine.Engine.Shard.Frozen
use rule_engine.Engine.Snapshot
use rule_engine.Generator
use rule_engine.Prelude.Int.{◌*ℤ◌, wrap64}
use rule_engine.Rule.Compile
use rule_engine.Rule.Context
use rule_engine.Rule.Evaluate
use rule_engine.Rule.Keys
use rule_engine.Rule.Node
use rule_engine.Rule.Operator
use rule_engine.Rule.Repository
use rule_engine.Rule.Strategy
use rule_engine.Rule.Strategy.Coherence
use rule_engine.Rule.Validate
use rule_engine.Rule.Value
use rule_engine.Rule.Window
use rule_engine.Startup
use rule_engine.Text
use rule_engine.Text.Number
use rule_engine.Time

unfoldable pub program : Unit {0}
unfolding Controller.handle_create Controller.handle_get Controller.handle_list
    Controller.handle_update Controller.handle_set_status Controller.handle Dict.get Dict.put
    Dict.delete Dict.has Dict.put_all Aggregation.align_bucket Aggregation.drop_before
    Aggregation.prune_expired_buckets Aggregation.to_float64 Aggregation.numeric_fields_of
    Aggregation.fold_field Aggregation.fold_fields Aggregation.count_event
    Aggregation.update_aggregations Aggregation.parse_parts Aggregation.parse_aggregate_field
    Aggregation.window_start Aggregation.add_bucket Aggregation.total_buckets Aggregation.read_total
    Aggregation.compute_bucket_aggregation Advance.cep_match_state Advance.extract_bindings
    Advance.match_result Advance.advance_negative Advance.is_expired Advance.step_progress
    Advance.finish_step Advance.advance_state Advance.advance_progress Pattern.max_wait_loop
    Pattern.max_duration Pattern.check_states Pattern.compile_states Pattern.compile_pattern
    Pattern.add_pattern Pattern.pattern_by_id Pattern.deterministic_progress_id Process.is_swept
    Process.sweep_expired_progresses Process.advance_all Process.new_progress Process.open_progress
    Process.start_pattern Process.start_all Process.process_cep Table.patterns_of
    Table.list_active_patterns Consumer.decode_event Consumer.write_snapshot_file
    Consumer.snapshot_to_file Kafka.kafka_restore Kafka.kafka_start Kafka.kafka_record
    Kafka.kafka_records Kafka.kafka_poll Kafka.kafka_loop Kafka.kafka_run Loop.note_position
    Loop.handle_event Nats.nats_restore Nats.nats_position Nats.nats_start Nats.note_metadata
    Nats.nats_message Nats.nats_loop Nats.nats_run Snapshotter.new_async_snapshotter
    Snapshotter.encoded Snapshotter.encode_read Snapshotter.finish Snapshotter.start
    Snapshotter.start_if_due Snapshotter.tick_on Snapshotter.tick Snapshotter.step_job
    Snapshotter.work Snapshotter.work_on Snapshotter.await_job Snapshotter.drain_snapshots
    Core.new_core Core.with_allowed_lateness Core.with_late_sink Core.begin_replay Core.end_replay
    Core.is_late Core.advance_watermark Core.parked_progress Core.delete_progress Core.fire_deadline
    Core.drain Core.drain_negative_matches Core.register_pattern Core.fold_event
    Core.process_on_time Core.process_event Deadlines.less Deadlines.swap Deadlines.up
    Deadlines.smaller_child Deadlines.down Deadlines.push Deadlines.drop_last Deadlines.pop
    Deadlines.heapify Deadlines.init Eval.matched_rules Eval.build_eval_fields Eval.fill_cache
    Eval.evaluate_rules KeyGroup.checksum_ieee KeyGroup.key_group_of KeyGroup.shard_of
    KeyGroup.shard_of_member Member.new_bucket_data Member.new_behavior_agg Member.new_member_state
    Member.clone_bucket Member.clone_buckets Member.clone_agg Member.clone_aggregations
    Member.clone_progresses Member.clone_member Producer.wrap32 Producer.publish_kafka
    Producer.publish_nats RuleView.view_of RuleView.counted RuleView.see RuleView.see_all
    RuleView.process_all Shard.find_in_group Shard.new_shard Shard.address_in Shard.member_in
    Shard.member Shard.install_group Shard.group_for_write Shard.install_member
    Shard.member_for_write_in Shard.member_for_write Shard.write_member Shard.freeze_state
    Shard.unfreeze_state Shard.members_of Shard.visit_groups Shard.for_each_member Frozen.edit_at
    Frozen.edit_member Frozen.edit_members Snapshot.begin_snapshot Snapshot.end_snapshot
    Snapshot.frozen_groups Snapshot.frozen_view Snapshot.encode Snapshot.take_snapshot
    Snapshot.store_members Snapshot.store_group Snapshot.restore_groups Snapshot.parked_deadlines
    Snapshot.member_deadlines Snapshot.rebuild_negative_deadlines Snapshot.restore_snapshot
    Snapshot.restore Generator.read_generator_settings Generator.ticker_interval Generator.pad_left
    Generator.user_id Generator.generated_event Generator.generate ◌*ℤ◌ wrap64 Compile.run_and
    Compile.run_or Compile.run_not Compile.build_lhs_resolver Compile.build_rhs_resolver
    Compile.cmp_in Compile.numeric_or_string_cmp Compile.build_comparator Compile.run_condition
    Compile.compile_condition Compile.compile Compile.compile_all Compile.compile_not
    Context.cache_key Context.new_map_context Context.with_variables Context.map_eval_context
    Context.new_preloaded_context Context.preloaded_eval_context Evaluate.compare_strings
    Evaluate.resolve_rhs Evaluate.resolve_value Evaluate.compare_numbers Evaluate.eval_in
    Evaluate.compare_values Evaluate.apply_operator Evaluate.eval_condition Evaluate.evaluate
    Evaluate.eval_and Evaluate.eval_or Evaluate.eval_not Keys.collect_key Keys.collect_keys
    Keys.collect_children Keys.collect_aggregate_keys Keys.collect_list Keys.collect_strategies
    Keys.collect_unique_aggregate_keys Keys.max_window_loop Keys.max_window_from_keys Node.node_kind
    Operator.read_operator Operator.occurs Repository.marshal_rule_node
    Repository.unmarshal_rule_node Repository.unmarshal_rule_nodes Repository.get_row
    Repository.list_rows Repository.create_row Repository.rule_strategy_repo
    Strategy.new_rule_strategy_usecase Strategy.invalidate_cache Strategy.compile_strategies
    Strategy.compile_active Strategy.list_active Strategy.compile_and_cache
    Strategy.list_active_compiled Strategy.get_rule Strategy.list_rules Strategy.create
    Strategy.update_store Strategy.update_fields Strategy.update Strategy.set_status Coherence.call
    Coherence.call_all Validate.is_letter Validate.is_word Validate.all_words Validate.is_identifier
    Validate.validate_aggregation Validate.validate_field_path Validate.validate_parts
    Validate.validate_field Validate.validate_rule_node Validate.validate_children Value.to_float64
    Value.sprint Value.sprint_items Value.sprint_entries Window.duration Startup.env_str
    Startup.env_int Startup.read_settings Startup.filter_subject Startup.source_of
    Startup.register_patterns Startup.start_core Startup.start_process Text.text_beq
    Text.contains_byte Text.has_prefix Text.drop_bytes Text.trim_prefix Text.to_upper Text.to_lower
    Text.cut Text.split_n Text.digits_fuel Text.digits Number.scan_digits Number.parse_uint
    Number.atoi Time.add_time Time.negate Time.sub_time Time.unix_nano Time.unix_nano_of_sum
    Time.later_of
program = tt
