-- ===== src/Pcf/Mqi.antt =====
-- `PCFParser::parse_mqi_stats` (src/pcf_parser.cpp).
pub mod Groups
use ibmmq_metrics_exporter.Base.{
  ℕ, ◌+◌, ◌%◌, ◌^◌, Bool, true, false, not, ◌||◌, List, [], ◌∷◌, ◌==◌, if◌then◌else◌,
}
use ibmmq_metrics_exporter.Memory.{Bytes, int32_of_int64}
use ibmmq_metrics_exporter.Pcf.Constants.{
  mqca_appl_name, mqca_channel_name, mqcacf_appl_name, mqcacf_appl_tag, mqcacf_user_identifier,
  mqcach_connection_name, mqiach_channel_status, mqiach_channel_type, mqiamo_backouts,
  mqiamo_browses, mqiamo_bytes_sent, mqiamo_closes, mqiamo_commits, mqiamo_conn_time,
  mqiamo_conn_time_max, mqiamo_current_conns, mqiamo_disc_close_timeout, mqiamo_disc_reset_timeout,
  mqiamo_elapsed_time, mqiamo_elapsed_time_max, mqiamo_fails, mqiamo_full_batches, mqiamo_gets,
  mqiamo_heaps, mqiamo_incomplete_batches, mqiamo_incomplete_msg, mqiamo_inqs,
  mqiamo_logical_connections, mqiamo_long_msgs, mqiamo_msg_bytes_rcvd, mqiamo_msgs_rcvd,
  mqiamo_msgs_sent, mqiamo_non_persistent_msgs, mqiamo_opens, mqiamo_persistent_msgs,
  mqiamo_physical_connections, mqiamo_puts, mqiamo_queue_time, mqiamo_queue_time_max, mqiamo_sets,
  mqiamo_short_msgs, mqiamo_stamp_enabled, mqiamo_syncpoint_heuristic, mqiamo_wait_interval,
}
use ibmmq_metrics_exporter.Pcf.Parser.{
  PcfValue, monostate, int32, int64, string, int_list, string_list, group, PcfParameterList, nil,
  cons,
}
use ibmmq_metrics_exporter.Pcf.Records.{MqiStatistics, empty_mqi_statistics}
use ibmmq_metrics_exporter.Pcf.Fold.{is_empty}

-- Sums in `int32_t` and in `int64_t`. Signed overflow is undefined in C++; the sums wrap here.
abbrev pub add_int32 : ℕ → ℕ → ℕ
add_int32 a b = (a + b) % 2 ^ 32

abbrev pub add_int64 : ℕ → ℕ → ℕ
add_int64 a b = (a + b) % 2 ^ 64

-- The loop over `*vlist`, on the sums so far.
unfoldable pub sum_int32 : ℕ → List ℕ → ℕ
sum_int32 acc [] = acc
sum_int32 acc (v ∷ vs) = sum_int32 (add_int32 acc (int32_of_int64 v)) vs

unfoldable pub sum_int64 : ℕ → List ℕ → ℕ
sum_int64 acc [] = acc
sum_int64 acc (v ∷ vs) = sum_int64 (add_int64 acc v) vs

-- The `switch` for a list of integers, on its two sums.
unfoldable pub set_sums : ℕ → ℕ → ℕ → MqiStatistics → MqiStatistics
set_sums id sum32 sum64 s =
    if id == mqiamo_opens
    then record s { opens = sum32 }
    else if id == mqiamo_closes
    then record s { closes = sum32 }
    else if id == mqiamo_puts
    then record s { puts = sum32 }
    else if id == mqiamo_gets
    then record s { gets = sum32 }
    else if id == mqiamo_commits
    then record s { commits = sum32 }
    else if id == mqiamo_backouts
    then record s { backouts = sum32 }
    else if id == mqiamo_browses
    then record s { browses = sum32 }
    else if id == mqiamo_inqs
    then record s { inqs = sum32 }
    else if id == mqiamo_sets
    then record s { sets = sum32 }
    else if id == mqiamo_msgs_rcvd
    then record s { msgs_received = sum32 }
    else if id == mqiamo_msgs_sent
    then record s { msgs_sent = sum32 }
    else if id == mqiamo_msg_bytes_rcvd
    then record s { bytes_received = sum64 }
    else if id == mqiamo_bytes_sent
    then record s { bytes_sent = sum64 }
    else if id == mqiamo_incomplete_batches
    then record s { incomplete_batch = sum32 }
    else if id == mqiamo_syncpoint_heuristic
    then record s { syncpoint_heuristic = sum32 }
    else if id == mqiamo_wait_interval
    then record s { wait_interval = sum32 }
    else if id == mqiamo_heaps
    then record s { heaps = sum32 }
    else if id == mqiamo_logical_connections
    then record s { logical_connections = sum32 }
    else if id == mqiamo_physical_connections
    then record s { physical_connections = sum32 }
    else if id == mqiamo_current_conns
    then record s { current_conns = sum32 }
    else if id == mqiamo_persistent_msgs
    then record s { persistent_msgs = sum32 }
    else if id == mqiamo_non_persistent_msgs
    then record s { non_persistent_msgs = sum32 }
    else if id == mqiamo_long_msgs
    then record s { long_msgs = sum32 }
    else if id == mqiamo_short_msgs
    then record s { short_msgs = sum32 }
    else if id == mqiamo_queue_time
    then record s { queue_time = sum64 }
    else if id == mqiamo_queue_time_max
    then record s { queue_time_max = sum64 }
    else if id == mqiamo_elapsed_time
    then record s { elapsed_time = sum64 }
    else if id == mqiamo_elapsed_time_max
    then record s { elapsed_time_max = sum64 }
    else if id == mqiamo_conn_time
    then record s { conn_time = sum64 }
    else if id == mqiamo_conn_time_max
    then record s { conn_time_max = sum64 }
    else s

-- The `switch` for an `int32_t`.
unfoldable pub set_mqi_int32 : ℕ → ℕ → MqiStatistics → MqiStatistics
set_mqi_int32 id v s =
    if id == mqiamo_opens
    then record s { opens = v }
    else if id == mqiamo_closes
    then record s { closes = v }
    else if id == mqiamo_puts
    then record s { puts = v }
    else if id == mqiamo_gets
    then record s { gets = v }
    else if id == mqiamo_commits
    then record s { commits = v }
    else if id == mqiamo_backouts
    then record s { backouts = v }
    else if id == mqiamo_browses
    then record s { browses = v }
    else if id == mqiamo_inqs
    then record s { inqs = v }
    else if id == mqiamo_sets
    then record s { sets = v }
    else if id == mqiamo_disc_close_timeout
    then record s { disc_close_timeout = v }
    else if id == mqiamo_disc_reset_timeout
    then record s { disc_reset_timeout = v }
    else if id == mqiamo_fails
    then record s { fails = v }
    else if id == mqiamo_incomplete_batches
    then record s { incomplete_batch = v }
    else if id == mqiamo_incomplete_msg
    then record s { incomplete_msg = v }
    else if id == mqiamo_wait_interval
    then record s { wait_interval = v }
    else if id == mqiamo_syncpoint_heuristic
    then record s { syncpoint_heuristic = v }
    else if id == mqiamo_heaps
    then record s { heaps = v }
    else if id == mqiamo_logical_connections
    then record s { logical_connections = v }
    else if id == mqiamo_physical_connections
    then record s { physical_connections = v }
    else if id == mqiamo_current_conns
    then record s { current_conns = v }
    else if id == mqiamo_persistent_msgs
    then record s { persistent_msgs = v }
    else if id == mqiamo_non_persistent_msgs
    then record s { non_persistent_msgs = v }
    else if id == mqiamo_long_msgs
    then record s { long_msgs = v }
    else if id == mqiamo_short_msgs
    then record s { short_msgs = v }
    else if id == mqiamo_stamp_enabled
    then record s { stamp_enabled = v }
    else if id == mqiamo_msgs_rcvd
    then record s { msgs_received = v }
    else if id == mqiamo_msgs_sent
    then record s { msgs_sent = v }
    else if id == mqiach_channel_status
    then record s { channel_status = v }
    else if id == mqiach_channel_type
    then record s { channel_type = v }
    else if id == mqiamo_full_batches
    then record s { full_batches = v }
    else s

-- The `switch` for a string.
unfoldable pub set_mqi_string : ℕ → Bytes → MqiStatistics → MqiStatistics
set_mqi_string id v s =
    if id == mqca_appl_name || id == mqcacf_appl_name
    then record s { application_name = v }
    else if id == mqcacf_appl_tag
    then record s { application_tag = v }
    else if id == mqcacf_user_identifier
    then record s { user_identifier = v }
    else if id == mqcach_connection_name
    then record s { connection_name = v }
    else if id == mqca_channel_name
    then record s { channel_name = v }
    else s

-- What a nested group adds to the statistics around it.
unfoldable pub merge_mqi : MqiStatistics → MqiStatistics → MqiStatistics
merge_mqi ns s = record s {
  opens = add_int32 s.opens ns.opens;
  closes = add_int32 s.closes ns.closes;
  puts = add_int32 s.puts ns.puts;
  gets = add_int32 s.gets ns.gets;
  commits = add_int32 s.commits ns.commits;
  backouts = add_int32 s.backouts ns.backouts;
  application_name =
      if not (is_empty ns.application_name) then ns.application_name else s.application_name;
}

-- The loop over the parameters, on the statistics so far; a group is parsed by the same function.
unfoldable pub mqi_loop : PcfParameterList → MqiStatistics → MqiStatistics
mqi_loop nil s = s
mqi_loop (cons id type (group nested) params) s =
    mqi_loop params (merge_mqi (mqi_loop nested empty_mqi_statistics) s)
mqi_loop (cons id type (int_list vs) params) s =
    mqi_loop params (set_sums id (sum_int32 0 vs) (sum_int64 0 vs) s)
mqi_loop (cons id type (int32 v) params) s = mqi_loop params (set_mqi_int32 id v s)
mqi_loop (cons id type (string v) params) s = mqi_loop params (set_mqi_string id v s)
mqi_loop (cons id type monostate params) s = mqi_loop params s
mqi_loop (cons id type (int64 v) params) s = mqi_loop params s
mqi_loop (cons id type (string_list vs) params) s = mqi_loop params s

unfoldable pub parse_mqi_stats : PcfParameterList → MqiStatistics
unfolding mqi_loop merge_mqi set_sums set_mqi_int32 set_mqi_string sum_int32 sum_int64 is_empty
parse_mqi_stats params = mqi_loop params empty_mqi_statistics
