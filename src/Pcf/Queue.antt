-- ===== src/Pcf/Queue.antt =====
-- `PCFParser::parse_queue_stats` (src/pcf_parser.cpp).
pub mod Invariant
use ibmmq_metrics_exporter.Base.{
  ℕ, Bool, true, false, not, ◌&&◌, ◌||◌, List, [], ◌∷◌, ◌++◌, ◌==◌, if◌then◌else◌, codes,
}
use ibmmq_metrics_exporter.Memory.{Bytes, is_pos}
use ibmmq_metrics_exporter.Pcf.Constants.{
  mqca_q_name, mqca_appl_name, mqcacf_appl_name, mqca_connection_name, mqcach_connection_name,
  mqcacf_user_identifier, mqca_channel_name, mqcacf_appl_tag, mqia_open_input_count,
  mqia_open_output_count, mqiacf_process_id, mqia_current_q_depth, mqia_high_q_depth,
  mqia_msg_enq_count, mqia_msg_deq_count,
}
use ibmmq_metrics_exporter.Pcf.Parser.{
  PcfValue, monostate, int32, int64, string, int_list, string_list, group, PcfParameterList,
}
use ibmmq_metrics_exporter.Pcf.Records.{
  ProcInfo, empty_proc_info, QueueStatistics, empty_queue_statistics,
}
use ibmmq_metrics_exporter.Pcf.Fold.{fold_params, is_empty}

-- The body of the loop over a group's parameters.
unfoldable pub proc_step : ℕ → PcfValue → ProcInfo → ProcInfo
proc_step id (string s) proc =
    if id == mqca_appl_name || id == mqcacf_appl_name
    then record proc { application_name = s }
    else if id == mqca_connection_name || id == mqcach_connection_name
    then record proc { connection_name = s }
    else if id == mqcacf_user_identifier
    then record proc { user_identifier = s }
    else if id == mqca_channel_name
    then record proc { channel_name = s }
    else if id == mqcacf_appl_tag
    then record proc { application_tag = s }
    else proc
proc_step id (int32 v) proc =
    if id == mqia_open_input_count
    then record proc { role = if is_pos v then codes "input" else proc.role }
    else if id == mqia_open_output_count
    then record proc { role = if is_pos v then codes "output" else proc.role }
    else if id == mqiacf_process_id
    then record proc { process_id = v }
    else proc
proc_step id _ proc = proc

unfoldable pub parse_proc : PcfParameterList → ProcInfo
unfolding fold_params proc_step
parse_proc nested = fold_params proc_step nested (record empty_proc_info { role = codes "unknown" })

-- The test that a process is worth keeping.
unfoldable pub is_identified : ProcInfo → Bool
unfolding is_empty
is_identified proc =
    not (is_empty proc.application_name)
    || not (is_empty proc.connection_name)
    || not (is_empty proc.user_identifier)

add_proc : ProcInfo → QueueStatistics → QueueStatistics
add_proc proc stats =
    if is_identified proc
    then record stats { associated_procs = stats.associated_procs ++ proc ∷ [] }
    else stats

unfoldable pub queue_step : ℕ → PcfValue → QueueStatistics → QueueStatistics
unfolding add_proc
queue_step id (group nested) stats = add_proc (parse_proc nested) stats
queue_step id (int32 v) stats =
    if id == mqia_current_q_depth
    then record stats { current_depth = v }
    else if id == mqia_high_q_depth
    then record stats { high_depth = v }
    else if id == mqia_open_input_count
    then record stats { input_count = v; has_readers = is_pos v }
    else if id == mqia_open_output_count
    then record stats { output_count = v; has_writers = is_pos v }
    else if id == mqia_msg_enq_count
    then record stats { enqueue_count = v }
    else if id == mqia_msg_deq_count
    then record stats { dequeue_count = v }
    else stats
queue_step id (string s) stats =
    if id == mqca_q_name then record stats { queue_name = s } else stats
queue_step id _ stats = stats

unfoldable pub parse_queue_stats : PcfParameterList → QueueStatistics
unfolding fold_params queue_step
parse_queue_stats params = fold_params queue_step params empty_queue_statistics
