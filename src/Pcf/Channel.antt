-- ===== src/Pcf/Channel.antt =====
-- `PCFParser::parse_channel_stats`, `parse_connection_info` and `parse_operation_counts`
-- (src/pcf_parser.cpp).
use ibmmq_metrics_exporter.Base.{ℕ, ◌||◌, ◌==◌, if◌then◌else◌}
use ibmmq_metrics_exporter.Memory.{size_of_int32}
use ibmmq_metrics_exporter.Pcf.Constants.{
  mqca_appl_name, mqcacf_appl_name, mqca_connection_name, mqcach_connection_name,
  mqcacf_user_identifier, mqca_channel_name, mqcacf_appl_tag, mqiach_msgs, mqiach_bytes,
  mqiach_batches, mqiamo_gets, mqiamo_puts, mqiamo_opens, mqiamo_closes, mqiamo_commits,
  mqiamo_backouts,
}
use ibmmq_metrics_exporter.Pcf.Parser.{PcfValue, int32, string, PcfParameterList}
use ibmmq_metrics_exporter.Pcf.Records.{
  ChannelStatistics, empty_channel_statistics, ConnectionInfo, empty_connection_info,
  OperationCounts, empty_operation_counts,
}
use ibmmq_metrics_exporter.Pcf.Fold.{fold_params}

-- `bytes` is an `int64_t`, so the sign of the `int32_t` is extended.
unfoldable pub channel_step : ℕ → PcfValue → ChannelStatistics → ChannelStatistics
channel_step id (int32 v) stats =
    if id == mqiach_msgs
    then record stats { messages = v }
    else if id == mqiach_bytes
    then record stats { bytes = size_of_int32 v }
    else if id == mqiach_batches
    then record stats { batches = v }
    else stats
channel_step id (string s) stats =
    if id == mqca_channel_name
    then record stats { channel_name = s }
    else if id == mqca_connection_name
    then record stats { connection_name = s }
    else stats
channel_step id _ stats = stats

unfoldable pub parse_channel_stats : PcfParameterList → ChannelStatistics
unfolding fold_params channel_step
parse_channel_stats params = fold_params channel_step params empty_channel_statistics

unfoldable pub connection_step : ℕ → PcfValue → ConnectionInfo → ConnectionInfo
connection_step id (string s) info =
    if id == mqca_channel_name
    then record info { channel_name = s }
    else if id == mqca_connection_name || id == mqcach_connection_name
    then record info { connection_name = s }
    else if id == mqca_appl_name || id == mqcacf_appl_name
    then record info { application_name = s }
    else if id == mqcacf_appl_tag
    then record info { application_tag = s }
    else if id == mqcacf_user_identifier
    then record info { user_identifier = s }
    else info
connection_step id _ info = info

unfoldable pub parse_connection_info : PcfParameterList → ConnectionInfo
unfolding fold_params connection_step
parse_connection_info params = fold_params connection_step params empty_connection_info

unfoldable pub operation_step : ℕ → PcfValue → OperationCounts → OperationCounts
operation_step id (int32 v) ops =
    if id == mqiamo_gets
    then record ops { gets = v }
    else if id == mqiamo_puts
    then record ops { puts = v }
    else if id == mqiamo_opens
    then record ops { opens = v }
    else if id == mqiamo_closes
    then record ops { closes = v }
    else if id == mqiamo_commits
    then record ops { commits = v }
    else if id == mqiamo_backouts
    then record ops { backouts = v }
    else ops
operation_step id _ ops = ops

unfoldable pub parse_operation_counts : PcfParameterList → OperationCounts
unfolding fold_params operation_step
parse_operation_counts params = fold_params operation_step params empty_operation_counts
