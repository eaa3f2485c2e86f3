-- ===== src/Pcf/Message.antt =====
-- `PCFParser::parse_accounting`, `parse_statistics` and `parse_message` (src/pcf_parser.cpp).
pub mod Operations
pub mod Asked
pub mod Totality
use ibmmq_metrics_exporter.Base.{
  ℕ, ◌-◌, Bool, true, false, not, ◌&&◌, ◌||◌, List, [], ◌∷◌, ◌++◌, Option, none, some, length, ltb,
  ◌==◌, if◌then◌else◌, codes,
}
use ibmmq_metrics_exporter.Memory.{Result, ok, err, ◌>>=◌, Bytes}
use ibmmq_metrics_exporter.Pcf.Constants.{
  mqca_q_mgr_name, mqca_q_name, mqca_appl_name, mqcacf_appl_name, mqca_connection_name,
  mqcach_connection_name, mqcacf_user_identifier, mqiamo_puts, mqiamo_gets, mqiamo_msgs_rcvd,
  mqiamo_msgs_sent, cmd_statistics_q, cmd_statistics_channel, cmd_statistics_mqi, cmd_accounting_q,
  cmd_accounting_mqi,
}
use ibmmq_metrics_exporter.Pcf.Parser.{
  PcfValue, int32, string, group, PcfParameterList, PcfHeader, parse_header, parse_parameters,
}
use ibmmq_metrics_exporter.Pcf.Records.{
  QueueAppOperation, empty_queue_app_operation, StatisticsData, empty_statistics_data,
  AccountingData, empty_accounting_data,
}
use ibmmq_metrics_exporter.Pcf.Fold.{fold_params, is_empty}
use ibmmq_metrics_exporter.Pcf.Queue.{parse_queue_stats}
use ibmmq_metrics_exporter.Pcf.Channel.{
  parse_channel_stats, parse_connection_info, parse_operation_counts,
}
use ibmmq_metrics_exporter.Pcf.Mqi.{parse_mqi_stats}

-- The loop that looks for the queue manager's name; the last one wins.
unfoldable pub qmgr_name_step : ℕ → PcfValue → Bytes → Bytes
qmgr_name_step id (string s) name = if id == mqca_q_mgr_name then s else name
qmgr_name_step id _ name = name

unfoldable pub find_qmgr_name : PcfParameterList → Bytes
unfolding fold_params qmgr_name_step
find_qmgr_name params = fold_params qmgr_name_step params []

-- The body of the loop over a group of `parse_accounting`.
unfoldable pub app_operation_step : ℕ → PcfValue → QueueAppOperation → QueueAppOperation
app_operation_step id (string s) qa =
    if id == mqca_q_name
    then record qa { queue_name = s }
    else if id == mqca_appl_name || id == mqcacf_appl_name
    then record qa { application_name = s }
    else if id == mqca_connection_name || id == mqcach_connection_name
    then record qa { connection_name = s }
    else if id == mqcacf_user_identifier
    then record qa { user_identifier = s }
    else qa
app_operation_step id (int32 v) qa =
    if id == mqiamo_puts
    then record qa { puts = v }
    else if id == mqiamo_gets
    then record qa { gets = v }
    else if id == mqiamo_msgs_rcvd
    then record qa { msgs_received = v }
    else if id == mqiamo_msgs_sent
    then record qa { msgs_sent = v }
    else qa
app_operation_step id _ qa = qa

unfoldable pub parse_app_operation : PcfParameterList → QueueAppOperation
unfolding fold_params app_operation_step
parse_app_operation nested = fold_params app_operation_step nested empty_queue_app_operation

-- A group counts if it names a queue and one of its counters is not 0.
unfoldable pub is_active : QueueAppOperation → Bool
unfolding is_empty
is_active qa =
    not (is_empty qa.queue_name)
    && (not (qa.puts == 0)
        || not (qa.gets == 0)
        || not (qa.msgs_received == 0)
        || not (qa.msgs_sent == 0))

unfoldable pub queue_operations_step :
    ℕ → PcfValue → List QueueAppOperation → List QueueAppOperation
queue_operations_step id (group nested) operations =
    if is_active (parse_app_operation nested)
    then operations ++ parse_app_operation nested ∷ []
    else operations
queue_operations_step id _ operations = operations

unfoldable pub parse_accounting : PcfParameterList → AccountingData
unfolding fold_params queue_operations_step find_qmgr_name
parse_accounting params = record empty_accounting_data {
  type = codes "accounting";
  queue_manager = find_qmgr_name params;
  connection_info = some (parse_connection_info params);
  operations = some (parse_operation_counts params);
  queue_operations = fold_params queue_operations_step params [];
}

unfoldable pub parse_statistics : PcfHeader → PcfParameterList → StatisticsData
unfolding find_qmgr_name
parse_statistics hdr params =
    let stats = record empty_statistics_data {
      type = codes "statistics";
      queue_manager = find_qmgr_name params;
    } in
    if hdr.command == cmd_statistics_q
    then record stats { queue_stats = some (parse_queue_stats params) }
    else if hdr.command == cmd_statistics_channel
    then record stats { channel_stats = some (parse_channel_stats params) }
    else if hdr.command == cmd_statistics_mqi
    then record stats { mqi_stats = some (parse_mqi_stats params) }
    else stats

-- `std::variant<StatisticsData, AccountingData>`.
pub data ParsedMessage : Type 0 where
  statistics_data : StatisticsData → ParsedMessage
  accounting_data : AccountingData → ParsedMessage

-- The `switch` on the command.
unfoldable pub dispatch_command : PcfHeader → PcfParameterList → Bytes → ParsedMessage
unfolding parse_statistics parse_accounting
dispatch_command hdr params msg_type =
    if hdr.command == cmd_statistics_q
      || hdr.command == cmd_statistics_channel
      || hdr.command == cmd_statistics_mqi
    then statistics_data (parse_statistics hdr params)
    else if hdr.command == cmd_accounting_q || hdr.command == cmd_accounting_mqi
    then accounting_data (parse_accounting params)
    else statistics_data (record empty_statistics_data { type = msg_type })

unfoldable pub parse_message : Bytes → Bytes → Result (Option ParsedMessage)
unfolding dispatch_command
parse_message d msg_type = if ltb (length d) 36 then ok none else do
  hdr ← parse_header d 0 (length d)
  params ← parse_parameters d 36 (length d - 36)
  ok (some (dispatch_command hdr params msg_type))
