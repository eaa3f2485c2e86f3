-- ===== src/Pcf/Records.antt =====
-- The records that the statistics and accounting messages are parsed into
-- (include/ibmmq_exporter/pcf_parser.h), each with its default value. An integer is its bit pattern.
use ibmmq_metrics_exporter.Base.{ℕ, Bool, false, List, [], Option, none}
use ibmmq_metrics_exporter.Memory.{Bytes}

pub record ProcInfo : Type 0 where
  pub application_name : Bytes
  pub application_tag : Bytes
  pub process_id : ℕ
  pub connection_name : Bytes
  pub user_identifier : Bytes
  pub channel_name : Bytes
  pub role : Bytes

abbrev pub empty_proc_info : ProcInfo
empty_proc_info = record {
  application_name = [];
  application_tag = [];
  process_id = 0;
  connection_name = [];
  user_identifier = [];
  channel_name = [];
  role = [];
}

pub record QueueStatistics : Type 0 where
  pub queue_name : Bytes
  pub current_depth : ℕ
  pub high_depth : ℕ
  pub input_count : ℕ
  pub output_count : ℕ
  pub enqueue_count : ℕ
  pub dequeue_count : ℕ
  pub has_readers : Bool
  pub has_writers : Bool
  pub associated_procs : List ProcInfo

abbrev pub empty_queue_statistics : QueueStatistics
empty_queue_statistics = record {
  queue_name = [];
  current_depth = 0;
  high_depth = 0;
  input_count = 0;
  output_count = 0;
  enqueue_count = 0;
  dequeue_count = 0;
  has_readers = false;
  has_writers = false;
  associated_procs = [];
}

pub record ChannelStatistics : Type 0 where
  pub channel_name : Bytes
  pub connection_name : Bytes
  pub messages : ℕ
  pub bytes : ℕ
  pub batches : ℕ

abbrev pub empty_channel_statistics : ChannelStatistics
empty_channel_statistics = record {
  channel_name = [];
  connection_name = [];
  messages = 0;
  bytes = 0;
  batches = 0;
}

pub record MqiStatistics : Type 0 where
  pub application_name : Bytes
  pub application_tag : Bytes
  pub connection_name : Bytes
  pub user_identifier : Bytes
  pub channel_name : Bytes
  pub opens : ℕ
  pub closes : ℕ
  pub puts : ℕ
  pub gets : ℕ
  pub commits : ℕ
  pub backouts : ℕ
  pub browses : ℕ
  pub inqs : ℕ
  pub sets : ℕ
  pub disc_close_timeout : ℕ
  pub disc_reset_timeout : ℕ
  pub fails : ℕ
  pub incomplete_batch : ℕ
  pub incomplete_msg : ℕ
  pub wait_interval : ℕ
  pub syncpoint_heuristic : ℕ
  pub heaps : ℕ
  pub logical_connections : ℕ
  pub physical_connections : ℕ
  pub current_conns : ℕ
  pub persistent_msgs : ℕ
  pub non_persistent_msgs : ℕ
  pub long_msgs : ℕ
  pub short_msgs : ℕ
  pub queue_time : ℕ
  pub queue_time_max : ℕ
  pub elapsed_time : ℕ
  pub elapsed_time_max : ℕ
  pub conn_time : ℕ
  pub conn_time_max : ℕ
  pub stamp_enabled : ℕ
  pub msgs_received : ℕ
  pub msgs_sent : ℕ
  pub bytes_received : ℕ
  pub bytes_sent : ℕ
  pub channel_status : ℕ
  pub channel_type : ℕ
  pub channel_errors : ℕ
  pub channel_disc_count : ℕ
  pub channel_exit_name : ℕ
  pub backout_count : ℕ
  pub commits_count : ℕ
  pub rollback_count : ℕ
  pub full_batches : ℕ
  pub partial_batches : ℕ

abbrev pub empty_mqi_statistics : MqiStatistics
empty_mqi_statistics = record {
  application_name = [];
  application_tag = [];
  connection_name = [];
  user_identifier = [];
  channel_name = [];
  opens = 0;
  closes = 0;
  puts = 0;
  gets = 0;
  commits = 0;
  backouts = 0;
  browses = 0;
  inqs = 0;
  sets = 0;
  disc_close_timeout = 0;
  disc_reset_timeout = 0;
  fails = 0;
  incomplete_batch = 0;
  incomplete_msg = 0;
  wait_interval = 0;
  syncpoint_heuristic = 0;
  heaps = 0;
  logical_connections = 0;
  physical_connections = 0;
  current_conns = 0;
  persistent_msgs = 0;
  non_persistent_msgs = 0;
  long_msgs = 0;
  short_msgs = 0;
  queue_time = 0;
  queue_time_max = 0;
  elapsed_time = 0;
  elapsed_time_max = 0;
  conn_time = 0;
  conn_time_max = 0;
  stamp_enabled = 0;
  msgs_received = 0;
  msgs_sent = 0;
  bytes_received = 0;
  bytes_sent = 0;
  channel_status = 0;
  channel_type = 0;
  channel_errors = 0;
  channel_disc_count = 0;
  channel_exit_name = 0;
  backout_count = 0;
  commits_count = 0;
  rollback_count = 0;
  full_batches = 0;
  partial_batches = 0;
}

pub record ConnectionInfo : Type 0 where
  pub channel_name : Bytes
  pub connection_name : Bytes
  pub application_name : Bytes
  pub application_tag : Bytes
  pub user_identifier : Bytes

abbrev pub empty_connection_info : ConnectionInfo
empty_connection_info = record {
  channel_name = [];
  connection_name = [];
  application_name = [];
  application_tag = [];
  user_identifier = [];
}

pub record OperationCounts : Type 0 where
  pub gets : ℕ
  pub puts : ℕ
  pub browses : ℕ
  pub opens : ℕ
  pub closes : ℕ
  pub commits : ℕ
  pub backouts : ℕ

abbrev pub empty_operation_counts : OperationCounts
empty_operation_counts = record {
  gets = 0;
  puts = 0;
  browses = 0;
  opens = 0;
  closes = 0;
  commits = 0;
  backouts = 0;
}

pub record QueueAppOperation : Type 0 where
  pub queue_name : Bytes
  pub application_name : Bytes
  pub connection_name : Bytes
  pub user_identifier : Bytes
  pub puts : ℕ
  pub gets : ℕ
  pub msgs_received : ℕ
  pub msgs_sent : ℕ

abbrev pub empty_queue_app_operation : QueueAppOperation
empty_queue_app_operation = record {
  queue_name = [];
  application_name = [];
  connection_name = [];
  user_identifier = [];
  puts = 0;
  gets = 0;
  msgs_received = 0;
  msgs_sent = 0;
}

pub record StatisticsData : Type 0 where
  pub type : Bytes
  pub queue_manager : Bytes
  pub queue_stats : Option QueueStatistics
  pub channel_stats : Option ChannelStatistics
  pub mqi_stats : Option MqiStatistics

abbrev pub empty_statistics_data : StatisticsData
empty_statistics_data = record {
  type = [];
  queue_manager = [];
  queue_stats = none;
  channel_stats = none;
  mqi_stats = none;
}

pub record AccountingData : Type 0 where
  pub type : Bytes
  pub queue_manager : Bytes
  pub connection_info : Option ConnectionInfo
  pub operations : Option OperationCounts
  pub queue_operations : List QueueAppOperation

abbrev pub empty_accounting_data : AccountingData
empty_accounting_data = record {
  type = [];
  queue_manager = [];
  connection_info = none;
  operations = none;
  queue_operations = [];
}
