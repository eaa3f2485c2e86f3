-- ===== src/Inquiry/Details.antt =====
-- The records that the responses are parsed into (include/ibmmq_exporter/pcf_inquiry.h), each with
-- its default value. An integer is its bit pattern.
use ibmmq_metrics_exporter.Base.{ℕ, []}
use ibmmq_metrics_exporter.Memory.{Bytes}

pub record QueueHandleDetails : Type 0 where
  pub queue_name : Bytes
  pub application_tag : Bytes
  pub channel_name : Bytes
  pub connection_name : Bytes
  pub user_id : Bytes
  pub process_id : ℕ
  pub input_mode : Bytes
  pub output_mode : Bytes

abbrev pub empty_queue_handle_details : QueueHandleDetails
empty_queue_handle_details = record {
  queue_name = [];
  application_tag = [];
  channel_name = [];
  connection_name = [];
  user_id = [];
  process_id = 0;
  input_mode = [];
  output_mode = [];
}

pub record ChannelStatusDetails : Type 0 where
  pub channel_name : Bytes
  pub connection_name : Bytes
  pub remote_qmgr : Bytes
  pub job_name : Bytes
  pub ssl_cipher : Bytes
  pub channel_type : ℕ
  pub status : ℕ
  pub msgs : ℕ
  pub bytes_sent : ℕ
  pub bytes_received : ℕ
  pub batches : ℕ
  pub substate : ℕ
  pub instance_type : ℕ
  pub buffers_sent : ℕ
  pub buffers_received : ℕ
  pub cur_sharing_convs : ℕ
  pub max_instances : ℕ
  pub max_insts_per_client : ℕ
  pub nettime_short : ℕ
  pub nettime_long : ℕ
  pub xmitq_time_short : ℕ
  pub xmitq_time_long : ℕ
  pub batch_size_short : ℕ
  pub batch_size_long : ℕ
  pub start_date : Bytes
  pub start_time : Bytes
  pub last_msg_date : Bytes
  pub last_msg_time : Bytes

abbrev pub empty_channel_status_details : ChannelStatusDetails
empty_channel_status_details = record {
  channel_name = [];
  connection_name = [];
  remote_qmgr = [];
  job_name = [];
  ssl_cipher = [];
  channel_type = 0;
  status = 0;
  msgs = 0;
  bytes_sent = 0;
  bytes_received = 0;
  batches = 0;
  substate = 0;
  instance_type = 0;
  buffers_sent = 0;
  buffers_received = 0;
  cur_sharing_convs = 0;
  max_instances = 0;
  max_insts_per_client = 0;
  nettime_short = 0;
  nettime_long = 0;
  xmitq_time_short = 0;
  xmitq_time_long = 0;
  batch_size_short = 0;
  batch_size_long = 0;
  start_date = [];
  start_time = [];
  last_msg_date = [];
  last_msg_time = [];
}

pub record TopicStatusDetails : Type 0 where
  pub topic_string : Bytes
  pub topic_name : Bytes
  pub topic_type : ℕ
  pub pub_count : ℕ
  pub sub_count : ℕ

abbrev pub empty_topic_status_details : TopicStatusDetails
empty_topic_status_details = record {
  topic_string = [];
  topic_name = [];
  topic_type = 0;
  pub_count = 0;
  sub_count = 0;
}

pub record SubStatusDetails : Type 0 where
  pub sub_name : Bytes
  pub sub_id : Bytes
  pub topic_string : Bytes
  pub destination : Bytes
  pub sub_type : ℕ
  pub durable : ℕ
  pub message_count : ℕ
  pub last_msg_date : Bytes
  pub last_msg_time : Bytes

abbrev pub empty_sub_status_details : SubStatusDetails
empty_sub_status_details = record {
  sub_name = [];
  sub_id = [];
  topic_string = [];
  destination = [];
  sub_type = 0;
  durable = 0;
  message_count = 0;
  last_msg_date = [];
  last_msg_time = [];
}

pub record QmgrStatusDetails : Type 0 where
  pub qmgr_name : Bytes
  pub description : Bytes
  pub status : ℕ
  pub chinit_status : ℕ
  pub connection_count : ℕ
  pub cmd_server_status : ℕ
  pub start_date : Bytes
  pub start_time : Bytes

abbrev pub empty_qmgr_status_details : QmgrStatusDetails
empty_qmgr_status_details = record {
  qmgr_name = [];
  description = [];
  status = 0;
  chinit_status = 0;
  connection_count = 0;
  cmd_server_status = 0;
  start_date = [];
  start_time = [];
}

pub record ClusterQmgrDetails : Type 0 where
  pub cluster_name : Bytes
  pub qmgr_name : Bytes
  pub qm_type : ℕ
  pub status : ℕ
  pub suspend : ℕ

abbrev pub empty_cluster_qmgr_details : ClusterQmgrDetails
empty_cluster_qmgr_details = record {
  cluster_name = [];
  qmgr_name = [];
  qm_type = 0;
  status = 0;
  suspend = 0;
}

pub record UsageBpDetails : Type 0 where
  pub buffer_pool : ℕ
  pub free_buffers : ℕ
  pub total_buffers : ℕ
  pub location : ℕ
  pub page_class : ℕ

abbrev pub empty_usage_bp_details : UsageBpDetails
empty_usage_bp_details = record {
  buffer_pool = 0;
  free_buffers = 0;
  total_buffers = 0;
  location = 0;
  page_class = 0;
}

pub record UsagePsDetails : Type 0 where
  pub pageset_id : ℕ
  pub buffer_pool : ℕ
  pub total_pages : ℕ
  pub unused_pages : ℕ
  pub persist_pages : ℕ
  pub nonpersist_pages : ℕ
  pub restart_pages : ℕ
  pub expand_count : ℕ

abbrev pub empty_usage_ps_details : UsagePsDetails
empty_usage_ps_details = record {
  pageset_id = 0;
  buffer_pool = 0;
  total_pages = 0;
  unused_pages = 0;
  persist_pages = 0;
  nonpersist_pages = 0;
  restart_pages = 0;
  expand_count = 0;
}

pub record QueueOnlineStatus : Type 0 where
  pub queue_name : Bytes
  pub oldest_msg_age : ℕ
  pub uncommitted_msgs : ℕ
  pub qtime_short : ℕ
  pub qtime_long : ℕ
  pub cur_q_file_size : ℕ
  pub cur_max_file_size : ℕ
  pub last_put_date : Bytes
  pub last_put_time : Bytes
  pub last_get_date : Bytes
  pub last_get_time : Bytes

abbrev pub empty_queue_online_status : QueueOnlineStatus
empty_queue_online_status = record {
  queue_name = [];
  oldest_msg_age = 0;
  uncommitted_msgs = 0;
  qtime_short = 0;
  qtime_long = 0;
  cur_q_file_size = 0;
  cur_max_file_size = 0;
  last_put_date = [];
  last_put_time = [];
  last_get_date = [];
  last_get_time = [];
}
