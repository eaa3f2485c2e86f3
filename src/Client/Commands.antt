-- ===== src/Client/Commands.antt =====
-- `MQClient::send_pcf_command` and the methods that send a command and parse the responses
-- (src/mqclient.cpp).
pub mod Replies
use ibmmq_metrics_exporter.Base.{
  ℕ, zero, suc, Bool, true, false, not, ◌&&◌, ◌||◌, List, [], ◌∷◌, Option, none, some, map,
  replicate, length, ◌==◌, if◌then◌else◌, is_nil, codes, is_same,
}
use ibmmq_metrics_exporter.Memory.{Result, ok, ◌>>=◌ as bind, Bytes, le32_at, at_least}
use ibmmq_metrics_exporter.Pcf.Fold.{is_empty}
use ibmmq_metrics_exporter.Inquiry.Builder.{
  build_inquire_q_cmd, build_inquire_channel_status_cmd, build_inquire_topic_status_cmd,
  build_inquire_sub_status_cmd, build_inquire_qmgr_status_cmd, build_inquire_cluster_qmgr_cmd,
  build_inquire_usage_cmd, build_inquire_q_status_online_cmd, build_reset_q_stats_cmd,
}
use ibmmq_metrics_exporter.Inquiry.Details.{
  QueueHandleDetails, ChannelStatusDetails, TopicStatusDetails, SubStatusDetails, QmgrStatusDetails,
  ClusterQmgrDetails, UsageBpDetails, UsagePsDetails, QueueOnlineStatus,
}
use ibmmq_metrics_exporter.Inquiry.ChannelStatus.{parse_channel_status_response}
use ibmmq_metrics_exporter.Inquiry.ClusterQmgr.{parse_cluster_qmgr_response}
use ibmmq_metrics_exporter.Inquiry.Handles.{parse_queue_status_response}
use ibmmq_metrics_exporter.Inquiry.QmgrStatus.{parse_qmgr_status_response}
use ibmmq_metrics_exporter.Inquiry.QueueOnline.{parse_queue_online_status_response}
use ibmmq_metrics_exporter.Inquiry.SubStatus.{parse_sub_status_response}
use ibmmq_metrics_exporter.Inquiry.TopicStatus.{parse_topic_status_response}
use ibmmq_metrics_exporter.Inquiry.UsageBp.{parse_usage_bp_response}
use ibmmq_metrics_exporter.Inquiry.UsagePs.{parse_usage_ps_response}
use ibmmq_metrics_exporter.Client.Mqi.{
  has_failed, mqoo_input_exclusive, mqoo_output, mqco_delete_purge, GetOptions, PutDesc, Mqi,
  copy_name, write_front, read_buffer,
}
use ibmmq_metrics_exporter.Client.State.{Method, pure, lift, call, gets, attempt, ◌>>=◌, ◌>>◌}
use ibmmq_metrics_exporter.Client.Connection.{
  close_object, open_queue, open_dynamic_queue, close_queue,
}
use ibmmq_metrics_exporter.Client.Queues.{all_queues}
use ibmmq_metrics_exporter.Client.Inquiries.{HandleInfo}
use ibmmq_metrics_exporter.Client.Buffers.{publication_size}
use ibmmq_metrics_exporter.Client.Topics.{model_queue}

-- MQGMO_WAIT and MQGMO_CONVERT.
abbrev pub reply_options : GetOptions
reply_options = record { options = 16385; wait_interval = 5000 }

-- MQMT_REQUEST.
abbrev pub command_desc : Bytes → PutDesc
command_desc reply_name = record {
  format = codes "MQADMIN ";
  reply_to_q = copy_name 48 reply_name;
  msg_type = 1;
}

-- MQCFC_LAST in the response that was just read.
abbrev pub is_last : ℕ → Bytes → Bool
is_last datalen buffer = at_least 24 datalen && le32_at buffer 20 == 1

abbrev pub command_queue : Bytes
command_queue = codes "SYSTEM.ADMIN.COMMAND.QUEUE"

abbrev pub handle_of : QueueHandleDetails → HandleInfo
handle_of d = record {
  application_name = [];
  application_tag = d.application_tag;
  process_id = d.process_id;
  user_identifier = d.user_id;
  channel_name = d.channel_name;
  connection_name = d.connection_name;
  handle_state = [];
  open_mode = [];
  queue_name = d.queue_name;
  input_handle_count = 0;
  output_handle_count = 0;
}

-- The first response is parsed.
unfoldable pub handles_of : List Bytes → Result (List HandleInfo)
handles_of [] = ok []
handles_of (response ∷ responses) =
    bind (parse_queue_status_response response (length response)) (λ ds. ok (map handle_of ds))

abbrev pub first_of : {A : Type 0} → List A → Option A
first_of [] = none
first_of (a ∷ as_) = some a

module _ {W : Type 0} (mqi : Mqi W) where
  -- At most `i` more responses, with the buffer as the last one has left it.
  unfoldable pub responses_loop : ℕ → ℕ → Bytes → Method W (List Bytes)
  responses_loop zero hobj buffer = pure []
  responses_loop (suc i) hobj buffer = do
    hconn ← gets (λ c. c.hconn)
    g ← call (mqi.mqget hconn hobj reply_options publication_size)
    let buffer' = write_front publication_size g.written buffer
    if has_failed g.cc then pure [] else do
      response ← lift (read_buffer publication_size buffer' g.datalen)
      elim (is_last g.datalen buffer') [
        | true ↦ pure (response ∷ [])
        | false ↦ do responses ← responses_loop i hobj buffer'; pure (response ∷ responses)
      ]

  -- The command is put, and its responses are taken from the reply queue.
  unfoldable pub put_command : Bytes → ℕ → ℕ → Bytes → Method W (List Bytes)
  put_command reply_name reply_hobj cmd_hobj cmd = do
    hconn ← gets (λ c. c.hconn)
    p ← call (mqi.mqput hconn cmd_hobj (command_desc reply_name) cmd)
    close_queue mqi cmd_hobj
    if has_failed p.cc
        then pure []
        else responses_loop 1000 reply_hobj (replicate publication_size 0)

  -- With the reply queue and the command queue, if that has opened. The reply queue is deleted.
  unfoldable pub finish_command : Bytes → ℕ × Bytes → Option ℕ → Method W (List Bytes)
  finish_command cmd reply none = close_object mqi reply.0 mqco_delete_purge >> pure []
  finish_command cmd reply (some cmd_hobj) = do
    responses ← put_command reply.1 reply.0 cmd_hobj cmd
    _ ← close_object mqi reply.0 mqco_delete_purge
    pure responses

  unfoldable pub command_with : Bytes → ℕ × Bytes → Method W (List Bytes)
  command_with cmd reply =
      if is_empty reply.1 || is_same reply.1 model_queue
      then close_object mqi reply.0 mqco_delete_purge >> pure []
      else do
        found ← attempt (open_queue mqi command_queue mqoo_output)
        finish_command cmd reply found

  -- A reply queue is made for the command.
  unfoldable pub send_pcf_command : Bytes → Method W (List Bytes)
  send_pcf_command cmd = do
    connected ← gets (λ c. c.connected)
    if not connected then pure [] else do
      made ← attempt (open_dynamic_queue mqi model_queue mqoo_input_exclusive (codes "EXPORTER.*"))
      elim made [ none ↦ pure [] | some reply ↦ command_with cmd reply ]

  -- The command, and the parse of its responses.
  abbrev pub ask : {A : Type 0} → Bytes → (List Bytes → Result A) → Method W A
  ask cmd parse = do responses ← send_pcf_command cmd; lift (parse responses)

  unfoldable pub get_queue_handle_details_by_pcf : Bytes → Method W (List HandleInfo)
  get_queue_handle_details_by_pcf name = ask (build_inquire_q_cmd name) handles_of

  unfoldable pub get_channel_status : Bytes → Method W (List ChannelStatusDetails)
  get_channel_status pattern_ =
      ask (build_inquire_channel_status_cmd pattern_) (parse_channel_status_response)

  unfoldable pub get_topic_status : Bytes → Method W (List TopicStatusDetails)
  get_topic_status pattern_ =
      ask (build_inquire_topic_status_cmd pattern_) parse_topic_status_response

  unfoldable pub get_sub_status : Bytes → Method W (List SubStatusDetails)
  get_sub_status pattern_ = ask (build_inquire_sub_status_cmd pattern_) parse_sub_status_response

  unfoldable pub get_qmgr_status : Method W (Option QmgrStatusDetails)
  get_qmgr_status = do
    results ← ask build_inquire_qmgr_status_cmd parse_qmgr_status_response
    pure (first_of results)

  unfoldable pub get_cluster_status : Method W (List ClusterQmgrDetails)
  get_cluster_status = ask build_inquire_cluster_qmgr_cmd parse_cluster_qmgr_response

  unfoldable pub get_usage_bp_status : Method W (List UsageBpDetails)
  get_usage_bp_status = ask (build_inquire_usage_cmd 1) parse_usage_bp_response

  unfoldable pub get_usage_ps_status : Method W (List UsagePsDetails)
  get_usage_ps_status = ask (build_inquire_usage_cmd 2) parse_usage_ps_response

  unfoldable pub get_queue_online_status : Bytes → Method W (List QueueOnlineStatus)
  get_queue_online_status name =
      ask (build_inquire_q_status_online_cmd name) parse_queue_online_status_response

  unfoldable pub reset_queue_stats : Bytes → Method W Bool
  reset_queue_stats name = do
    responses ← send_pcf_command (build_reset_q_stats_cmd name)
    pure (not (is_nil responses))

  -- `MQClient::discover_queues`, over the command as it is sent.
  unfoldable pub ask_queues : Bytes → Method W (List Bytes)
  ask_queues pattern_ = ask (build_inquire_q_cmd pattern_) (λ responses. all_queues responses [])
