-- ===== src/Inquiry/ChannelStatus.antt =====
-- `PCFInquiry::parse_channel_status_response` (src/pcf_inquiry.cpp).
use ibmmq_metrics_exporter.Base.{ℕ, not, List, [], ◌∷◌, ◌==◌, if◌then◌else◌}
use ibmmq_metrics_exporter.Memory.{Result, ok, ◌>>=◌, Bytes}
use ibmmq_metrics_exporter.Pcf.Fold.{is_empty}
use ibmmq_metrics_exporter.Inquiry.Details.{ChannelStatusDetails, empty_channel_status_details}
use ibmmq_metrics_exporter.Inquiry.Reader.{
  Visitor, read_pcf_int32, read_pcf_int64, read_pcf_int_list, read_pcf_string, parse_responses,
}

-- The `switch` for a string.
unfoldable pub channel_status_set_string : ℕ → Bytes → ChannelStatusDetails → ChannelStatusDetails
channel_status_set_string pid val s =
    if pid == 3501
    then record s { channel_name = val }
    else if pid == 3506
    then record s { connection_name = val }
    else if pid == 3507
    then record s { remote_qmgr = val }
    else if pid == 3524
    then record s { last_msg_time = val }
    else if pid == 3525
    then record s { last_msg_date = val }
    else if pid == 3528
    then record s { start_time = val }
    else if pid == 3529
    then record s { start_date = val }
    else if pid == 3530
    then record s { job_name = val }
    else if pid == 3544
    then record s { ssl_cipher = val }
    else s

-- The `switch` for an `int32_t`.
unfoldable pub channel_status_set_int32 : ℕ → ℕ → ChannelStatusDetails → ChannelStatusDetails
channel_status_set_int32 pid val s =
    if pid == 1527
    then record s { status = val }
    else if pid == 1511
    then record s { channel_type = val }
    else if pid == 1534
    then record s { msgs = val }
    else if pid == 1537
    then record s { batches = val }
    else if pid == 1609
    then record s { substate = val }
    else if pid == 1523
    then record s { instance_type = val }
    else if pid == 1538
    then record s { buffers_sent = val }
    else if pid == 1539
    then record s { buffers_received = val }
    else if pid == 1585
    then record s { cur_sharing_convs = val }
    else if pid == 1618
    then record s { max_instances = val }
    else if pid == 1619
    then record s { max_insts_per_client = val }
    else s

-- The `switch` for an `int64_t`.
unfoldable pub channel_status_set_int64 : ℕ → ℕ → ChannelStatusDetails → ChannelStatusDetails
channel_status_set_int64 pid val s =
    if pid == 1535
    then record s { bytes_sent = val }
    else if pid == 1536
    then record s { bytes_received = val }
    else s

-- The first two values of a list, as far as the list goes.
unfoldable pub channel_status_set_int_list :
    ℕ → List ℕ → ChannelStatusDetails → ChannelStatusDetails
channel_status_set_int_list pid [] s = s
channel_status_set_int_list pid (v ∷ []) s =
    if pid == 1605
    then record s { nettime_short = v }
    else if pid == 1604
    then record s { xmitq_time_short = v }
    else if pid == 1607
    then record s { batch_size_short = v }
    else s
channel_status_set_int_list pid (v ∷ w ∷ vs) s =
    if pid == 1605
    then record s { nettime_short = v; nettime_long = w }
    else if pid == 1604
    then record s { xmitq_time_short = v; xmitq_time_long = w }
    else if pid == 1607
    then record s { batch_size_short = v; batch_size_long = w }
    else s

-- The visitor of `parse_channel_status_response`.
unfoldable pub channel_status_visit : Bytes → Visitor ChannelStatusDetails
unfolding channel_status_set_string channel_status_set_int32 channel_status_set_int64
    channel_status_set_int_list
channel_status_visit d ptype pid at plen s =
    if ptype == 4
    then read_pcf_string d at plen >>= (λ val. ok (channel_status_set_string pid val s))
    else if ptype == 3
    then read_pcf_int32 d at plen >>= (λ val. ok (channel_status_set_int32 pid val s))
    else if ptype == 23
    then read_pcf_int64 d at plen >>= (λ val. ok (channel_status_set_int64 pid val s))
    else if ptype == 5
    then read_pcf_int_list d at plen >>= (λ val. ok (channel_status_set_int_list pid val s))
    else ok s

unfoldable pub parse_channel_status_response : List Bytes → Result (List ChannelStatusDetails)
unfolding parse_responses channel_status_visit
parse_channel_status_response responses =
    parse_responses channel_status_visit empty_channel_status_details
      (λ s. not (is_empty s.channel_name)) [] responses
