-- ===== src/Inquiry/QueueOnline.antt =====
-- `PCFInquiry::parse_queue_online_status_response` (src/pcf_inquiry.cpp).
use ibmmq_metrics_exporter.Base.{ℕ, not, List, [], ◌∷◌, ◌==◌, if◌then◌else◌}
use ibmmq_metrics_exporter.Memory.{Result, ok, ◌>>=◌, Bytes}
use ibmmq_metrics_exporter.Pcf.Fold.{is_empty}
use ibmmq_metrics_exporter.Inquiry.Details.{QueueOnlineStatus, empty_queue_online_status}
use ibmmq_metrics_exporter.Inquiry.Reader.{
  Visitor, read_pcf_int32, read_pcf_int_list, read_pcf_string, parse_responses,
}

-- The `switch` for a string.
unfoldable pub queue_online_status_set_string : ℕ → Bytes → QueueOnlineStatus → QueueOnlineStatus
queue_online_status_set_string pid val s =
    if pid == 2016
    then record s { queue_name = val }
    else if pid == 3128
    then record s { last_put_date = val }
    else if pid == 3129
    then record s { last_put_time = val }
    else if pid == 3130
    then record s { last_get_date = val }
    else if pid == 3131
    then record s { last_get_time = val }
    else s

-- The `switch` for an `int32_t`.
unfoldable pub queue_online_status_set_int32 : ℕ → ℕ → QueueOnlineStatus → QueueOnlineStatus
queue_online_status_set_int32 pid val s =
    if pid == 1227
    then record s { oldest_msg_age = val }
    else if pid == 1027
    then record s { uncommitted_msgs = val }
    else if pid == 1437
    then record s { cur_q_file_size = val }
    else if pid == 1438
    then record s { cur_max_file_size = val }
    else s

-- The first two values of a list, as far as the list goes.
unfoldable pub queue_online_status_set_int_list : ℕ → List ℕ → QueueOnlineStatus → QueueOnlineStatus
queue_online_status_set_int_list pid [] s = s
queue_online_status_set_int_list pid (v ∷ []) s =
    if pid == 1226 then record s { qtime_short = v } else s
queue_online_status_set_int_list pid (v ∷ w ∷ vs) s =
    if pid == 1226 then record s { qtime_short = v; qtime_long = w } else s

-- The visitor of `parse_queue_online_status_response`.
unfoldable pub queue_online_status_visit : Bytes → Visitor QueueOnlineStatus
unfolding queue_online_status_set_string queue_online_status_set_int32
    queue_online_status_set_int_list
queue_online_status_visit d ptype pid at plen s =
    if ptype == 4
    then read_pcf_string d at plen >>= (λ val. ok (queue_online_status_set_string pid val s))
    else if ptype == 3
    then read_pcf_int32 d at plen >>= (λ val. ok (queue_online_status_set_int32 pid val s))
    else if ptype == 5
    then read_pcf_int_list d at plen >>= (λ val. ok (queue_online_status_set_int_list pid val s))
    else ok s

unfoldable pub parse_queue_online_status_response : List Bytes → Result (List QueueOnlineStatus)
unfolding parse_responses queue_online_status_visit
parse_queue_online_status_response responses =
    parse_responses queue_online_status_visit empty_queue_online_status
      (λ s. not (is_empty s.queue_name)) [] responses
