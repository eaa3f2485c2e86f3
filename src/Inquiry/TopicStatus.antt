-- ===== src/Inquiry/TopicStatus.antt =====
-- `PCFInquiry::parse_topic_status_response` (src/pcf_inquiry.cpp).
use ibmmq_metrics_exporter.Base.{ℕ, not, ◌||◌, List, [], ◌==◌, if◌then◌else◌}
use ibmmq_metrics_exporter.Memory.{Result, ok, ◌>>=◌, Bytes}
use ibmmq_metrics_exporter.Pcf.Fold.{is_empty}
use ibmmq_metrics_exporter.Inquiry.Details.{TopicStatusDetails, empty_topic_status_details}
use ibmmq_metrics_exporter.Inquiry.Reader.{
  Visitor, read_pcf_int32, read_pcf_string, parse_responses,
}

-- The `switch` for a string.
unfoldable pub topic_status_set_string : ℕ → Bytes → TopicStatusDetails → TopicStatusDetails
topic_status_set_string pid val s =
    if pid == 2094
    then record s { topic_string = val }
    else if pid == 2092
    then record s { topic_name = val }
    else s

-- The `switch` for an `int32_t`.
unfoldable pub topic_status_set_int32 : ℕ → ℕ → TopicStatusDetails → TopicStatusDetails
topic_status_set_int32 pid val s =
    if pid == 208
    then record s { topic_type = val }
    else if pid == 215
    then record s { pub_count = val }
    else if pid == 204
    then record s { sub_count = val }
    else s

-- The visitor of `parse_topic_status_response`.
unfoldable pub topic_status_visit : Bytes → Visitor TopicStatusDetails
unfolding topic_status_set_string topic_status_set_int32
topic_status_visit d ptype pid at plen s =
    if ptype == 4
    then read_pcf_string d at plen >>= (λ val. ok (topic_status_set_string pid val s))
    else if ptype == 3
    then read_pcf_int32 d at plen >>= (λ val. ok (topic_status_set_int32 pid val s))
    else ok s

unfoldable pub parse_topic_status_response : List Bytes → Result (List TopicStatusDetails)
unfolding parse_responses topic_status_visit
parse_topic_status_response responses =
    parse_responses topic_status_visit empty_topic_status_details
      (λ s. not (is_empty s.topic_string) || not (is_empty s.topic_name)) [] responses
