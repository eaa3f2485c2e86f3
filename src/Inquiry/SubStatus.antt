-- ===== src/Inquiry/SubStatus.antt =====
-- `PCFInquiry::parse_sub_status_response` (src/pcf_inquiry.cpp).
use ibmmq_metrics_exporter.Base.{ℕ, not, List, [], ◌==◌, if◌then◌else◌}
use ibmmq_metrics_exporter.Memory.{Result, ok, ◌>>=◌, Bytes}
use ibmmq_metrics_exporter.Pcf.Fold.{is_empty}
use ibmmq_metrics_exporter.Inquiry.Details.{SubStatusDetails, empty_sub_status_details}
use ibmmq_metrics_exporter.Inquiry.Reader.{
  Visitor, read_pcf_int32, read_pcf_string, parse_responses,
}

-- The `switch` for a string.
unfoldable pub sub_status_set_string : ℕ → Bytes → SubStatusDetails → SubStatusDetails
sub_status_set_string pid val s =
    if pid == 3152
    then record s { sub_name = val }
    else if pid == 2094
    then record s { topic_string = val }
    else if pid == 3154
    then record s { destination = val }
    else if pid == 7016
    then record s { sub_id = val }
    else if pid == 3167
    then record s { last_msg_time = val }
    else if pid == 3168
    then record s { last_msg_date = val }
    else s

-- The `switch` for an `int32_t`.
unfoldable pub sub_status_set_int32 : ℕ → ℕ → SubStatusDetails → SubStatusDetails
sub_status_set_int32 pid val s =
    if pid == 1289
    then record s { sub_type = val }
    else if pid == 175
    then record s { durable = val }
    else if pid == 1290
    then record s { message_count = val }
    else s

-- The visitor of `parse_sub_status_response`.
unfoldable pub sub_status_visit : Bytes → Visitor SubStatusDetails
unfolding sub_status_set_string sub_status_set_int32
sub_status_visit d ptype pid at plen s =
    if ptype == 4
    then read_pcf_string d at plen >>= (λ val. ok (sub_status_set_string pid val s))
    else if ptype == 3
    then read_pcf_int32 d at plen >>= (λ val. ok (sub_status_set_int32 pid val s))
    else ok s

unfoldable pub parse_sub_status_response : List Bytes → Result (List SubStatusDetails)
unfolding parse_responses sub_status_visit
parse_sub_status_response responses =
    parse_responses sub_status_visit empty_sub_status_details (λ s. not (is_empty s.sub_name)) []
      responses
