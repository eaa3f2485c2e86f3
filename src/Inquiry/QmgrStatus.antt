-- ===== src/Inquiry/QmgrStatus.antt =====
-- `PCFInquiry::parse_qmgr_status_response` (src/pcf_inquiry.cpp).
use ibmmq_metrics_exporter.Base.{ℕ, true, List, [], ◌==◌, if◌then◌else◌}
use ibmmq_metrics_exporter.Memory.{Result, ok, ◌>>=◌, Bytes}
use ibmmq_metrics_exporter.Inquiry.Details.{QmgrStatusDetails, empty_qmgr_status_details}
use ibmmq_metrics_exporter.Inquiry.Reader.{
  Visitor, read_pcf_int32, read_pcf_string, parse_responses,
}

-- The `switch` for a string.
unfoldable pub qmgr_status_set_string : ℕ → Bytes → QmgrStatusDetails → QmgrStatusDetails
qmgr_status_set_string pid val s =
    if pid == 2015
    then record s { qmgr_name = val }
    else if pid == 2014
    then record s { description = val }
    else if pid == 3175
    then record s { start_date = val }
    else if pid == 3176
    then record s { start_time = val }
    else s

-- The `switch` for an `int32_t`.
unfoldable pub qmgr_status_set_int32 : ℕ → ℕ → QmgrStatusDetails → QmgrStatusDetails
qmgr_status_set_int32 pid val s =
    if pid == 1149
    then record s { status = val }
    else if pid == 1232
    then record s { chinit_status = val }
    else if pid == 1229
    then record s { connection_count = val }
    else if pid == 1233
    then record s { cmd_server_status = val }
    else s

-- The visitor of `parse_qmgr_status_response`.
unfoldable pub qmgr_status_visit : Bytes → Visitor QmgrStatusDetails
unfolding qmgr_status_set_string qmgr_status_set_int32
qmgr_status_visit d ptype pid at plen s =
    if ptype == 4
    then read_pcf_string d at plen >>= (λ val. ok (qmgr_status_set_string pid val s))
    else if ptype == 3
    then read_pcf_int32 d at plen >>= (λ val. ok (qmgr_status_set_int32 pid val s))
    else ok s

unfoldable pub parse_qmgr_status_response : List Bytes → Result (List QmgrStatusDetails)
unfolding parse_responses qmgr_status_visit
parse_qmgr_status_response responses =
    parse_responses qmgr_status_visit empty_qmgr_status_details (λ s. true) [] responses
