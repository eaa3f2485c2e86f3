-- ===== src/Inquiry/UsageBp.antt =====
-- `PCFInquiry::parse_usage_bp_response` (src/pcf_inquiry.cpp).
use ibmmq_metrics_exporter.Base.{ℕ, true, List, [], ◌==◌, if◌then◌else◌}
use ibmmq_metrics_exporter.Memory.{Result, ok, ◌>>=◌, Bytes}
use ibmmq_metrics_exporter.Inquiry.Details.{UsageBpDetails, empty_usage_bp_details}
use ibmmq_metrics_exporter.Inquiry.Reader.{Visitor, read_pcf_int32, parse_responses}

-- The `switch` for an `int32_t`.
unfoldable pub usage_bp_set_int32 : ℕ → ℕ → UsageBpDetails → UsageBpDetails
usage_bp_set_int32 pid val s =
    if pid == 1158
    then record s { buffer_pool = val }
    else if pid == 1330
    then record s { free_buffers = val }
    else if pid == 1166
    then record s { total_buffers = val }
    else if pid == 1170
    then record s { location = val }
    else s

-- The visitor of `parse_usage_bp_response`.
unfoldable pub usage_bp_visit : Bytes → Visitor UsageBpDetails
unfolding usage_bp_set_int32
usage_bp_visit d ptype pid at plen s =
    if ptype == 3
    then read_pcf_int32 d at plen >>= (λ val. ok (usage_bp_set_int32 pid val s))
    else ok s

unfoldable pub parse_usage_bp_response : List Bytes → Result (List UsageBpDetails)
unfolding parse_responses usage_bp_visit
parse_usage_bp_response responses =
    parse_responses usage_bp_visit empty_usage_bp_details (λ s. true) [] responses
