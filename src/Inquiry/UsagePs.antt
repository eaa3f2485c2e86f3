-- ===== src/Inquiry/UsagePs.antt =====
-- `PCFInquiry::parse_usage_ps_response` (src/pcf_inquiry.cpp).
use ibmmq_metrics_exporter.Base.{ℕ, true, List, [], ◌==◌, if◌then◌else◌}
use ibmmq_metrics_exporter.Memory.{Result, ok, ◌>>=◌, Bytes}
use ibmmq_metrics_exporter.Inquiry.Details.{UsagePsDetails, empty_usage_ps_details}
use ibmmq_metrics_exporter.Inquiry.Reader.{Visitor, read_pcf_int32, parse_responses}

-- The `switch` for an `int32_t`.
unfoldable pub usage_ps_set_int32 : ℕ → ℕ → UsagePsDetails → UsagePsDetails
usage_ps_set_int32 pid val s =
    if pid == 62
    then record s { pageset_id = val }
    else if pid == 1170
    then record s { buffer_pool = val }
    else if pid == 1159
    then record s { total_pages = val }
    else if pid == 1160
    then record s { unused_pages = val }
    else if pid == 1161
    then record s { persist_pages = val }
    else if pid == 1162
    then record s { nonpersist_pages = val }
    else if pid == 1163
    then record s { restart_pages = val }
    else if pid == 1164
    then record s { expand_count = val }
    else s

-- The visitor of `parse_usage_ps_response`.
unfoldable pub usage_ps_visit : Bytes → Visitor UsagePsDetails
unfolding usage_ps_set_int32
usage_ps_visit d ptype pid at plen s =
    if ptype == 3
    then read_pcf_int32 d at plen >>= (λ val. ok (usage_ps_set_int32 pid val s))
    else ok s

unfoldable pub parse_usage_ps_response : List Bytes → Result (List UsagePsDetails)
unfolding parse_responses usage_ps_visit
parse_usage_ps_response responses =
    parse_responses usage_ps_visit empty_usage_ps_details (λ s. true) [] responses
