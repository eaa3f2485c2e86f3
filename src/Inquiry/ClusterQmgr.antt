-- ===== src/Inquiry/ClusterQmgr.antt =====
-- `PCFInquiry::parse_cluster_qmgr_response` (src/pcf_inquiry.cpp).
use ibmmq_metrics_exporter.Base.{ℕ, not, List, [], ◌==◌, if◌then◌else◌}
use ibmmq_metrics_exporter.Memory.{Result, ok, ◌>>=◌, Bytes}
use ibmmq_metrics_exporter.Pcf.Fold.{is_empty}
use ibmmq_metrics_exporter.Inquiry.Details.{ClusterQmgrDetails, empty_cluster_qmgr_details}
use ibmmq_metrics_exporter.Inquiry.Reader.{
  Visitor, read_pcf_int32, read_pcf_string, parse_responses,
}

-- The `switch` for a string.
unfoldable pub cluster_qmgr_set_string : ℕ → Bytes → ClusterQmgrDetails → ClusterQmgrDetails
cluster_qmgr_set_string pid val s =
    if pid == 2029
    then record s { cluster_name = val }
    else if pid == 2015
    then record s { qmgr_name = val }
    else s

-- The `switch` for an `int32_t`.
unfoldable pub cluster_qmgr_set_int32 : ℕ → ℕ → ClusterQmgrDetails → ClusterQmgrDetails
cluster_qmgr_set_int32 pid val s =
    if pid == 125
    then record s { qm_type = val }
    else if pid == 1127
    then record s { status = val }
    else if pid == 1087
    then record s { suspend = val }
    else s

-- The visitor of `parse_cluster_qmgr_response`.
unfoldable pub cluster_qmgr_visit : Bytes → Visitor ClusterQmgrDetails
unfolding cluster_qmgr_set_string cluster_qmgr_set_int32
cluster_qmgr_visit d ptype pid at plen s =
    if ptype == 4
    then read_pcf_string d at plen >>= (λ val. ok (cluster_qmgr_set_string pid val s))
    else if ptype == 3
    then read_pcf_int32 d at plen >>= (λ val. ok (cluster_qmgr_set_int32 pid val s))
    else ok s

unfoldable pub parse_cluster_qmgr_response : List Bytes → Result (List ClusterQmgrDetails)
unfolding parse_responses cluster_qmgr_visit
parse_cluster_qmgr_response responses =
    parse_responses cluster_qmgr_visit empty_cluster_qmgr_details
      (λ s. not (is_empty s.cluster_name)) [] responses
