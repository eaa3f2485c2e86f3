-- ===== src/Inquiry/Safety.antt =====
-- The parsers of responses (src/pcf_inquiry.cpp) stay in every response whose sizes fit, and end.
use ibmmq_metrics_exporter.Base.{true, List, [], All, arith}
use ibmmq_metrics_exporter.Memory.{Bytes}
use ibmmq_metrics_exporter.Memory.Reads.{Returns}
use ibmmq_metrics_exporter.Inquiry.Reader.Bounds.{
  read_pcf_string-Returns, read_pcf_int32-Returns, read_pcf_int64-Returns,
  read_pcf_int_list-Returns,
}
use ibmmq_metrics_exporter.Inquiry.Reader.Walk.{IsWellSized, VisitReturns, parse_responses-Returns}
use ibmmq_metrics_exporter.Inquiry.ChannelStatus.{
  channel_status_visit, parse_channel_status_response,
}
use ibmmq_metrics_exporter.Inquiry.TopicStatus.{topic_status_visit, parse_topic_status_response}
use ibmmq_metrics_exporter.Inquiry.SubStatus.{sub_status_visit, parse_sub_status_response}
use ibmmq_metrics_exporter.Inquiry.QmgrStatus.{qmgr_status_visit, parse_qmgr_status_response}
use ibmmq_metrics_exporter.Inquiry.ClusterQmgr.{cluster_qmgr_visit, parse_cluster_qmgr_response}
use ibmmq_metrics_exporter.Inquiry.UsageBp.{usage_bp_visit, parse_usage_bp_response}
use ibmmq_metrics_exporter.Inquiry.UsagePs.{usage_ps_visit, parse_usage_ps_response}
use ibmmq_metrics_exporter.Inquiry.QueueOnline.{
  queue_online_status_visit, parse_queue_online_status_response,
}

channel_status_visit-Returns : VisitReturns channel_status_visit
unfolding channel_status_visit
channel_status_visit-Returns d ptype pid at plen s b h l t fits = ground (
  arith,
  read_pcf_string-Returns d at plen,
  read_pcf_int32-Returns d at plen,
  read_pcf_int64-Returns d at plen,
  read_pcf_int_list-Returns d at plen,
)

topic_status_visit-Returns : VisitReturns topic_status_visit
unfolding topic_status_visit
topic_status_visit-Returns d ptype pid at plen s b h l t fits =
    ground (arith, read_pcf_string-Returns d at plen, read_pcf_int32-Returns d at plen)

sub_status_visit-Returns : VisitReturns sub_status_visit
unfolding sub_status_visit
sub_status_visit-Returns d ptype pid at plen s b h l t fits =
    ground (arith, read_pcf_string-Returns d at plen, read_pcf_int32-Returns d at plen)

qmgr_status_visit-Returns : VisitReturns qmgr_status_visit
unfolding qmgr_status_visit
qmgr_status_visit-Returns d ptype pid at plen s b h l t fits =
    ground (arith, read_pcf_string-Returns d at plen, read_pcf_int32-Returns d at plen)

cluster_qmgr_visit-Returns : VisitReturns cluster_qmgr_visit
unfolding cluster_qmgr_visit
cluster_qmgr_visit-Returns d ptype pid at plen s b h l t fits =
    ground (arith, read_pcf_string-Returns d at plen, read_pcf_int32-Returns d at plen)

usage_bp_visit-Returns : VisitReturns usage_bp_visit
unfolding usage_bp_visit
usage_bp_visit-Returns d ptype pid at plen s b h l t fits =
    ground (arith, read_pcf_int32-Returns d at plen)

usage_ps_visit-Returns : VisitReturns usage_ps_visit
unfolding usage_ps_visit
usage_ps_visit-Returns d ptype pid at plen s b h l t fits =
    ground (arith, read_pcf_int32-Returns d at plen)

queue_online_status_visit-Returns : VisitReturns queue_online_status_visit
unfolding queue_online_status_visit
queue_online_status_visit-Returns d ptype pid at plen s b h l t fits = ground (
  arith,
  read_pcf_string-Returns d at plen,
  read_pcf_int32-Returns d at plen,
  read_pcf_int_list-Returns d at plen,
)

-- A batch of responses whose lengths and counts are far from 2^32 is parsed, by each of the eight
-- parsers, without a read outside a response and to the end.
pub parsers-Returns :
    (responses : List Bytes)
    → All IsWellSized responses
    → Returns (parse_channel_status_response responses)
      × Returns (parse_topic_status_response responses)
      × Returns (parse_sub_status_response responses)
      × Returns (parse_qmgr_status_response responses)
      × Returns (parse_cluster_qmgr_response responses)
      × Returns (parse_usage_bp_response responses)
      × Returns (parse_usage_ps_response responses)
      × Returns (parse_queue_online_status_response responses)
unfolding parse_channel_status_response parse_topic_status_response parse_sub_status_response
    parse_qmgr_status_response parse_cluster_qmgr_response parse_usage_bp_response
    parse_usage_ps_response parse_queue_online_status_response
parsers-Returns responses h = (
  parse_responses-Returns channel_status_visit channel_status_visit-Returns _ _ [] responses h,
  parse_responses-Returns topic_status_visit topic_status_visit-Returns _ _ [] responses h,
  parse_responses-Returns sub_status_visit sub_status_visit-Returns _ _ [] responses h,
  parse_responses-Returns qmgr_status_visit qmgr_status_visit-Returns _ (λ s. true) [] responses h,
  parse_responses-Returns cluster_qmgr_visit cluster_qmgr_visit-Returns _ _ [] responses h,
  parse_responses-Returns usage_bp_visit usage_bp_visit-Returns _ (λ s. true) [] responses h,
  parse_responses-Returns usage_ps_visit usage_ps_visit-Returns _ (λ s. true) [] responses h,
  parse_responses-Returns queue_online_status_visit queue_online_status_visit-Returns _ _ []
      responses h,
)
