-- ===== src/Monitor/Publications.antt =====
-- `ResourceMonitor::process_publications` (src/resource_monitor.cpp).
pub mod Shape
use ibmmq_metrics_exporter.Base.{
  ℕ, Bool, true, false, not, ◌&&◌, List, [], ◌∷◌, ◌++◌, ◌==◌, if◌then◌else◌, Option, none, some,
}
use ibmmq_metrics_exporter.Memory.{Result, ok, err, ◌>>=◌, Bytes}
use ibmmq_metrics_exporter.Monitor.Names.{normalize_value}
use ibmmq_metrics_exporter.Monitor.Params.{PcfParam, pcf_integer, pcf_integer64}
use ibmmq_metrics_exporter.Monitor.Records.{
  MonitorElement, ResourceMonitor, PublicationMetric, DataSub, ElementMap, TypeElements, type_key,
  find_element, find_type,
}
use ibmmq_metrics_exporter.Monitor.Discovery.{body_params}

-- The queue's name is the last one that the message has.
abbrev pub message_queue_name : List PcfParam → Bytes → Bytes
message_queue_name [] name = name
message_queue_name (p ∷ params) name =
    message_queue_name params (if p.own.param_id == 2016 then p.own.str_value else name)

unfoldable pub new_metric : DataSub → Bytes → PcfParam → MonitorElement → PublicationMetric
unfolding normalize_value
new_metric sub queue_name p elem =
    let (raw, divisor) = normalize_value p.own.int64_value elem.datatype in
    record {
      class_name = sub.class_name;
      type_name = sub.type_name;
      object_name = queue_name;
      metric_name = elem.metric_name;
      raw = raw;
      divisor = divisor;
      is_delta = elem.datatype == 2;
    }

-- The metrics of a message, one for each number whose id is an element's.
unfoldable pub param_metrics : DataSub → ElementMap → Bytes → List PcfParam → List PublicationMetric
unfolding new_metric find_element
param_metrics sub emap name [] = []
param_metrics sub emap name (p ∷ params) =
    let rest = param_metrics sub emap name params in
    if not (p.own.type == pcf_integer64) && not (p.own.type == pcf_integer)
    then rest
    else elim (find_element p.own.param_id emap) [
      | none ↦ rest
      | some elem ↦ new_metric sub name p elem ∷ rest
    ]

unfoldable pub message_metrics : DataSub → ElementMap → List Bytes → Result (List PublicationMetric)
unfolding body_params param_metrics
message_metrics sub emap [] = ok []
message_metrics sub emap (msg ∷ messages) = do
  found ← body_params false msg
  rest ← message_metrics sub emap messages
  ok (
      (elim found [
        | none ↦ []
        | some params ↦ param_metrics sub emap (message_queue_name params []) params
      ])
      ++ rest)

-- The messages of a subscription count for nothing if its type was never discovered.
unfoldable pub sub_metrics : TypeElements → DataSub → List Bytes → Result (List PublicationMetric)
unfolding message_metrics find_type
sub_metrics types sub messages = elim (find_type (type_key sub.class_name sub.type_name) types) [
  | none ↦ ok []
  | some emap ↦ message_metrics sub emap messages
]

-- The queue manager behind `MQClient::get_messages_from_handle`, which takes the messages away.
module _ {W : Type 0} (get_messages_from_handle : ℕ → W → List Bytes × W) where
  unfoldable pub publications_loop :
      TypeElements → List DataSub → W → Result (List PublicationMetric × W)
  unfolding sub_metrics
  publications_loop types [] w = ok ([], w)
  publications_loop types (sub ∷ subs) w = do
    let (messages, w') = get_messages_from_handle sub.hobj w
    metrics ← sub_metrics types sub messages
    (later, w'') ← publications_loop types subs w'
    ok (metrics ++ later, w'')

  unfoldable pub process_publications : ResourceMonitor → W → Result (List PublicationMetric × W)
  unfolding publications_loop
  process_publications m w = publications_loop m.type_elements m.data_subs w
