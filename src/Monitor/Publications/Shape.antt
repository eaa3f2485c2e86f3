-- ===== src/Monitor/Publications/Shape.antt =====
-- The metrics that `ResourceMonitor::process_publications` (src/resource_monitor.cpp) makes.
use ibmmq_metrics_exporter.Base.{
  ℕ, ◌^◌, ◌<◌, ◌≡◌, ◌≢◌, ap, ◌∙◌, true, false, List, [], ◌∷◌, length, Option, none, some, All,
  All-append, arith,
}
use ibmmq_metrics_exporter.Memory.{ok, Bytes}
use ibmmq_metrics_exporter.Memory.Reads.{Ensures, Ensures-bind, Ensures-Returns}
use ibmmq_metrics_exporter.Monitor.Names.{unit_divisor, normalize_value}
use ibmmq_metrics_exporter.Monitor.Names.Shape.{is_metric_name, description_to_metric_name_shape}
use ibmmq_metrics_exporter.Monitor.Params.{PcfParam}
use ibmmq_metrics_exporter.Monitor.Records.{
  MonitorElement, ResourceMonitor, PublicationMetric, DataSub, ElementMap, TypeElements, type_key,
  find_element, find_type,
}
use ibmmq_metrics_exporter.Monitor.Discovery.{body_params}
use ibmmq_metrics_exporter.Monitor.Discovery.Index.{
  IsEntry, IsIndexed, IsDiscovered, OnSome, find_type-IsEntry, find_element-IsEntry,
}
use ibmmq_metrics_exporter.Monitor.Discovery.Found.{body_params-Returns}
use ibmmq_metrics_exporter.Monitor.Publications.{
  message_queue_name, new_metric, param_metrics, message_metrics, sub_metrics, publications_loop,
  process_publications,
}

-- A metric of a subscription: it has a name that Prometheus takes, a divisor that is not 0, and
-- what counts up is not scaled.
pub record IsMetric (pm : PublicationMetric) : Type 0 where
  pub named : is_metric_name pm.metric_name ≡ true
  pub scaled : pm.divisor ≢ 0
  pub counted : pm.is_delta ≡ true → pm.divisor ≡ 1

new_metric-IsMetric :
    (sub : DataSub) (name : Bytes) (p : PcfParam) (id : ℕ) (elem : MonitorElement)
    → IsEntry (id, elem)
    → IsMetric (new_metric sub name p elem)
unfolding new_metric normalize_value unit_divisor
new_metric-IsMetric sub name p id elem h = record {
  named = ap is_metric_name h.1.named ∙ description_to_metric_name_shape elem.description;
  scaled = ground arith;
  counted = ground arith;
}

with_found-IsMetric :
    (sub : DataSub) (name : Bytes) (p : PcfParam) (id : ℕ) (found : Option MonitorElement)
    → (rest : List PublicationMetric) → OnSome (λ e. IsEntry (id, e)) found
    → All IsMetric rest
    → All IsMetric (elim found [ none ↦ rest | some elem ↦ new_metric sub name p elem ∷ rest ])
with_found-IsMetric sub name p id none rest h k = k
with_found-IsMetric sub name p id (some elem) rest h k =
    (new_metric-IsMetric sub name p id elem h, k)

param_metrics-IsMetric :
    (sub : DataSub) (emap : ElementMap) (name : Bytes) (params : List PcfParam)
    → All IsEntry emap
    → All IsMetric (param_metrics sub emap name params)
unfolding param_metrics
param_metrics-IsMetric sub emap name [] h = tt
param_metrics-IsMetric sub emap name (p ∷ params) h =
    let rest = param_metrics-IsMetric sub emap name params h in
    ground (
      arith,
      rest,
      with_found-IsMetric sub name p p.own.param_id (find_element p.own.param_id emap)
          (param_metrics sub emap name params) (find_element-IsEntry p.own.param_id emap h) rest,
    )

-- A message is an object in memory.
abbrev pub Fits : Bytes → Type 0
Fits msg = length msg < 2 ^ 63

message_metrics-IsMetric :
    (sub : DataSub) (emap : ElementMap) (messages : List Bytes)
    → All IsEntry emap
    → All Fits messages
    → Ensures (All IsMetric) (message_metrics sub emap messages)
unfolding message_metrics
message_metrics-IsMetric sub emap [] h k = tt
message_metrics-IsMetric sub emap (msg ∷ messages) h k =
    Ensures-bind (λ found. Unit {0}) (All IsMetric) (body_params false msg) _
      (Ensures-Returns (body_params false msg) (body_params-Returns false msg k.0))
      (λ found t.
        Ensures-bind (All IsMetric) (All IsMetric) (message_metrics sub emap messages) _
          (message_metrics-IsMetric sub emap messages h k.1)
          (λ rest r. All-append IsMetric _ rest (found_params found) r))
  where
    found_params :
        (found : Option (List PcfParam))
        → All IsMetric (elim found [
          | none ↦ []
          | some params ↦ param_metrics sub emap (message_queue_name params []) params
        ])
    found_params none = tt
    found_params (some params) =
        param_metrics-IsMetric sub emap (message_queue_name params []) params h

sub_metrics-IsMetric :
    (types : TypeElements) (sub : DataSub) (messages : List Bytes)
    → IsIndexed types
    → All Fits messages
    → Ensures (All IsMetric) (sub_metrics types sub messages)
unfolding sub_metrics
sub_metrics-IsMetric types sub messages h k =
    with_map (find_type key types) (find_type-IsEntry key types h)
  where
    key : Bytes
    key = type_key sub.class_name sub.type_name

    with_map :
        (found : Option ElementMap)
        → OnSome (All IsEntry) found
        → Ensures
            (All IsMetric)
            (elim found [ none ↦ ok [] | some emap ↦ message_metrics sub emap messages ])
    with_map none e = tt
    with_map (some emap) e = message_metrics-IsMetric sub emap messages e k

module _ {W : Type 0} (get_messages_from_handle : ℕ → W → List Bytes × W) where
  publications_loop-IsMetric :
      ((hobj : ℕ) (w : W) → All Fits (get_messages_from_handle hobj w).0)
      → (types : TypeElements) (subs : List DataSub) (w : W) → IsIndexed types
      → Ensures
          (λ (r : List PublicationMetric × W). All IsMetric r.0)
          (publications_loop get_messages_from_handle types subs w)
  unfolding publications_loop
  publications_loop-IsMetric fit types [] w h = tt
  publications_loop-IsMetric fit types (sub ∷ subs) w h =
      let r = get_messages_from_handle sub.hobj w in
      Ensures-bind (All IsMetric) (λ (r : List PublicationMetric × W). All IsMetric r.0)
        (sub_metrics types sub r.0) _ (sub_metrics-IsMetric types sub r.0 h (fit sub.hobj w))
        (λ metrics k.
          Ensures-bind (λ (r : List PublicationMetric × W). All IsMetric r.0)
            (λ (r : List PublicationMetric × W). All IsMetric r.0)
            (publications_loop get_messages_from_handle types subs r.1) _
            (publications_loop-IsMetric fit types subs r.1 h)
            (λ later l. All-append IsMetric metrics later.0 k l))

  -- Whatever messages of less than 2^63 bytes the subscriptions get, a monitor with the maps of a
  -- discovery ends its round without a fault (or `std::string` refuses a length), and each metric
  -- it makes has a well-formed name and a divisor other than 0, which is 1 for a counter.
  pub process_publications-IsMetric :
      ((hobj : ℕ) (w : W) → All Fits (get_messages_from_handle hobj w).0)
      → (m : ResourceMonitor) (w : W) → IsDiscovered m
      → Ensures
          (λ (r : List PublicationMetric × W). All IsMetric r.0)
          (process_publications get_messages_from_handle m w)
  unfolding process_publications
  process_publications-IsMetric fit m w h =
      publications_loop-IsMetric fit m.type_elements m.data_subs w h.indexed
