-- ===== src/Monitor/Discovery.antt =====
-- `ResourceMonitor::discover` and its helpers (src/resource_monitor.cpp).
pub mod Shape
pub mod Index
pub mod Found
use ibmmq_metrics_exporter.Base.{
  ℕ, ◌+◌, Bool, true, false, not, ◌&&◌, ◌||◌, List, [], ◌∷◌, ◌++◌, length, ltb, ◌==◌, if◌then◌else◌,
  Option, none, some, codes, is_nil,
}
use ibmmq_metrics_exporter.Memory.{Result, ok, err, ◌>>=◌, Bytes}
use ibmmq_metrics_exporter.Pcf.Fold.{is_empty}
use ibmmq_metrics_exporter.Monitor.Names.{description_to_metric_name}
use ibmmq_metrics_exporter.Monitor.Params.{
  InnerParam, PcfParam, message_params, pcf_string, pcf_group, pcf_header_size,
}
use ibmmq_metrics_exporter.Monitor.Records.{
  MonitorElement, MonitorType, MonitorClass, ResourceMonitor, TypeElements, ElementMap, new_element,
  new_type, new_class, type_key, set_element, update_type,
}

unfoldable pub set_element_field : MonitorElement → InnerParam → MonitorElement
set_element_field elem gp =
    if gp.param_id == 841
    then record elem { element_id = gp.int_value }
    else if gp.param_id == 842
    then record elem { datatype = gp.int_value }
    else if gp.param_id == 2715
    then record elem { description = gp.str_value }
    else elem

-- A type while it is read, with the local `elements_topic`.
unfoldable pub set_type_field : MonitorType × Bytes → InnerParam → MonitorType × Bytes
set_type_field (mtype, elements_topic) gp =
    if gp.param_id == 840
    then (record mtype { type_id = gp.int_value }, elements_topic)
    else if gp.param_id == 2714
    then (record mtype { type_name = gp.str_value }, elements_topic)
    else if gp.param_id == 2094
    then (mtype, gp.str_value)
    else (mtype, elements_topic)

unfoldable pub set_class_field : MonitorClass → InnerParam → MonitorClass
set_class_field cls gp =
    if gp.param_id == 839
    then record cls { class_id = gp.int_value }
    else if gp.param_id == 2713
    then record cls { class_name = gp.str_value }
    else if gp.param_id == 2094
    then record cls { topic_string = gp.str_value }
    else cls

-- A loop over the parameters of a group.
abbrev pub group_fields {ℓ} : {S : Type ℓ} → (S → InnerParam → S) → S → List InnerParam → S
group_fields set s [] = s
group_fields set s (gp ∷ group_params) = group_fields set (set s gp) group_params

-- The body of the loop of `discover_elements`.
unfoldable pub add_element : MonitorType → PcfParam → MonitorType
unfolding set_element_field
add_element mtype p =
    if p.own.type == pcf_string && p.own.param_id == 2094
    then record mtype { object_topic = p.own.str_value }
    else if not (p.own.type == pcf_group)
    then mtype
    else let elem = group_fields set_element_field new_element p.group_params in
      if elem.element_id == 0 then mtype else record mtype {
        elements =
            mtype.elements
            ++ record elem { metric_name = description_to_metric_name elem.description } ∷ [];
      }

abbrev pub add_elements : MonitorType → List PcfParam → MonitorType
add_elements mtype [] = mtype
add_elements mtype (p ∷ params) = add_elements (add_element mtype p) params

-- The maps from an element's id to the element, for each type.
abbrev pub index_elements : List MonitorElement → ElementMap → ElementMap
index_elements [] emap = emap
index_elements (e ∷ elements) emap = index_elements elements (set_element e.element_id e emap)

abbrev pub index_types : Bytes → List MonitorType → TypeElements → TypeElements
index_types class_name [] types = types
index_types class_name (t ∷ ts) types =
    index_types class_name ts
      (update_type (type_key class_name t.type_name) (index_elements t.elements) types)

abbrev pub index_classes : List MonitorClass → TypeElements → TypeElements
index_classes [] types = types
index_classes (cls ∷ classes) types =
    index_classes classes (index_types cls.class_name cls.types types)

unfoldable pub classes_topic : Bytes → Bytes
classes_topic qmgr_name =
    codes "$SYS/MQ/INFO/QMGR/" ++ qmgr_name ++ codes "/Monitor/METADATA/CLASSES"

unfoldable pub body_params : Bool → Bytes → Result (Option (List PcfParam))
body_params whole_header body =
    if ltb (length body) pcf_header_size
    then ok none
    else (do params ← message_params whole_header body (length body); ok (some params))

-- The queue manager behind `MQClient::subscribe_and_get`: the data of the message a subscription
-- of a topic gets, if it gets one, and what the queue manager is then.
module _ {W : Type 0} (subscribe_and_get : Bytes → W → Option Bytes × W) where
  -- The parameters of the message at a topic, if one comes and has a header's size.
  unfoldable pub get_params : Bool → Bytes → W → Result (Option (List PcfParam) × W)
  unfolding body_params
  get_params whole_header topic w =
      let (reply, w') = subscribe_and_get topic w in
      elim reply [
        | none ↦ ok (none, w')
        | some body ↦ body_params whole_header body >>= (λ found. ok (found, w'))
      ]

  -- What it returns beside the type is not looked at.
  unfoldable pub discover_elements : MonitorType → Bytes → W → Result (MonitorType × W)
  unfolding get_params add_element
  discover_elements mtype elements_topic w = do
    (found, w') ← get_params false elements_topic w
    elim found [ none ↦ ok (mtype, w') | some params ↦ ok (add_elements mtype params, w') ]

  -- The body of the loop of `discover_types`.
  unfoldable pub type_step : MonitorClass → PcfParam → W → Result (MonitorClass × W)
  unfolding discover_elements set_type_field
  type_step cls p w =
      if not (p.own.type == pcf_group)
      then ok (cls, w)
      else let read = group_fields set_type_field (new_type, []) p.group_params in
        if is_empty read.0.type_name || is_empty read.1 then ok (cls, w) else do
          (mtype, w') ← discover_elements read.0 read.1 w
          ok (
            if is_nil mtype.elements then cls else record cls { types = cls.types ++ mtype ∷ [] },
            w',
          )

  unfoldable pub types_loop : List PcfParam → MonitorClass → W → Result (MonitorClass × W)
  unfolding type_step
  types_loop [] cls w = ok (cls, w)
  types_loop (p ∷ params) cls w = do (cls', w') ← type_step cls p w; types_loop params cls' w'

  -- The class with its types, and whether it has one.
  unfoldable pub discover_types : MonitorClass → W → Result ((Bool × MonitorClass) × W)
  unfolding get_params types_loop
  discover_types cls w = if is_empty cls.topic_string then ok ((false, cls), w) else do
    (found, w') ← get_params false cls.topic_string w
    elim found [
      | none ↦ ok ((false, cls), w')
      | some params ↦ do
        (cls', w'') ← types_loop params cls w'
        ok ((not (is_nil cls'.types), cls'), w'')
    ]

  -- The body of the loop of `discover_classes`.
  unfoldable pub class_step : List MonitorClass → PcfParam → W → Result (List MonitorClass × W)
  unfolding discover_types set_class_field
  class_step classes p w =
      if not (p.own.type == pcf_group)
      then ok (classes, w)
      else let cls = group_fields set_class_field new_class p.group_params in
        if is_empty cls.class_name then ok (classes, w) else do
          ((has_types, cls'), w') ← discover_types cls w
          ok ((if has_types then classes ++ cls' ∷ [] else classes), w')

  unfoldable pub classes_loop :
      List PcfParam → List MonitorClass → W → Result (List MonitorClass × W)
  unfolding class_step
  classes_loop [] classes w = ok (classes, w)
  classes_loop (p ∷ params) classes w = do
    (classes', w') ← class_step classes p w
    classes_loop params classes' w'

  unfoldable pub discover_classes : ResourceMonitor → W → Result ((Bool × ResourceMonitor) × W)
  unfolding get_params classes_loop classes_topic
  discover_classes m w = do
    (found, w') ← get_params true (classes_topic m.qmgr_name) w
    elim found [
      | none ↦ ok ((false, m), w')
      | some params ↦ do
        (classes, w'') ← classes_loop params m.classes w'
        ok ((not (is_nil classes), record m { classes = classes }), w'')
    ]

  unfoldable pub discover : ResourceMonitor → W → Result ((Bool × ResourceMonitor) × W)
  unfolding discover_classes
  discover m w = do
    ((found, m'), w') ← discover_classes m w
    if not found
        then ok ((false, m'), w')
        else ok
            ((true, record m' { type_elements = index_classes m'.classes m'.type_elements }), w')
