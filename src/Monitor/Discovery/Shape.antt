-- ===== src/Monitor/Discovery/Shape.antt =====
-- What `ResourceMonitor::discover` (src/resource_monitor.cpp) finds.
use ibmmq_metrics_exporter.Base.{
  ◌≡◌, ◌≢◌, refl, ◌∙◌, Bool, true, false, not, List, [], ◌∷◌, ◌++◌, length, if◌then◌else◌, All,
  All-append, ap, is_nil, length-is_nil, arith,
}
use ibmmq_metrics_exporter.Memory.{Bytes}
use ibmmq_metrics_exporter.Pcf.Fold.{is_empty}
use ibmmq_metrics_exporter.Monitor.Names.{description_to_metric_name}
use ibmmq_metrics_exporter.Monitor.Params.{InnerParam, PcfParam}
use ibmmq_metrics_exporter.Monitor.Records.{MonitorElement, MonitorType, MonitorClass, new_element}
use ibmmq_metrics_exporter.Monitor.Discovery.{
  set_element_field, set_type_field, set_class_field, group_fields, add_element, add_elements,
}

-- An element has an id, and a name that its description gives it.
pub record IsElement (e : MonitorElement) : Type 0 where
  pub identified : e.element_id ≢ 0
  pub named : e.metric_name ≡ description_to_metric_name e.description

pub record IsType (t : MonitorType) : Type 0 where
  pub named : is_empty t.type_name ≡ false
  pub measured : length t.elements ≢ 0
  pub elements : All IsElement t.elements

pub record IsClass (c : MonitorClass) : Type 0 where
  pub named : is_empty c.class_name ≡ false
  pub typed : length c.types ≢ 0
  pub types : All IsType c.types

add_element-elements :
    (mtype : MonitorType) (p : PcfParam)
    → All IsElement mtype.elements
    → All IsElement (add_element mtype p).elements
unfolding add_element
add_element-elements mtype p h =
    let elem = group_fields set_element_field new_element p.group_params in
    let name : Bytes = description_to_metric_name elem.description in
    ground (
      arith,
      λ (k : elem.element_id ≢ 0).
          All-append IsElement mtype.elements (record elem { metric_name = name } ∷ []) h
            (record { identified = k; named = refl }, tt),
    )

add_element-name :
    (mtype : MonitorType) (p : PcfParam) → (add_element mtype p).type_name ≡ mtype.type_name
unfolding add_element
add_element-name mtype p = ground arith

-- The name stays, and the elements are all well formed.
abbrev pub Kept : MonitorType → MonitorType → Type 0
Kept mtype mtype' = (mtype'.type_name ≡ mtype.type_name) × All IsElement mtype'.elements

pub add_elements-Kept :
    (params : List PcfParam) (mtype : MonitorType)
    → All IsElement mtype.elements
    → Kept mtype (add_elements mtype params)
add_elements-Kept [] mtype h = (refl, h)
add_elements-Kept (p ∷ params) mtype h =
    let later = add_elements-Kept params (add_element mtype p) (add_element-elements mtype p h) in
    (later.0 ∙ add_element-name mtype p, later.1)

-- The parameters of a type's or a class's group do not touch the list they are put in later.
pub type_fields-elements :
    (gps : List InnerParam) (s : MonitorType × Bytes)
    → s.0.elements ≡ []
    → (group_fields set_type_field s gps).0.elements ≡ []
unfolding set_type_field
type_fields-elements [] s h = h
type_fields-elements (gp ∷ gps) s h = type_fields-elements gps (set_type_field s gp) (ground arith)

pub class_fields-types :
    (gps : List InnerParam) (cls : MonitorClass)
    → cls.types ≡ []
    → (group_fields set_class_field cls gps).types ≡ []
unfolding set_class_field
class_fields-types [] cls h = h
class_fields-types (gp ∷ gps) cls h = class_fields-types gps (set_class_field cls gp) (ground arith)

-- What is kept of a class while its types are added to it.
abbrev pub TypedAs : Bytes → MonitorClass → Type 0
TypedAs name cls = (cls.class_name ≡ name) × All IsType cls.types

pub add_type-TypedAs :
    (name : Bytes) (cls : MonitorClass) (read mtype : MonitorType)
    → is_empty read.type_name ≡ false
    → TypedAs name cls
    → Kept read mtype
    → TypedAs name
        (if is_nil mtype.elements then cls else record cls { types = cls.types ++ mtype ∷ [] })
add_type-TypedAs name cls read mtype h c k = ground (
  arith,
  λ (full : is_nil mtype.elements ≡ false). All-append IsType cls.types (mtype ∷ []) c.1 (
    record {
      named = ap is_empty k.0 ∙ h;
      measured = length-is_nil mtype.elements full;
      elements = k.1;
    },
    tt,
  ),
)

pub append_found-IsClass :
    (classes : List MonitorClass) (name : Bytes) (found : Bool × MonitorClass)
    → is_empty name ≡ false
    → All IsClass classes
    → (found.0 ≡ not (is_nil found.1.types)) × TypedAs name found.1
    → All IsClass (if found.0 then classes ++ found.1 ∷ [] else classes)
append_found-IsClass classes name (false, cls) n h k = h
append_found-IsClass classes name (true, cls) n h k = All-append IsClass classes (cls ∷ []) h (
  record {
    named = ap is_empty k.1.0 ∙ n;
    typed = length-is_nil cls.types (ground (arith, k.0));
    types = k.1.1;
  },
  tt,
)
