-- ===== src/Monitor/Records.antt =====
-- The data of the resource monitor (include/ibmmq_exporter/resource_monitor.h).
use ibmmq_metrics_exporter.Base.{
  ℕ, Bool, List, [], ◌∷◌, ◌++◌, ◌==◌, if◌then◌else◌, Option, none, some, is_same,
}
use ibmmq_metrics_exporter.Memory.{Bytes}

pub record MonitorElement : Type 0 where
  pub element_id : ℕ
  pub datatype : ℕ
  pub description : Bytes
  pub metric_name : Bytes

pub record MonitorType : Type 0 where
  pub type_id : ℕ
  pub type_name : Bytes
  pub object_topic : Bytes
  pub elements : List MonitorElement

pub record MonitorClass : Type 0 where
  pub class_id : ℕ
  pub class_name : Bytes
  pub topic_string : Bytes
  pub types : List MonitorType

-- `raw` and `divisor` stand for `value`, which is their quotient.
pub record PublicationMetric : Type 0 where
  pub class_name : Bytes
  pub type_name : Bytes
  pub object_name : Bytes
  pub metric_name : Bytes
  pub raw : ℕ
  pub divisor : ℕ
  pub is_delta : Bool

pub record DataSub : Type 0 where
  pub class_name : Bytes
  pub type_name : Bytes
  pub hobj : ℕ
  pub hsub : ℕ

-- `std::map<int32_t, const MonitorElement*>`: the elements pointed to are never changed.
abbrev pub ElementMap : Type 0
ElementMap = List (ℕ × MonitorElement)

-- `std::map<std::string, ...>`, by the key `class_name/type_name`.
abbrev pub TypeElements : Type 0
TypeElements = List (Bytes × ElementMap)

-- The members of a `ResourceMonitor`.
pub record ResourceMonitor : Type 0 where
  pub qmgr_name : Bytes
  pub classes : List MonitorClass
  pub type_elements : TypeElements
  pub data_subs : List DataSub

abbrev pub new_element : MonitorElement
new_element = record { element_id = 0; datatype = 0; description = []; metric_name = [] }

abbrev pub new_type : MonitorType
new_type = record { type_id = 0; type_name = []; object_topic = []; elements = [] }

abbrev pub new_class : MonitorClass
new_class = record { class_id = 0; class_name = []; topic_string = []; types = [] }

abbrev pub new_monitor : Bytes → ResourceMonitor
new_monitor qmgr_name = record {
  qmgr_name = qmgr_name;
  classes = [];
  type_elements = [];
  data_subs = [];
}

abbrev pub type_key : Bytes → Bytes → Bytes
type_key class_name type_name = class_name ++ 47 ∷ type_name

-- `emap[id] = e`.
unfoldable pub set_element : ℕ → MonitorElement → ElementMap → ElementMap
set_element id e [] = (id, e) ∷ []
set_element id e ((k, old) ∷ emap) =
    let rest = set_element id e emap in if k == id then (k, e) ∷ emap else (k, old) ∷ rest

unfoldable pub find_element : ℕ → ElementMap → Option MonitorElement
find_element id [] = none
find_element id ((k, e) ∷ emap) =
    let rest = find_element id emap in if k == id then some e else rest

-- `type_elements_[key]` is made empty when it is missing, and then changed.
unfoldable pub update_type : Bytes → (ElementMap → ElementMap) → TypeElements → TypeElements
update_type key f [] = (key, f []) ∷ []
update_type key f ((k, emap) ∷ types) =
    let rest = update_type key f types in
    if is_same k key then (k, f emap) ∷ types else (k, emap) ∷ rest

unfoldable pub find_type : Bytes → TypeElements → Option ElementMap
find_type key [] = none
find_type key ((k, emap) ∷ types) =
    let rest = find_type key types in if is_same k key then some emap else rest
