-- ===== src/Monitor/Discovery/Index.antt =====
-- The maps that `ResourceMonitor::discover` (src/resource_monitor.cpp) builds from its classes.
use ibmmq_metrics_exporter.Base.{
  ℕ, ◌≡◌, refl, true, List, [], ◌∷◌, ◌==◌, All, Option, none, some, arith,
}
use ibmmq_metrics_exporter.Memory.{Bytes}
use ibmmq_metrics_exporter.Monitor.Records.{
  MonitorElement, MonitorType, MonitorClass, ResourceMonitor, ElementMap, TypeElements, type_key,
  set_element, find_element, update_type, find_type,
}
use ibmmq_metrics_exporter.Monitor.Discovery.{index_elements, index_types, index_classes}
use ibmmq_metrics_exporter.Monitor.Discovery.Shape.{IsElement, IsType, IsClass}

-- An id leads to an element that has it.
abbrev pub IsEntry : ℕ × MonitorElement → Type 0
IsEntry (id, e) = (e.element_id ≡ id) × IsElement e

abbrev pub IsIndexed : TypeElements → Type 0
IsIndexed types = All (λ (t : Bytes × ElementMap). All IsEntry t.1) types

pub record IsDiscovered (m : ResourceMonitor) : Type 0 where
  pub classes : All IsClass m.classes
  pub indexed : IsIndexed m.type_elements

set_element-IsEntry :
    (id : ℕ) (e : MonitorElement) (emap : ElementMap)
    → IsEntry (id, e)
    → All IsEntry emap
    → All IsEntry (set_element id e emap)
unfolding set_element
set_element-IsEntry id e [] h k = (h, tt)
set_element-IsEntry id e ((i, old) ∷ emap) h k =
    let moved : (i == id) ≡ true → IsEntry (i, e) = λ same. (ground arith, h.1) in
    ground (arith, moved, k, set_element-IsEntry id e emap h k.1)

update_type-IsIndexed :
    (key : Bytes) (f : ElementMap → ElementMap) (types : TypeElements)
    → ((emap : ElementMap) → All IsEntry emap → All IsEntry (f emap))
    → IsIndexed types
    → IsIndexed (update_type key f types)
unfolding update_type
update_type-IsIndexed key f [] h k = (h [] tt, tt)
update_type-IsIndexed key f ((i, emap) ∷ types) h k =
    ground (arith, h emap k.0, k.0, k.1, update_type-IsIndexed key f types h k.1)

index_elements-IsEntry :
    (elements : List MonitorElement) (emap : ElementMap)
    → All IsElement elements
    → All IsEntry emap
    → All IsEntry (index_elements elements emap)
index_elements-IsEntry [] emap h k = k
index_elements-IsEntry (e ∷ elements) emap h k =
    index_elements-IsEntry elements (set_element e.element_id e emap) h.1
      (set_element-IsEntry e.element_id e emap (refl, h.0) k)

index_types-IsIndexed :
    (class_name : Bytes) (ts : List MonitorType) (types : TypeElements)
    → All IsType ts
    → IsIndexed types
    → IsIndexed (index_types class_name ts types)
index_types-IsIndexed class_name [] types h k = k
index_types-IsIndexed class_name (t ∷ ts) types h k =
    let key = type_key class_name t.type_name in
    index_types-IsIndexed class_name ts (update_type key (index_elements t.elements) types) h.1 (
      update_type-IsIndexed key (index_elements t.elements) types
        (λ emap e. index_elements-IsEntry t.elements emap h.0.elements e) k)

pub index_classes-IsIndexed :
    (classes : List MonitorClass) (types : TypeElements)
    → All IsClass classes
    → IsIndexed types
    → IsIndexed (index_classes classes types)
index_classes-IsIndexed [] types h k = k
index_classes-IsIndexed (cls ∷ classes) types h k =
    index_classes-IsIndexed classes (index_types cls.class_name cls.types types) h.1
      (index_types-IsIndexed cls.class_name cls.types types h.0.types k)

-- What is found in a map is in it.
abbrev pub OnSome {ℓ} : {A : Type ℓ} → (A → Type 0) → Option A → Type 0
OnSome P none = Unit {0}
OnSome P (some a) = P a

pub find_type-IsEntry :
    (key : Bytes) (types : TypeElements)
    → IsIndexed types
    → OnSome (All IsEntry) (find_type key types)
unfolding find_type
find_type-IsEntry key [] h = tt
find_type-IsEntry key ((i, emap) ∷ types) h = ground (arith, h.0, find_type-IsEntry key types h.1)

pub find_element-IsEntry :
    (id : ℕ) (emap : ElementMap)
    → All IsEntry emap
    → OnSome (λ e. IsEntry (id, e)) (find_element id emap)
unfolding find_element
find_element-IsEntry id [] h = tt
find_element-IsEntry id ((i, e) ∷ emap) h =
    let moved : (i == id) ≡ true → IsEntry (id, e) = λ same. (ground (arith, h.0.0), h.0.1) in
    ground (arith, moved, find_element-IsEntry id emap h.1)
