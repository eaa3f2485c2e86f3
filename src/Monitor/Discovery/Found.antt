-- ===== src/Monitor/Discovery/Found.antt =====
-- `ResourceMonitor::discover` (src/resource_monitor.cpp) ends and leaves a well-formed monitor.
use ibmmq_metrics_exporter.Base.{
  ◌^◌, ◌≤◌, ◌<◌, ◌≡◌, ◌≢◌, refl, sym, Bool, true, false, not, List, [], ◌∷◌, ◌++◌, length,
  if◌then◌else◌, Option, none, some, All, ap, is_nil, length-is_nil, arith,
}
use mathlib.Core.Path.{subst}
use ibmmq_metrics_exporter.Memory.{Result, ok, ◌>>=◌, Bytes}
use ibmmq_metrics_exporter.Memory.Reads.{
  Returns, Returns-bind, Ensures, Ensures-bind, Ensures-if, Ensures-Returns,
}
use ibmmq_metrics_exporter.Pcf.Fold.{is_empty}
use ibmmq_metrics_exporter.Monitor.Params.{PcfParam, message_params}
use ibmmq_metrics_exporter.Monitor.Params.Safety.{message_params-Returns}
use ibmmq_metrics_exporter.Monitor.Records.{
  MonitorType, MonitorClass, ResourceMonitor, new_type, new_class,
}
use ibmmq_metrics_exporter.Monitor.Discovery.{
  set_type_field, classes_topic, set_class_field, group_fields, body_params, get_params,
  discover_elements, type_step, types_loop, discover_types, class_step, classes_loop,
  discover_classes, discover,
}
use ibmmq_metrics_exporter.Monitor.Discovery.{index_classes}
use ibmmq_metrics_exporter.Monitor.Discovery.Shape.{
  IsElement, IsType, IsClass, Kept, TypedAs, add_elements-Kept, type_fields-elements,
  class_fields-types, add_type-TypedAs, append_found-IsClass,
}
use ibmmq_metrics_exporter.Monitor.Discovery.Index.{IsDiscovered, index_classes-IsIndexed}

pub body_params-Returns :
    (whole_header : Bool) (body : Bytes)
    → length body < 2 ^ 63
    → Returns (body_params whole_header body)
unfolding body_params
body_params-Returns whole_header body h = ground (
  arith,
  λ (k : 36 ≤ length body).
      Returns-bind (message_params whole_header body (length body)) (λ params. ok (some params))
        (message_params-Returns whole_header body k h) (λ params e. tt),
)

reply-Returns {ℓ} :
    {W : Type ℓ} (r : Option Bytes × W) (whole_header : Bool)
    → ((body : Bytes) → r.0 ≡ some body → length body < 2 ^ 63)
    → Returns {A = Option (List PcfParam) × W} (elim r.0 [
      | none ↦ ok (none, r.1)
      | some body ↦ body_params whole_header body >>= (λ found. ok (found, r.1))
    ])
reply-Returns (none, w') whole_header h = tt
reply-Returns (some body, w') whole_header h =
    Returns-bind (body_params whole_header body) (λ found. ok (found, w'))
      (body_params-Returns whole_header body (h body refl)) (λ found e. tt)

either_found {ℓ κ} :
    {A : Type ℓ} {W : Type 0} (P : Option A × W → Type κ)
    → ((w : W) → P (none, w))
    → ((a : A) (w : W) → P (some a, w))
    → (r : Option A × W) → P r
either_found P h k (none, w) = h w
either_found P h k (some a, w) = k a w

module _ {W : Type 0} (subscribe_and_get : Bytes → W → Option Bytes × W) where
  -- A message is an object in memory.
  abbrev pub RepliesFit : Type 0
  RepliesFit =
      (topic : Bytes) (w : W) (body : Bytes)
      → (subscribe_and_get topic w).0 ≡ some body
      → length body < 2 ^ 63

  get_params-Ensures :
      RepliesFit
      → (whole_header : Bool) (topic : Bytes) (w : W)
      → Ensures (λ r. Unit {0}) (get_params subscribe_and_get whole_header topic w)
  unfolding get_params
  get_params-Ensures fit whole_header topic w =
      Ensures-Returns (get_params subscribe_and_get whole_header topic w)
        (reply-Returns (subscribe_and_get topic w) whole_header (fit topic w))

  -- Reading the parameters at a topic promises nothing of them.
  get_params-then {κ} :
      {B : Type κ} (Q : B → Type 0)
      → RepliesFit
      → (whole_header : Bool) (topic : Bytes) (w : W) → (f : Option (List PcfParam) × W → Result B)
      → ((w' : W) → Ensures Q (f (none, w')))
      → ((params : List PcfParam) (w' : W) → Ensures Q (f (some params, w')))
      → Ensures Q (get_params subscribe_and_get whole_header topic w >>= f)
  get_params-then Q fit whole_header topic w f h k =
      Ensures-bind (λ r. Unit {0}) Q (get_params subscribe_and_get whole_header topic w) f
        (get_params-Ensures fit whole_header topic w)
        (λ found t. either_found (λ r. Ensures Q (f r)) h k found)

  discover_elements-Kept :
      RepliesFit
      → (mtype : MonitorType) (elements_topic : Bytes) (w : W) → All IsElement mtype.elements
      → Ensures
          (λ (r : MonitorType × W). Kept mtype r.0)
          (discover_elements subscribe_and_get mtype elements_topic w)
  unfolding discover_elements
  discover_elements-Kept fit mtype elements_topic w h =
      get_params-then (λ (r : MonitorType × W). Kept mtype r.0) fit false elements_topic w _
        (λ w'. (refl, h)) (λ params w'. add_elements-Kept params mtype h)

  type_step-TypedAs :
      RepliesFit
      → (name : Bytes) (cls : MonitorClass) (p : PcfParam) (w : W) → TypedAs name cls
      → Ensures (λ (r : MonitorClass × W). TypedAs name r.0) (type_step subscribe_and_get cls p w)
  unfolding type_step
  type_step-TypedAs fit name cls p w h =
      let read = group_fields set_type_field (new_type, []) p.group_params in
      let none_yet = type_fields-elements p.group_params (new_type, []) refl in
      ground (
        arith,
        λ (n : is_empty read.0.type_name ≡ false).
            Ensures-bind (λ (r : MonitorType × W). Kept read.0 r.0)
              (λ (r : MonitorClass × W). TypedAs name r.0)
              (discover_elements subscribe_and_get read.0 read.1 w)
              (λ (mtype, w'). ok (
                if is_nil mtype.elements
                    then cls
                    else record cls { types = cls.types ++ mtype ∷ [] },
                w',
              ))
              (discover_elements-Kept fit read.0 read.1 w (subst (All IsElement) (sym none_yet) tt))
              (λ r k. add_type-TypedAs name cls read.0 r.0 n h k),
      )

  types_loop-TypedAs :
      RepliesFit
      → (name : Bytes) (params : List PcfParam) (cls : MonitorClass) (w : W) → TypedAs name cls
      → Ensures
          (λ (r : MonitorClass × W). TypedAs name r.0)
          (types_loop subscribe_and_get params cls w)
  unfolding types_loop
  types_loop-TypedAs fit name [] cls w h = h
  types_loop-TypedAs fit name (p ∷ params) cls w h =
      Ensures-bind (λ (r : MonitorClass × W). TypedAs name r.0)
        (λ (r : MonitorClass × W). TypedAs name r.0) (type_step subscribe_and_get cls p w) _
        (type_step-TypedAs fit name cls p w h) (λ r k. types_loop-TypedAs fit name params r.0 r.1 k)

  -- What `discover_types` returns: a class that has types if it says so.
  abbrev FoundTypes : Bytes → (Bool × MonitorClass) × W → Type 0
  FoundTypes name ((has_types, cls), w) = (has_types ≡ not (is_nil cls.types)) × TypedAs name cls

  discover_types-FoundTypes :
      RepliesFit
      → (cls : MonitorClass) (w : W) → cls.types ≡ []
      → Ensures (FoundTypes cls.class_name) (discover_types subscribe_and_get cls w)
  unfolding discover_types
  discover_types-FoundTypes fit cls w h =
      let start : TypedAs cls.class_name cls = (refl, subst (All IsType) (sym h) tt) in
      let nothing : (false ≡ not (is_nil cls.types)) × TypedAs cls.class_name cls =
        (ap (λ ts. not (is_nil ts)) (sym h), start) in
      Ensures-if (FoundTypes cls.class_name) (is_empty cls.topic_string) _ _ nothing (
        get_params-then (FoundTypes cls.class_name) fit false cls.topic_string w _ (λ w'. nothing)
          (λ params w'.
            Ensures-bind (λ (r : MonitorClass × W). TypedAs cls.class_name r.0)
              (FoundTypes cls.class_name) (types_loop subscribe_and_get params cls w') _
              (types_loop-TypedAs fit cls.class_name params cls w' start) (λ r k. (refl, k))))

  class_step-IsClass :
      RepliesFit
      → (classes : List MonitorClass) (p : PcfParam) (w : W) → All IsClass classes
      → Ensures
          (λ (r : List MonitorClass × W). All IsClass r.0)
          (class_step subscribe_and_get classes p w)
  unfolding class_step
  class_step-IsClass fit classes p w h =
      let cls = group_fields set_class_field new_class p.group_params in
      ground (
        arith,
        λ (n : is_empty cls.class_name ≡ false).
            Ensures-bind (FoundTypes cls.class_name)
              (λ (r : List MonitorClass × W). All IsClass r.0)
              (discover_types subscribe_and_get cls w)
              (λ ((has_types, cls'), w').
                ok (if has_types then classes ++ cls' ∷ [] else classes, w'))
              (discover_types-FoundTypes fit cls w
                (class_fields-types p.group_params new_class refl))
              (λ r k. append_found-IsClass classes cls.class_name r.0 n h k),
      )

  classes_loop-IsClass :
      RepliesFit
      → (params : List PcfParam) (classes : List MonitorClass) (w : W) → All IsClass classes
      → Ensures
          (λ (r : List MonitorClass × W). All IsClass r.0)
          (classes_loop subscribe_and_get params classes w)
  unfolding classes_loop
  classes_loop-IsClass fit [] classes w h = h
  classes_loop-IsClass fit (p ∷ params) classes w h =
      Ensures-bind (λ (r : List MonitorClass × W). All IsClass r.0)
        (λ (r : List MonitorClass × W). All IsClass r.0) (class_step subscribe_and_get classes p w)
        _ (class_step-IsClass fit classes p w h) (λ r k. classes_loop-IsClass fit params r.0 r.1 k)

  -- What a discovery hands on: a well-formed monitor, with a class at least if it succeeded.
  abbrev pub Discovered : (Bool × ResourceMonitor) × W → Type 0
  Discovered ((found, m), w) = (found ≡ true → length m.classes ≢ 0) × IsDiscovered m

  discover_classes-Discovered :
      RepliesFit
      → (m : ResourceMonitor) (w : W) → IsDiscovered m
      → Ensures Discovered (discover_classes subscribe_and_get m w)
  unfolding discover_classes
  discover_classes-Discovered fit m w h =
      get_params-then Discovered fit true (classes_topic m.qmgr_name) w _
        (λ w'. (λ e. absurd (ground arith), h))
        (λ params w'.
          Ensures-bind (λ (r : List MonitorClass × W). All IsClass r.0) Discovered
            (classes_loop subscribe_and_get params m.classes w') _
            (classes_loop-IsClass fit params m.classes w' h.classes)
            (λ r k.
              (λ e. length-is_nil r.0 (ground arith), record { classes = k; indexed = h.indexed })))

  -- Whatever the queue manager answers, if no message is of 2^63 bytes or more, a discovery ends
  -- without a fault (or `std::string` refuses a length), and if the monitor was so before, it
  -- leaves classes that have a name and types, types that have a name and elements, elements that
  -- have an id other than 0 and the metric name of their description, and maps that lead from an
  -- id to such an element; if it says that it succeeded, there is a class.
  pub discover-Discovered :
      RepliesFit
      → (m : ResourceMonitor) (w : W) → IsDiscovered m
      → Ensures Discovered (discover subscribe_and_get m w)
  unfolding discover
  discover-Discovered fit m w h =
      Ensures-bind Discovered Discovered (discover_classes subscribe_and_get m w) _
        (discover_classes-Discovered fit m w h)
        (λ r k.
          let indexed =
            index_classes-IsIndexed r.0.1.classes r.0.1.type_elements k.1.classes k.1.indexed in
          let done : IsDiscovered
              (record r.0.1 { type_elements = index_classes r.0.1.classes r.0.1.type_elements }) =
            record { classes = k.1.classes; indexed = indexed } in
          ground (arith, k.0, k.1, done))
