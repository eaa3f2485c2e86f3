-- ===== src/Monitor/Subscriptions.antt =====
-- `ResourceMonitor::create_subscriptions` and `close` (src/resource_monitor.cpp).
pub mod Balance
use ibmmq_metrics_exporter.Base.{
  ℕ, zero, suc, ◌+◌, Bool, true, false, not, ◌&&◌, List, [], ◌∷◌, ◌++◌, ltb, ◌==◌, if◌then◌else◌,
  Option, none, some, codes, is_nil, is_same,
}
use ibmmq_metrics_exporter.Memory.{Bytes}
use ibmmq_metrics_exporter.Pcf.Fold.{is_empty}
use ibmmq_metrics_exporter.Monitor.Records.{MonitorType, MonitorClass, ResourceMonitor, DataSub}

-- `topic.replace(topic.find("%s"), 2, q)`, or none if there is no `%s`.
unfoldable pub replace_queue : Bytes → Bytes → Option Bytes
replace_queue q [] = none
replace_queue q (c ∷ []) = none
replace_queue q (c ∷ d ∷ rest) =
    let later = replace_queue q (d ∷ rest) in
    if c == 37 && d == 115
    then some (q ++ rest)
    else elim later [ none ↦ none | some topic ↦ some (c ∷ topic) ]

-- The local `sub_count` and the member `data_subs_`, which the loops change.
pub record Subscribing : Type 0 where
  pub data_subs : List DataSub
  pub sub_count : ℕ

-- A subscription that is made is kept and counted.
unfoldable pub keep_made : Bytes → Bytes → Subscribing → Option (ℕ × ℕ) → Subscribing
keep_made class_name type_name s none = s
keep_made class_name type_name s (some (hobj, hsub)) = record {
  data_subs =
      s.data_subs
      ++ record { class_name = class_name; type_name = type_name; hobj = hobj; hsub = hsub } ∷ [];
  sub_count = suc s.sub_count;
}

-- The queue manager behind `MQClient::create_subscription`, which hands out the handles of an
-- object and of a subscription.
module _ {W : Type 0} (create_subscription : Bytes → W → Option (ℕ × ℕ) × W) where
  unfoldable pub subscribe : Bytes → Bytes → Bytes → Subscribing → W → Subscribing × W
  unfolding keep_made
  subscribe class_name type_name topic s w =
      let (made, w') = create_subscription topic w in (keep_made class_name type_name s made, w')

  -- A topic for each queue. Without a `%s` in the topic this is not called.
  unfoldable pub subscribe_queues :
      Bytes → Bytes → Bytes → List Bytes → Subscribing → W → Subscribing × W
  unfolding subscribe replace_queue
  subscribe_queues class_name type_name topic [] s w = (s, w)
  subscribe_queues class_name type_name topic (q ∷ queues) s w = elim (replace_queue q topic) [
    | none ↦ (s, w)
    | some t ↦
        let (s', w') = subscribe class_name type_name t s w in
        subscribe_queues class_name type_name topic queues s' w'
  ]

  unfoldable pub subscribe_type :
      Bytes → List Bytes → MonitorType → Subscribing → W → Subscribing × W
  unfolding subscribe subscribe_queues replace_queue
  subscribe_type class_name queues type s w =
      if is_empty type.object_topic then (s, w) else elim (replace_queue [] type.object_topic) [
        | none ↦ subscribe class_name type.type_name type.object_topic s w
        | some t ↦ subscribe_queues class_name type.type_name type.object_topic queues s w
      ]

  unfoldable pub subscribe_types :
      Bytes → List Bytes → List MonitorType → Subscribing → W → Subscribing × W
  unfolding subscribe_type
  subscribe_types class_name queues [] s w = (s, w)
  subscribe_types class_name queues (type ∷ types) s w =
      let (s', w') = subscribe_type class_name queues type s w in
      subscribe_types class_name queues types s' w'

  -- The statistics of applications are left out: their topics are not named after queues.
  unfoldable pub subscribe_classes :
      List Bytes → List MonitorClass → Subscribing → W → Subscribing × W
  unfolding subscribe_types
  subscribe_classes queues [] s w = (s, w)
  subscribe_classes queues (cls ∷ classes) s w =
      let (s', w') =
        if is_same cls.class_name (codes "STATAPP")
        then (s, w)
        else subscribe_types cls.class_name queues cls.types s w in
      subscribe_classes queues classes s' w'

  unfoldable pub create_subscriptions :
      List Bytes → ResourceMonitor → W → (Bool × ResourceMonitor) × W
  unfolding subscribe_classes
  create_subscriptions queues m w =
      if is_nil m.classes
      then ((false, m), w)
      else let (s, w') =
          subscribe_classes queues m.classes (record { data_subs = m.data_subs; sub_count = 0 })
            w in
        ((ltb 0 s.sub_count, record m { data_subs = s.data_subs }), w')

-- The queue manager behind `MQClient::close_subscription`.
module _ {W : Type 0} (close_subscription : ℕ → ℕ → W → W) where
  unfoldable pub close_all : List DataSub → W → W
  close_all [] w = w
  close_all (sub ∷ subs) w = close_all subs (close_subscription sub.hsub sub.hobj w)

  unfoldable pub close : ResourceMonitor → W → ResourceMonitor × W
  unfolding close_all
  close m w =
      (record m { data_subs = []; type_elements = []; classes = [] }, close_all m.data_subs w)
