-- ===== src/Monitor/Subscriptions/Balance.antt =====
-- The subscriptions that `ResourceMonitor` (src/resource_monitor.cpp) opens and closes.
use ibmmq_metrics_exporter.Base.{
  ℕ, zero, suc, false, ◌+◌, ◌-◌, ◌≤◌, ◌≡◌, refl, ◌∙◌, List, [], ◌∷◌, length, length-append, ◌++◌,
  ◌&&◌, ◌==◌, ltb, if◌then◌else◌, Option, none, some, codes, is_same, arith,
}
use ibmmq_metrics_exporter.Memory.{Bytes}
use ibmmq_metrics_exporter.Monitor.Records.{MonitorType, MonitorClass, ResourceMonitor, DataSub}
use ibmmq_metrics_exporter.Monitor.Subscriptions.{
  Subscribing, keep_made, replace_queue, subscribe, subscribe_queues, subscribe_type,
  subscribe_types, subscribe_classes, create_subscriptions, close_all, close,
}

-- Whether the first pair of handles is the second.
abbrev pub same : ℕ → ℕ → ℕ → ℕ → ℕ
same hobj hsub o t = if hobj == o && hsub == t then 1 else 0

-- How many of the subscriptions in a list have the handles `o` and `t`.
abbrev pub listed : ℕ → ℕ → List DataSub → ℕ
listed o t [] = 0
listed o t (sub ∷ subs) = same sub.hobj sub.hsub o t + listed o t subs

listed-append :
    (o t : ℕ) (subs later : List DataSub)
    → listed o t (subs ++ later) ≡ listed o t subs + listed o t later
listed-append o t [] later = omega arith
listed-append o t (sub ∷ subs) later = omega (arith, listed-append o t subs later)

-- What the client promises of the subscriptions that are open at the queue manager, `opened o t` being
-- how many have the handles `o` and `t`: one more of those that it hands out, no change where it
-- hands out none, and one less, if there is one, of those that it is told to close. Told to close the
-- handles 0 and 0 it does nothing, and no open subscription has these.
pub record Counts {W : Type 0} (create_subscription : Bytes → W → Option (ℕ × ℕ) × W)
    (close_subscription : ℕ → ℕ → W → W) (opened : ℕ → ℕ → W → ℕ) : Type 0 where
  pub created :
      (topic : Bytes) (w : W) (hobj hsub o t : ℕ)
      → (create_subscription topic w).0 ≡ some (hobj, hsub)
      → opened o t (create_subscription topic w).1 ≡ opened o t w + same hobj hsub o t
  pub refused :
      (topic : Bytes) (w : W) (o t : ℕ)
      → (create_subscription topic w).0 ≡ none
      → opened o t (create_subscription topic w).1 ≡ opened o t w
  pub closed :
      (hsub hobj : ℕ) (w : W) (o t : ℕ)
      → (hobj == 0 && hsub == 0) ≡ false
      → opened o t (close_subscription hsub hobj w) ≡ opened o t w - same hobj hsub o t
  pub closed_none : (w : W) (o t : ℕ) → opened o t (close_subscription 0 0 w) ≡ opened o t w
  pub none_at_0 : (w : W) → opened 0 0 w ≡ 0

-- Nothing is lost where nothing is at the handles 0 and 0.
without_0 : (f : ℕ → ℕ → ℕ) → f 0 0 ≡ 0 → (o t : ℕ) → f o t ≡ f o t - same 0 0 o t
without_0 f h zero zero = omega (arith, h)
without_0 f h zero (suc t) = ground arith
without_0 f h (suc o) t = ground arith

-- What holds of both results of a split on an option holds of the split.
either_case {ℓ κ μ} :
    {A : Type ℓ} {B : Type κ} (P : B → Type μ) (o : Option A) (b : B) (f : A → B)
    → P b
    → ((a : A) → P (f a))
    → P (elim o [ none ↦ b | some a ↦ f a ])
either_case P none b f h k = h
either_case P (some a) b f h k = k a

module _ {W : Type 0} (create_subscription : Bytes → W → Option (ℕ × ℕ) × W)
    (close_subscription : ℕ → ℕ → W → W) (opened : ℕ → ℕ → W → ℕ)
    (counts : Counts create_subscription close_subscription opened) (o t : ℕ) where
  -- Those are opened that are kept, and they are counted.
  abbrev Balanced : Subscribing → W → Subscribing × W → Type 0
  Balanced s w (s', w') =
      (opened o t w' + listed o t s.data_subs ≡ opened o t w + listed o t s'.data_subs)
      × (s'.sub_count + length s.data_subs ≡ s.sub_count + length s'.data_subs)

  Balanced-trans :
      (s : Subscribing) (w : W) (r r' : Subscribing × W)
      → Balanced s w r
      → Balanced r.0 r.1 r'
      → Balanced s w r'
  Balanced-trans s w r r' h k = (omega (arith, h.0, k.0), omega (arith, h.1, k.1))

  Balanced-same : (s : Subscribing) (w : W) → Balanced s w (s, w)
  Balanced-same s w = (refl, refl)

  keep_made-Balanced :
      (class_name type_name topic : Bytes) (s : Subscribing) (w : W) (made : Option (ℕ × ℕ))
      → (create_subscription topic w).0 ≡ made
      → Balanced s w (keep_made class_name type_name s made, (create_subscription topic w).1)
  unfolding keep_made
  keep_made-Balanced class_name type_name topic s w none h =
      (omega (arith, counts.refused topic w o t h), refl)
  keep_made-Balanced class_name type_name topic s w (some (hobj, hsub)) h =
      let made : List DataSub =
        record { class_name = class_name; type_name = type_name; hobj = hobj; hsub = hsub } ∷ [] in
      (
        omega (arith, counts.created topic w hobj hsub o t h, listed-append o t s.data_subs made),
        omega (arith, length-append s.data_subs made),
      )

  subscribe-Balanced :
      (class_name type_name topic : Bytes) (s : Subscribing) (w : W)
      → Balanced s w (subscribe create_subscription class_name type_name topic s w)
  unfolding subscribe
  subscribe-Balanced class_name type_name topic s w =
      keep_made-Balanced class_name type_name topic s w (create_subscription topic w).0 refl

  subscribe_queues-Balanced :
      (class_name type_name topic : Bytes) (queues : List Bytes) (s : Subscribing) (w : W)
      → Balanced s w (subscribe_queues create_subscription class_name type_name topic queues s w)
  unfolding subscribe_queues
  subscribe_queues-Balanced class_name type_name topic [] s w = Balanced-same s w
  subscribe_queues-Balanced class_name type_name topic (q ∷ queues) s w =
      either_case (Balanced s w) (replace_queue q topic) (s, w) _ (Balanced-same s w)
        (λ t.
          let r = subscribe create_subscription class_name type_name t s w in
          Balanced-trans s w r
            (subscribe_queues create_subscription class_name type_name topic queues r.0 r.1)
            (subscribe-Balanced class_name type_name t s w)
            (subscribe_queues-Balanced class_name type_name topic queues r.0 r.1))

  subscribe_type-Balanced :
      (class_name : Bytes) (queues : List Bytes) (type : MonitorType) (s : Subscribing) (w : W)
      → Balanced s w (subscribe_type create_subscription class_name queues type s w)
  unfolding subscribe_type
  subscribe_type-Balanced class_name queues type s w = ground (
    arith,
    Balanced-same s w,
    either_case (Balanced s w) (replace_queue [] type.object_topic)
        (subscribe create_subscription class_name type.type_name type.object_topic s w)
        (λ t.
          subscribe_queues create_subscription class_name type.type_name type.object_topic queues s
            w)
        (subscribe-Balanced class_name type.type_name type.object_topic s w)
        (λ t. subscribe_queues-Balanced class_name type.type_name type.object_topic queues s w),
  )

  subscribe_types-Balanced :
      (class_name : Bytes) (queues : List Bytes) (types : List MonitorType) (s : Subscribing)
      (w : W)
      → Balanced s w (subscribe_types create_subscription class_name queues types s w)
  unfolding subscribe_types
  subscribe_types-Balanced class_name queues [] s w = Balanced-same s w
  subscribe_types-Balanced class_name queues (type ∷ types) s w =
      let r = subscribe_type create_subscription class_name queues type s w in
      Balanced-trans s w r (subscribe_types create_subscription class_name queues types r.0 r.1)
        (subscribe_type-Balanced class_name queues type s w)
        (subscribe_types-Balanced class_name queues types r.0 r.1)

  subscribe_classes-Balanced :
      (queues : List Bytes) (classes : List MonitorClass) (s : Subscribing) (w : W)
      → Balanced s w (subscribe_classes create_subscription queues classes s w)
  unfolding subscribe_classes
  subscribe_classes-Balanced queues [] s w = Balanced-same s w
  subscribe_classes-Balanced queues (cls ∷ classes) s w =
      let r =
        if is_same cls.class_name (codes "STATAPP")
        then (s, w)
        else subscribe_types create_subscription cls.class_name queues cls.types s w in
      Balanced-trans s w r (subscribe_classes create_subscription queues classes r.0 r.1)
        (ground
          (arith, Balanced-same s w, subscribe_types-Balanced cls.class_name queues cls.types s w))
        (subscribe_classes-Balanced queues classes r.0 r.1)

  close_one :
      (hsub hobj : ℕ) (w : W)
      → opened o t (close_subscription hsub hobj w) ≡ opened o t w - same hobj hsub o t
  close_one zero zero w =
      counts.closed_none w o t ∙ without_0 (λ o t. opened o t w) (counts.none_at_0 w) o t
  close_one (suc hsub) hobj w = counts.closed (suc hsub) hobj w o t (ground arith)
  close_one zero (suc hobj) w = counts.closed 0 (suc hobj) w o t (ground arith)

  close_all-opened :
      (subs : List DataSub) (w : W)
      → opened o t (close_all close_subscription subs w) ≡ opened o t w - listed o t subs
  unfolding close_all
  close_all-opened [] w = omega arith
  close_all-opened (sub ∷ subs) w = omega (
    arith,
    close_all-opened subs (close_subscription sub.hsub sub.hobj w),
    close_one sub.hsub sub.hobj w,
  )

  create_subscriptions-Balanced :
      (queues : List Bytes) (m : ResourceMonitor) (w : W)
      → (let r = create_subscriptions create_subscription queues m w in
          (r.0.0 ≡ ltb (length m.data_subs) (length r.0.1.data_subs))
          × (opened o t r.1 + listed o t m.data_subs ≡ opened o t w + listed o t r.0.1.data_subs))
  unfolding create_subscriptions
  create_subscriptions-Balanced queues m w =
      let start : Subscribing = record { data_subs = m.data_subs; sub_count = 0 } in
      ground (arith, subscribe_classes-Balanced queues m.classes start w)

  -- No subscription leaks. With a client that counts as `Counts` says, and of any two handles as many
  -- open at first as the list has at least: creating subscriptions says true exactly if the list
  -- grew, and behind it as many are open, of the two handles, as the list gained; closing then
  -- empties the list and leaves as many open, of the two handles, as at first, less those that the
  -- list had then.
  pub close-create_subscriptions :
      (queues : List Bytes) (m : ResourceMonitor) (w : W)
      → listed o t m.data_subs ≤ opened o t w
      → (let r = create_subscriptions create_subscription queues m w in
          (r.0.0 ≡ ltb (length m.data_subs) (length r.0.1.data_subs))
          × (opened o t r.1 + listed o t m.data_subs ≡ opened o t w + listed o t r.0.1.data_subs)
          × ((close close_subscription r.0.1 r.1).0.data_subs ≡ [])
          × (opened o t (close close_subscription r.0.1 r.1).1 + listed o t m.data_subs
              ≡ opened o t w))
  unfolding close
  close-create_subscriptions queues m w h =
      let r = create_subscriptions create_subscription queues m w in
      let balanced = create_subscriptions-Balanced queues m w in
      (
        balanced.0,
        balanced.1,
        refl,
        omega (arith, balanced.1, close_all-opened r.0.1.data_subs r.1),
      )
