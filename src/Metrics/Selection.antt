-- ===== src/Metrics/Selection.antt =====
-- What `MetricsCollector::get_queues_to_monitor` (src/metrics_collector.cpp) chooses.
use ibmmq_metrics_exporter.Base.{
  ◌≡◌, ◌≢◌, ◌⊎◌, inl, inr, refl, sym, ap, ◌∙◌, Bool, Bool-cases, true, false, not, ◌&&◌, ◌==◌, List,
  [], ◌∷◌, ◌++◌, append-nil, append_assoc, codes, is_nil, if◌then◌else◌, All, arith,
}
use ibmmq_metrics_exporter.Memory.{Bytes}
use ibmmq_metrics_exporter.Client.Exclusion.{matches_hlq_pattern, queue_matches_exclusion}
use ibmmq_metrics_exporter.Config.Records.{CollectorConfig}
use ibmmq_metrics_exporter.Collector.{is_negated}
use ibmmq_metrics_exporter.Metrics.{
  without_excluded, discover_monitored, fallback_queues, get_queues_to_monitor,
}

-- Some pattern matches the queue.
abbrev pub IsExcluded : List Bytes → Bytes → Type 0
IsExcluded [] q = ⊥
IsExcluded (p ∷ patterns) q = (matches_hlq_pattern q p ≡ true) ⊎ IsExcluded patterns q

-- No pattern matches it.
abbrev pub IsIncluded : List Bytes → Bytes → Type 0
IsIncluded patterns q = All (λ p. matches_hlq_pattern q p ≡ false) patterns

-- The second list has the queues of the first that no pattern matches, in their order.
pub data Leaves (patterns : List Bytes) : List Bytes → List Bytes → Type 0 where
  none_left : Leaves patterns [] []
  kept :
      {q : Bytes} {queues rest : List Bytes}
      → IsIncluded patterns q
      → Leaves patterns queues rest
      → Leaves patterns (q ∷ queues) (q ∷ rest)
  left_out :
      {q : Bytes} {queues rest : List Bytes}
      → IsExcluded patterns q
      → Leaves patterns queues rest
      → Leaves patterns (q ∷ queues) rest

exclusion-cases :
    (q : Bytes) (patterns : List Bytes)
    → ((queue_matches_exclusion q patterns ≡ true) × IsExcluded patterns q)
      ⊎ ((queue_matches_exclusion q patterns ≡ false) × IsIncluded patterns q)
unfolding queue_matches_exclusion
exclusion-cases q [] = inr (refl, tt)
exclusion-cases q (p ∷ patterns) = elim (Bool-cases (matches_hlq_pattern q p)) [
  | inl e ↦ inl (rw e, inl e)
  | inr e ↦ elim (exclusion-cases q patterns) [
    | inl (test, h) ↦ inl (rw (e, test), inr h)
    | inr (test, h) ↦ inr (rw (e, test), (e, h))
  ]
]

without_excluded-Leaves :
    (patterns queues : List Bytes) → Leaves patterns queues (without_excluded patterns queues)
unfolding without_excluded
without_excluded-Leaves patterns [] = none_left
without_excluded-Leaves patterns (q ∷ queues) = elim (exclusion-cases q patterns) [
  | inl (test, h) ↦ rw test (left_out h (without_excluded-Leaves patterns queues))
  | inr (test, h) ↦ rw test (kept h (without_excluded-Leaves patterns queues))
]

-- A pattern that begins with an exclamation mark.
abbrev pub is_marked : Bytes → Bool
is_marked [] = false
is_marked (c ∷ pattern) = c == 33

is_marked-is_negated : (pattern : Bytes) → is_marked pattern ≡ is_negated pattern
is_marked-is_negated [] = refl
is_marked-is_negated (c ∷ pattern) = refl

-- The two queues of the queue manager.
abbrev pub own_queues : List Bytes
own_queues = codes "SYSTEM.ADMIN.STATISTICS.QUEUE" ∷ codes "SYSTEM.ADMIN.ACCOUNTING.QUEUE" ∷ []

module _ {W : Type 0} (discover_queues : Bytes → W → List Bytes × W) where
  -- What is found for the patterns that are not marked, one after the other.
  abbrev pub discover_each : List Bytes → W → List Bytes × W
  discover_each [] w = ([], w)
  discover_each (pattern ∷ patterns) w =
      let (queues, w') = if is_marked pattern then ([], w) else discover_queues pattern w in
      let (later, w'') = discover_each patterns w' in (queues ++ later, w'')

  module _ (collector : CollectorConfig) (w : W) where
    abbrev pub IsAsked : Type 0
    IsAsked = (collector.monitor_all_queues ≡ true) ⊎ (collector.monitored_queues ≢ [])

    abbrev pub found : List Bytes × W
    found = discover_each collector.monitored_queues w

    -- All queues, as they are discovered after what the patterns have found.
    abbrev pub found_all : List Bytes × W
    found_all = discover_queues (codes "*") found.1

    -- What may be chosen, and when.
    pub data IsSelection (r : List Bytes × W) : Type 0 where
      not_asked :
          collector.monitor_all_queues ≡ false
          → collector.monitored_queues ≡ []
          → r ≡ ([], w)
          → IsSelection r
      of_patterns :
          IsAsked
          → found.0 ≢ []
          → Leaves collector.queue_exclusion_patterns found.0 r.0
          → r.1 ≡ found.1
          → IsSelection r
      of_all :
          IsAsked
          → found.0 ≡ []
          → found_all.0 ≢ []
          → Leaves collector.queue_exclusion_patterns found_all.0 r.0
          → r.1 ≡ found_all.1
          → IsSelection r
      of_none :
          IsAsked → found.0 ≡ [] → found_all.0 ≡ [] → r ≡ (own_queues, found_all.1) → IsSelection r

  monitored_step :
      (pattern : Bytes) (patterns all_queues : List Bytes) (w : W)
      → discover_monitored discover_queues (pattern ∷ patterns) all_queues w ≡ (
          if is_negated pattern
          then discover_monitored discover_queues patterns all_queues w
          else discover_monitored discover_queues patterns
              (all_queues ++ (discover_queues pattern w).0)
              (discover_queues pattern w).1)
  unfolding discover_monitored
  monitored_step pattern patterns all_queues w =
      let skipped = discover_monitored discover_queues patterns all_queues w in
      let asked =
        discover_monitored discover_queues patterns (all_queues ++ (discover_queues pattern w).0)
          (discover_queues pattern w).1 in
      elim (is_negated pattern)
        as (λ b. elim b [ true ↦ skipped | false ↦ asked ] ≡ (if b then skipped else asked)) [
          | true ↦ refl
          | false ↦ refl
        ]

  discover_monitored_lem :
      (patterns all_queues : List Bytes) (w : W)
      → discover_monitored discover_queues patterns all_queues w
        ≡ (all_queues ++ (discover_each patterns w).0, (discover_each patterns w).1)
  unfolding discover_monitored
  discover_monitored_lem [] all_queues w = ap (λ queues. (queues, w)) (sym (append-nil all_queues))
  discover_monitored_lem (pattern ∷ patterns) all_queues w =
      let (qs, w') = discover_queues pattern w in
      elim (Bool-cases (is_negated pattern)) [
        | inl marked ↦
            rw (monitored_step pattern patterns all_queues w, is_marked-is_negated pattern, marked)
              (discover_monitored_lem patterns all_queues w)
        | inr e ↦
            rw (monitored_step pattern patterns all_queues w, is_marked-is_negated pattern, e)
              (discover_monitored_lem patterns (all_queues ++ qs) w'
                ∙ ap (λ queues. (queues, (discover_each patterns w').1))
                    (append_assoc all_queues qs (discover_each patterns w').0))
      ]

  is_nil-cases :
      (queues : List Bytes)
      → ((is_nil queues ≡ true) × (queues ≡ [])) ⊎ ((is_nil queues ≡ false) × (queues ≢ []))
  is_nil-cases [] = inl (refl, refl)
  is_nil-cases (q ∷ queues) = inr (refl, λ e. absurd (ground arith))

  -- After the patterns have found nothing.
  fallback_lem :
      (collector : CollectorConfig) (w : W)
      → IsAsked collector w
      → (found collector w).0 ≡ []
      → IsSelection collector w
          (fallback_queues discover_queues collector.queue_exclusion_patterns (found collector w).1)
  unfolding fallback_queues
  fallback_lem collector w asked none =
      let all_queues = (found_all collector w).0 in
      elim (is_nil-cases all_queues) [
        | inl (e, empty) ↦ rw e (of_none asked none empty refl)
        | inr (e, full) ↦ rw e (
            of_all asked none full
              (without_excluded-Leaves collector.queue_exclusion_patterns all_queues) refl)
      ]

  asked-IsSelection :
      (collector : CollectorConfig) (w : W)
      → IsAsked collector w
      → not collector.monitor_all_queues && is_nil collector.monitored_queues ≡ false
      → IsSelection collector w (get_queues_to_monitor discover_queues collector w)
  unfolding get_queues_to_monitor
  asked-IsSelection collector w asked test =
      let queues = (found collector w).0 in
      let found_lem = discover_monitored_lem collector.monitored_queues [] w in
      elim (is_nil-cases queues) [
        | inl (e, empty) ↦ rw (test, found_lem, e) (fallback_lem collector w asked empty)
        | inr (e, full) ↦
            rw (test, found_lem, e)
              (of_patterns asked full
                (without_excluded-Leaves collector.queue_exclusion_patterns queues) refl)
      ]

  -- The choice is empty, and nothing is asked for, where all queues are not to be monitored and no
  -- pattern is given. Otherwise each pattern is asked for in its turn, but for those that begin
  -- with an exclamation mark: such a pattern is passed over, and excludes nothing. Where they find
  -- queues, the choice is those, in their order, that match none of `queue_exclusion_patterns`.
  -- Where they find none, all queues are asked for and chosen from in the same way, and where that
  -- finds none too, the choice is the queue manager's two own queues.
  pub get_queues_to_monitor-IsSelection :
      (collector : CollectorConfig) (w : W)
      → IsSelection collector w (get_queues_to_monitor discover_queues collector w)
  unfolding get_queues_to_monitor
  get_queues_to_monitor-IsSelection collector w = elim (Bool-cases collector.monitor_all_queues) [
    | inl all ↦ asked-IsSelection collector w (inl all) (rw all)
    | inr few ↦ elim (is_nil-cases collector.monitored_queues) [
      | inl (e, empty) ↦ not_asked few empty (rw (few, e))
      | inr (e, full) ↦ asked-IsSelection collector w (inr full) (rw (few, e))
    ]
  ]
