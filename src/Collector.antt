-- ===== src/Collector.antt =====
-- src/collector.cpp: the collector's loops, over what the client, the metrics collector, the
-- resource monitor, the clock and the other threads do, which is a parameter.
pub mod Stops
pub mod Start
use ibmmq_metrics_exporter.Base.{
  ℕ, zero, suc, ◌+◌, ◌-◌, ◌/◌, ◌%◌, ◌^◌, Bool, true, false, not, ◌&&◌, ◌||◌, List, [], ◌∷◌, ◌++◌,
  leb, ◌==◌, if◌then◌else◌, Option, none, some,
}
use ibmmq_metrics_exporter.Memory.{Bytes, is_pos, at_least}
use ibmmq_metrics_exporter.Config.Records.{Config}

-- What a call of `collect_metrics` comes to: it returns, or throws with the client still connected,
-- or throws without.
pub data Collected : Type 0 where
  collected failed broken : Collected

-- The members that the loops change. `has_monitor` is whether `resource_monitor_` is set, and
-- `last_rediscovery` is in nanoseconds.
pub record CollectorState : Type 0 where
  pub running : Bool
  pub cycle_count : ℕ
  pub total_collections : ℕ
  pub error_count : ℕ
  pub connected_once : Bool
  pub connected_qmgr : Bool
  pub collector_end : Bool
  pub first_collection : Bool
  pub has_monitor : Bool
  pub last_rediscovery : ℕ
  pub discovered_queues : List Bytes

abbrev pub new_collector : CollectorState
new_collector = record {
  running = false;
  cycle_count = 0;
  total_collections = 0;
  error_count = 0;
  connected_once = false;
  connected_qmgr = false;
  collector_end = false;
  first_collection = false;
  has_monitor = false;
  last_rediscovery = 0;
  discovered_queues = [];
}

-- The other parts, as the collector sees them. A call that may throw says whether it returned.
-- `stopped` is whether another thread has called `stop`, and `pause` sleeps for so many seconds, in
-- ticks, and says whether it was cut short by that.
pub record Parts (W : Type 0) : Type 0 where
  pub start_server : W → W
  pub connect : W → Bool × W
  pub open_stats_queue : Bytes → W → Bool × W
  pub open_accounting_queue : Bytes → W → Bool × W
  pub subscribe_to_topic : Bytes → W → W
  pub discover_queues : Bytes → W → List Bytes × W
  pub discover_monitor : Bytes → W → Bool × W
  pub create_subscriptions : List Bytes → W → Bool × W
  pub collect_metrics : W → Collected × W
  pub stopped : W → Bool × W
  pub pause : ℕ → W → Bool × W
  pub now : W → ℕ × W

-- What `stop` writes for the loops to see.
abbrev pub halt : CollectorState → CollectorState
halt s = record s { running = false; collector_end = true }

-- `pattern[0] == '!'`.
abbrev pub is_negated : Bytes → Bool
is_negated [] = false
is_negated (c ∷ pattern) = c == 33

-- The sum of two counters of 64 bits.
abbrev pub count_up : ℕ → ℕ
count_up n = (n + 1) % 2 ^ 64

-- What a call of `collect_metrics` leaves of the members.
unfoldable pub after_collect : Collected → CollectorState → CollectorState
after_collect collected s = record s {
  total_collections = count_up s.total_collections;
  first_collection = true;
}
after_collect failed s = record s { error_count = count_up s.error_count }
after_collect broken s = record s { error_count = count_up s.error_count; connected_qmgr = false }

module _ {W : Type 0} (parts : Parts W) (cfg : Config) where
  unfoldable pub try_connect : CollectorState → W → (Bool × CollectorState) × W
  try_connect s w =
      let (returned, w') = parts.connect w in
      if returned
      then ((true, record s { connected_qmgr = true; connected_once = true }), w')
      else ((false, record s { connected_qmgr = false }), w')

  abbrev pub subscribe_topics : List Bytes → W → W
  subscribe_topics [] w = w
  subscribe_topics (topic ∷ topics) w = subscribe_topics topics (parts.subscribe_to_topic topic w)

  -- The queues of each pattern that does not begin with an exclamation mark, behind those so far.
  unfoldable pub discover_patterns : List Bytes → List Bytes → W → List Bytes × W
  discover_patterns [] queues w = (queues, w)
  discover_patterns (pattern ∷ patterns) queues w = elim (is_negated pattern) [
    | true ↦ discover_patterns patterns queues w
    | false ↦
        let (qs, w') = parts.discover_queues pattern w in
        discover_patterns patterns (queues ++ qs) w'
  ]

  -- A monitor that discovers nothing, or throws, is dropped.
  unfoldable pub setup_monitor : CollectorState → W → CollectorState × W
  setup_monitor s w =
      let (found, w') = parts.discover_monitor cfg.mq.queue_manager w in
      if not found
      then (record s { has_monitor = false }, w')
      else let (returned, w'') = parts.create_subscriptions s.discovered_queues w' in
        (record s { has_monitor = returned }, w'')

  unfoldable pub setup_after_connect : CollectorState → W → CollectorState × W
  unfolding discover_patterns setup_monitor
  setup_after_connect s w =
      let (opened, w1) = parts.open_stats_queue cfg.collector.stats_queue w in
      let (opened', w2) = parts.open_accounting_queue cfg.collector.accounting_queue w1 in
      let w3 = subscribe_topics cfg.collector.monitored_topics w2 in
      let (queues, w4) = discover_patterns cfg.collector.monitored_queues s.discovered_queues w3 in
      let s' : CollectorState = record s { discovered_queues = queues } in
      let (s'', w5) = if cfg.collector.use_publications then setup_monitor s' w4 else (s', w4) in
      let (time, w6) = parts.now w5 in (record s'' { last_rediscovery = time }, w6)

  -- A cycle returns to its caller in every case.
  unfoldable pub collect_cycle : CollectorState → W → CollectorState × W
  unfolding after_collect
  collect_cycle s w = let (outcome, w') = parts.collect_metrics w in (after_collect outcome s, w')

  -- A look at `running_`, which another thread may have cleared.
  unfoldable pub poll : CollectorState → W → CollectorState × W
  poll s w = let (stopped, w') = parts.stopped w in (if stopped then halt s else s, w')

  unfoldable pub rediscover : CollectorState → W → CollectorState × W
  unfolding discover_patterns
  rediscover s w =
      if not (is_pos cfg.collector.rediscover_interval)
      then (s, w)
      else let (time, w') = parts.now w in
        if not (leb cfg.collector.rediscover_interval ((time - s.last_rediscovery) / 10 ^ 9))
        then (s, w')
        else let (queues, w'') = discover_patterns cfg.collector.monitored_queues [] w' in
          (record s { discovered_queues = queues; last_rediscovery = time }, w'')

  -- The cycle is counted, and the collector stops at the last one.
  unfoldable pub count_cycle : CollectorState → CollectorState
  count_cycle s =
      let n : ℕ = (s.cycle_count + 1) % 2 ^ 32 in
      if is_pos cfg.collector.max_cycles && at_least cfg.collector.max_cycles n
      then record s { cycle_count = n; running = false }
      else record s { cycle_count = n }

  -- A round of the loop of `run_continuous`, which ends it by clearing `running`.
  unfoldable pub continuous_round : CollectorState → W → CollectorState × W
  unfolding poll rediscover collect_cycle count_cycle
  continuous_round s w =
      let (s1, w1) = poll s w in
      if not s1.running
      then (s1, w1)
      else let (stopped, w2) = parts.pause cfg.collector.interval w1 in
        if stopped
        then (halt s1, w2)
        else let (s2, w3) = rediscover s1 w2 in
          let (s3, w4) = collect_cycle s2 w3 in (count_cycle s3, w4)

  -- The loop for `f` rounds; none where it still runs after them.
  unfoldable pub continuous_loop : ℕ → CollectorState → W → Option (CollectorState × W)
  continuous_loop zero s w = none
  continuous_loop (suc f) s w =
      let (s', w') = continuous_round s w in
      elim s'.running [ false ↦ some (s', w') | true ↦ continuous_loop f s' w' ]

  unfoldable pub run_continuous : ℕ → CollectorState → W → Option (CollectorState × W)
  unfolding continuous_loop continuous_round collect_cycle
  run_continuous f s w = let (s', w') = collect_cycle s w in continuous_loop f s' w'

  unfoldable pub run_once : CollectorState → W → CollectorState × W
  unfolding collect_cycle
  run_once s w = collect_cycle s w
