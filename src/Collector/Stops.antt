-- ===== src/Collector/Stops.antt =====
-- When the loop of `Collector::run_continuous` (src/collector.cpp) ends, and how.
use ibmmq_metrics_exporter.Base.{
  ℕ, zero, suc, ◌+◌, ◌<◌, ◌≤◌, ◌≡◌, refl, true, false, Option, none, some, arith,
}
use ibmmq_metrics_exporter.Memory.{is_pos}
use ibmmq_metrics_exporter.Config.Records.{Config}
use ibmmq_metrics_exporter.Collector.{
  Collected, collected, failed, broken, CollectorState, Parts, after_collect, poll, rediscover,
  collect_cycle, count_cycle, continuous_round, continuous_loop, run_continuous,
}

-- The loop ended, and the collector does not run any more.
abbrev pub HasStopped {ℓ} : {W : Type ℓ} → Option (CollectorState × W) → Type 0
HasStopped none = ⊥
HasStopped (some (s, w)) = s.running ≡ false

-- If the loop ended, the collector does not run any more.
abbrev pub StopsIfEnded {ℓ} : {W : Type ℓ} → Option (CollectorState × W) → Type 0
StopsIfEnded none = Unit {0}
StopsIfEnded (some (s, w)) = s.running ≡ false

after_collect-count :
    (outcome : Collected) (s : CollectorState)
    → (after_collect outcome s).cycle_count ≡ s.cycle_count
unfolding after_collect
after_collect-count collected s = refl
after_collect-count failed s = refl
after_collect-count broken s = refl

module _ {W : Type 0} (parts : Parts W) (cfg : Config) where
  -- The loop goes on with the collector running, and ends without.
  round-StopsIfEnded :
      (r : CollectorState × W) (rest : Option (CollectorState × W))
      → StopsIfEnded rest
      → StopsIfEnded (elim r.0.running [ false ↦ some (r.0, r.1) | true ↦ rest ])
  round-StopsIfEnded r rest h = ground (arith, h)

  continuous_loop-StopsIfEnded :
      (f : ℕ) (s : CollectorState) (w : W) → StopsIfEnded (continuous_loop parts cfg f s w)
  unfolding continuous_loop
  continuous_loop-StopsIfEnded zero s w = tt
  continuous_loop-StopsIfEnded (suc f) s w =
      let r = continuous_round parts cfg s w in
      round-StopsIfEnded r (continuous_loop parts cfg f r.0 r.1)
        (continuous_loop-StopsIfEnded f r.0 r.1)

  pub run_continuous-StopsIfEnded :
      (f : ℕ) (s : CollectorState) (w : W) → StopsIfEnded (run_continuous parts cfg f s w)
  unfolding run_continuous
  run_continuous-StopsIfEnded f s w =
      let r = collect_cycle parts cfg s w in continuous_loop-StopsIfEnded f r.0 r.1

  collect_cycle-count :
      (s : CollectorState) (w : W) → (collect_cycle parts cfg s w).0.cycle_count ≡ s.cycle_count
  unfolding collect_cycle
  collect_cycle-count s w = after_collect-count (parts.collect_metrics w).0 s

  rediscover-count :
      (s : CollectorState) (w : W) → (rediscover parts cfg s w).0.cycle_count ≡ s.cycle_count
  unfolding rediscover
  rediscover-count s w = ground arith

  poll-count : (s : CollectorState) (w : W) → (poll parts cfg s w).0.cycle_count ≡ s.cycle_count
  unfolding poll
  poll-count s w = ground arith

  -- A round behind which the collector still runs has counted, and the count is below the limit.
  continuous_round-count :
      (s : CollectorState) (w : W)
      → is_pos cfg.collector.max_cycles ≡ true
      → s.cycle_count < cfg.collector.max_cycles
      → (continuous_round parts cfg s w).0.running ≡ true
      → ((continuous_round parts cfg s w).0.cycle_count ≡ s.cycle_count + 1)
        × ((continuous_round parts cfg s w).0.cycle_count < cfg.collector.max_cycles)
  unfolding continuous_round count_cycle
  continuous_round-count s w m c r =
      let p = poll parts cfg s w in
      let slept = (parts.pause cfg.collector.interval p.1).1 in
      let q = rediscover parts cfg p.0 slept in
      ground
        (arith, poll-count s w, rediscover-count p.0 slept, collect_cycle-count q.0 q.1, m, c, r)

  continuous_loop-HasStopped :
      (f : ℕ) (s : CollectorState) (w : W)
      → is_pos cfg.collector.max_cycles ≡ true
      → s.cycle_count < cfg.collector.max_cycles
      → cfg.collector.max_cycles ≤ f + s.cycle_count
      → HasStopped (continuous_loop parts cfg f s w)
  unfolding continuous_loop
  continuous_loop-HasStopped zero s w m c h = absurd (omega arith)
  continuous_loop-HasStopped (suc f) s w m c h =
      let r = continuous_round parts cfg s w in
      ground (
        arith,
        continuous_round-count s w m c,
        λ (k : r.0.cycle_count ≡ s.cycle_count + 1)
              (l : r.0.cycle_count < cfg.collector.max_cycles).
            continuous_loop-HasStopped f r.0 r.1 m l (omega (arith, k)),
      )

  -- With a positive limit, and a count below it, `run_continuous` ends after as many rounds as the
  -- limit leaves, whatever the client does, and the collector does not run any more.
  pub run_continuous-HasStopped :
      (f : ℕ) (s : CollectorState) (w : W)
      → is_pos cfg.collector.max_cycles ≡ true
      → s.cycle_count < cfg.collector.max_cycles
      → cfg.collector.max_cycles ≤ f + s.cycle_count
      → HasStopped (run_continuous parts cfg f s w)
  unfolding run_continuous
  run_continuous-HasStopped f s w m c h =
      let r = collect_cycle parts cfg s w in
      let same = collect_cycle-count s w in
      continuous_loop-HasStopped f r.0 r.1 m (omega (arith, same, c)) (omega (arith, same, h))
