-- ===== src/Collector/Start.antt =====
-- `Collector::start` (src/collector.cpp).
pub mod Reconnection
use ibmmq_metrics_exporter.Base.{
  ℕ, zero, suc, Bool, true, false, not, ◌&&◌, ◌||◌, if◌then◌else◌, Option, none, some,
}
use ibmmq_metrics_exporter.Config.Records.{Config}
use ibmmq_metrics_exporter.Collector.{
  CollectorState, Parts, halt, try_connect, setup_after_connect, poll, run_once, run_continuous,
}

module _ {W : Type 0} (parts : Parts W) (cfg : Config) where
  -- A connection, if there is none: whether there is one now, or what failing to get it comes to.
  unfoldable pub ensure_connected : CollectorState → W → (Bool × CollectorState) × W
  unfolding try_connect setup_after_connect
  ensure_connected s w =
      if s.connected_qmgr
      then ((true, s), w)
      else let ((returned, s'), w') = try_connect parts cfg s w in
        if returned
        then (let (s'', w'') = setup_after_connect parts cfg s' w' in ((true, s''), w''))
        else if not s'.connected_once && not cfg.collector.keep_running
        then ((false, record s' { collector_end = true }), w')
        else let (stopped, w'') = parts.pause cfg.collector.reconnect_interval w' in
          ((false, if stopped then halt s' else s'), w'')

  -- One cycle, or a cycle in every interval.
  unfoldable pub run_collection : ℕ → CollectorState → W → Option (CollectorState × W)
  run_collection g s w =
      if cfg.collector.continuous
      then run_continuous parts cfg g s w
      else let (s', w') = run_once parts cfg s w in some (record s' { collector_end = true }, w')

-- `reset_connection` disconnects the client and puts a new one in its place. The loops may run for
-- ever: `f` bounds the rounds of the loop that keeps the collector running,
-- and `g` those of each `run_continuous`; none is the answer where either is not enough.
module _ {W : Type 0} (parts : Parts W) (cfg : Config) (reset_connection : W → W) where
  -- What is done where the loop finds that it is to go on behind a collection.
  unfoldable pub reconnect : CollectorState × W → CollectorState × W
  reconnect (s, w) =
      if s.running && not s.collector_end
      then (record s { connected_qmgr = false; has_monitor = false }, reset_connection w)
      else (s, w)

  unfoldable pub keep_running_loop : ℕ → ℕ → CollectorState → W → Option (CollectorState × W)
  unfolding reconnect
  keep_running_loop zero g s w = none
  keep_running_loop (suc f) g s w =
      let (s1, w1) = poll parts cfg s w in
      elim (s1.running && not s1.collector_end) [
        | false ↦ some (s1, w1)
        | true ↦
            let ((connected, s2), w2) = ensure_connected parts cfg s1 w1 in
            elim connected [
              | false ↦ keep_running_loop f g s2 w2
              | true ↦ elim (run_collection parts cfg g s2 w2) [
                | none ↦ none
                | some r ↦ let r' = reconnect r in keep_running_loop f g r'.0 r'.1
              ]
            ]
      ]

  unfoldable pub start : ℕ → ℕ → CollectorState → W → Option (CollectorState × W)
  unfolding keep_running_loop
  start f g s w =
      if s.running
      then some (s, w)
      else let s1 : CollectorState = record s { running = true } in
        let w1 = parts.start_server w in
        if cfg.collector.keep_running
        then keep_running_loop f g s1 w1
        else let ((returned, s2), w2) = try_connect parts cfg s1 w1 in
          if not returned
          then some (record s2 { running = false }, w2)
          else let (s3, w3) = setup_after_connect parts cfg s2 w2 in
            if cfg.collector.continuous
            then run_continuous parts cfg g s3 w3
            else some (run_once parts cfg s3 w3)
