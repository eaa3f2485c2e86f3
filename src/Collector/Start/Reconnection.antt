-- ===== src/Collector/Start/Reconnection.antt =====
-- The part of `Collector::start` (src/collector.cpp) that gives a lost connection up for a new one.
use ibmmq_metrics_exporter.Base.{
  ℕ, zero, suc, ◌≡◌, refl, sym, ap, ◌∙◌, true, false, not, ◌&&◌, Option, none, some, arith,
}
use ibmmq_metrics_exporter.Config.Records.{Config}
use ibmmq_metrics_exporter.Collector.{CollectorState, Parts, poll, run_continuous}
use ibmmq_metrics_exporter.Collector.Stops.{StopsIfEnded, run_continuous-StopsIfEnded}
use ibmmq_metrics_exporter.Collector.Start.{
  ensure_connected, run_collection, reconnect, keep_running_loop, start,
}

-- A collection, if it ends, leaves nothing that the loop would go on with.
abbrev pub EndsIfEnded {ℓ} : {W : Type ℓ} → Option (CollectorState × W) → Type 0
EndsIfEnded none = Unit {0}
EndsIfEnded (some (s, w)) = (s.running && not s.collector_end) ≡ false

stopped-EndsIfEnded {ℓ} :
    {W : Type ℓ} (r : Option (CollectorState × W)) → StopsIfEnded r → EndsIfEnded r
stopped-EndsIfEnded none h = tt
stopped-EndsIfEnded (some (s, w)) h = ground (arith, h)

module _ {W : Type 0} (parts : Parts W) (cfg : Config) where
  run_collection-EndsIfEnded :
      (g : ℕ) (s : CollectorState) (w : W) → EndsIfEnded (run_collection parts cfg g s w)
  unfolding run_collection
  run_collection-EndsIfEnded g s w = ground (
    arith,
    stopped-EndsIfEnded (run_continuous parts cfg g s w)
        (run_continuous-StopsIfEnded parts cfg g s w),
  )

  reconnect-idle :
      (reset : W → W) (s : CollectorState) (w : W)
      → (s.running && not s.collector_end) ≡ false
      → reconnect parts cfg reset (s, w) ≡ (s, w)
  unfolding reconnect
  reconnect-idle reset s w h = ground (arith, h)

  -- The rest of a round behind a collection, with either way to reset the connection.
  after_collection :
      (reset reset' : W → W) (r : Option (CollectorState × W))
      → (k k' : CollectorState → W → Option (CollectorState × W)) → EndsIfEnded r
      → ((s : CollectorState) (w : W) → k s w ≡ k' s w)
      → ◌≡◌ {A = Option (CollectorState × W)}
          (elim r [ none ↦ none | some r ↦ let r' = reconnect parts cfg reset r in k r'.0 r'.1 ])
          (elim r [ none ↦ none | some r ↦ let r' = reconnect parts cfg reset' r in k' r'.0 r'.1 ])
  after_collection reset reset' none k k' h e = refl
  after_collection reset reset' (some (s, w)) k k' h e =
      ap (λ (r : CollectorState × W). k r.0 r.1) (reconnect-idle reset s w h)
      ∙ e s w
      ∙ ap (λ (r : CollectorState × W). k' r.0 r.1) (sym (reconnect-idle reset' s w h))

  keep_running_loop-reset :
      (reset reset' : W → W) (f g : ℕ) (s : CollectorState) (w : W)
      → keep_running_loop parts cfg reset f g s w ≡ keep_running_loop parts cfg reset' f g s w
  unfolding keep_running_loop
  keep_running_loop-reset reset reset' zero g s w = refl
  keep_running_loop-reset reset reset' (suc f) g s w =
      let p = poll parts cfg s w in
      let c = ensure_connected parts cfg p.0 p.1 in
      ground (
        arith,
        keep_running_loop-reset reset reset' f g c.0.1 c.1,
        after_collection reset reset' (run_collection parts cfg g c.0.1 c.1)
            (keep_running_loop parts cfg reset f g) (keep_running_loop parts cfg reset' f g)
            (run_collection-EndsIfEnded g c.0.1 c.1)
            (λ s' w'. keep_running_loop-reset reset reset' f g s' w'),
      )

  -- What `start` does does not depend on how a lost connection is reset: the reset is never done,
  -- since a collection that ends leaves the collector not running, or at its end.
  pub start-reset :
      (reset reset' : W → W) (f g : ℕ) (s : CollectorState) (w : W)
      → start parts cfg reset f g s w ≡ start parts cfg reset' f g s w
  unfolding start
  start-reset reset reset' f g s w = ground (
    arith,
    keep_running_loop-reset reset reset' f g (record s { running = true }) (parts.start_server w),
  )
