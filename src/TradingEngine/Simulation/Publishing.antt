-- ===== src/TradingEngine/Simulation/Publishing.antt =====
-- Callbacks and publishes on two worlds side by side.
use quant_core_engine.Prelude.{ℕ, zero, suc, ◌≡◌, List, [], ◌∷◌, All, map, true, nat_eq, string_eq}
use quant_core_engine.Double.{Double}
use quant_core_engine.Events.{
  Timestamp, Event, market_data, signal, order_event, order_update, execution_report,
  position_update, risk_violation,
}
use quant_core_engine.EventBus.{SubscriptionId, Bus}
use quant_core_engine.EventBus
use quant_core_engine.RiskEngine.{RiskEngine, exceeds_limit}
use quant_core_engine.RiskEngine
use quant_core_engine.TradingEngine.World.{
  Loop, strategy, risk, routing, Callback, tracker_on_order, tracker_on_report, position_on_order,
  position_on_fill, risk_on_signal, risk_on_violation, strategy_on_market_data, execution_on_order,
  forward_signal, forward_order, forward_report, telemetry_order, telemetry_position,
  telemetry_violation, TradingEngine, EngineHost, bus_of, invoke_in, invoke, publish,
}
use quant_core_engine.TradingEngine.Simulation.{IsSimulation, Allowed, change_risks}
use quant_core_engine.TradingEngine.Simulation.Handlers.{
  order-simulated, report-simulated, cache-simulated, fill-simulated, signal-simulated,
  tick-simulated, execution-simulated,
}

same_first : (c c' : Callback) (cs cs' : List Callback) → c ∷ cs ≡ c' ∷ cs' → c ≡ c'
same_first c c' cs cs' e = cc

same_rest : (c c' : Callback) (cs cs' : List Callback) → c ∷ cs ≡ c' ∷ cs' → cs ≡ cs'
same_rest c c' cs cs' e = cc

module _ {F W : Type 0} (h : EngineHost W F) (routed told : Type 0)
    (R : W → TradingEngine F → Type 0) where
  module _ ⦃d : Double F⦄ (sim : IsSimulation h routed told R) (ticks_per_ms : ℕ)
      (now : Timestamp) where
    pub invoke_in-simulated :
        (p : Loop → Event F → W → W) (p' : Loop → Event F → TradingEngine F → TradingEngine F)
        (c : (l : Loop) (e : Event F) (v : W) (w : TradingEngine F)
          → R v w
          → R (p l e v) (p' l e w))
        (call : Callback) (e : Event F) (v : W) (w : TradingEngine F)
        → Allowed routed told call
        → R v w
        → R (invoke_in ticks_per_ms now h p call e v) (invoke ticks_per_ms now p' call e w)
    unfolding invoke RiskEngine.on_risk_violation
    invoke_in-simulated p p' c tracker_on_order (order_event e) v w a r =
        order-simulated h routed told R sim (p risk) (p' risk) (c risk) e v w r
    invoke_in-simulated p p' c tracker_on_report (execution_report e) v w a r =
        report-simulated h routed told R sim (p risk) (p' risk) (c risk) e v w r
    invoke_in-simulated p p' c position_on_order (order_event e) v w a r =
        cache-simulated h routed told R sim (p risk) (p' risk) (c risk) e v w r
    invoke_in-simulated p p' c position_on_fill (execution_report e) v w a r =
        fill-simulated h routed told R sim (p risk) (p' risk) (c risk) e v w r
    invoke_in-simulated p p' c risk_on_signal (signal e) v w a r =
        signal-simulated h routed told R sim (p risk) (p' risk) (c risk) now e v w r
    invoke_in-simulated p p' c risk_on_violation (risk_violation e) v w a r =
        change_risks h routed told R sim (λ t. record t { halt_flag = true }) v w r
    invoke_in-simulated p p' c strategy_on_market_data (market_data e) v w a r =
        tick-simulated h routed told R sim (p strategy) (p' strategy) (c strategy) now e v w r
    invoke_in-simulated p p' c execution_on_order (order_event e) v w a r =
        execution-simulated h routed told R sim (p routing) (p' routing) (c routing) ticks_per_ms e
          v w r
    invoke_in-simulated p p' c forward_signal (signal e) v w a r = sim.pushing _ v w r
    invoke_in-simulated p p' c forward_order (order_event e) v w a r = sim.routing_it a _ v w r
    invoke_in-simulated p p' c forward_report (execution_report e) v w a r = sim.pushing _ v w r
    invoke_in-simulated p p' c telemetry_order (order_update e) v w a r = sim.telling a _ v w r
    invoke_in-simulated p p' c telemetry_position (position_update e) v w a r =
        sim.telling a _ v w r
    invoke_in-simulated p p' c telemetry_violation (risk_violation e) v w a r =
        sim.telling a _ v w r
    invoke_in-simulated p p' c _ _ v w a r = r

    module _ (inv : (Loop → Event F → W → W) → Callback → Event F → W → W)
        (as_in : (p : Loop → Event F → W → W) (call : Callback) (e : Event F) (v : W)
            (w : TradingEngine F)
          → R v w
          → inv p call e v ≡ invoke_in ticks_per_ms now h p call e v) where
      deliver-simulated :
          (p : Loop → Event F → W → W) (p' : Loop → Event F → TradingEngine F → TradingEngine F)
          (c : (l : Loop) (e : Event F) (v : W) (w : TradingEngine F)
            → R v w
            → R (p l e v) (p' l e w))
          (bus : W → Bus Callback) (l : Loop) (copy copy' : List (SubscriptionId × Callback))
          (e : Event F) (v : W) (w : TradingEngine F)
          → map (λ s. s.1) copy ≡ map (λ s. s.1) copy'
          → All (λ s. Allowed routed told s.1) copy'
          → R v w
          → R
              (EventBus.deliver bus (inv p) copy e v)
              (EventBus.deliver (bus_of l) (invoke ticks_per_ms now p') copy' e w)
      unfolding EventBus.deliver
      deliver-simulated p p' c bus l [] [] e v w same a r = r
      deliver-simulated p p' c bus l [] (s ∷ copy') e v w same a r = cc
      deliver-simulated p p' c bus l (s ∷ copy) [] e v w same a r = cc
      deliver-simulated p p' c bus l ((id, call) ∷ copy) ((id', call') ∷ copy') e v w same a r =
          deliver-simulated p p' c bus l copy copy' e _ _ (same_rest call call' _ _ same) a.1 (
            rw (same_first call call' _ _ same, as_in p call' e v w r)
              (invoke_in-simulated p p' c call' e v w a.0 r))

      -- Two publishes that go equally deep.
      pub publish-simulated :
          (q : ℕ → Loop → Event F → W → W)
          (stops : (l : Loop) (e : Event F) (v : W) → q zero l e v ≡ v)
          (goes : (fuel : ℕ) (l : Loop) (e : Event F) (v : W)
            → q (suc fuel) l e v ≡ EventBus.publish (λ u. bus_of l (h.engine u)) (inv (q fuel)) e v)
          (fuel : ℕ) (l : Loop) (e : Event F) (v : W) (w : TradingEngine F)
          → R v w
          → R (q fuel l e v) (publish ticks_per_ms now fuel l e w)
      unfolding publish EventBus.publish
      publish-simulated q stops goes zero l e v w r = rw (stops l e v) r
      publish-simulated q stops goes (suc fuel) l e v w r = rw (goes fuel l e v) (
          deliver-simulated (q fuel) (publish ticks_per_ms now fuel)
            (publish-simulated q stops goes fuel) (λ u. bus_of l (h.engine u)) l
            (bus_of l (h.engine v)).subscribers (bus_of l w).subscribers e v w (sim.buses l v w r)
            (sim.subscribed l v w r) r)
