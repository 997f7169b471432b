-- ===== src/TradingEngine/Publishing.antt =====
-- What a publish adds to the work that is queued in an engine with the buses of a start with IPC.
use quant_core_engine.Prelude.{ℕ, zero, suc, ◌+◌, ◌≡◌, refl, ap, List, [], ◌∷◌, arith}
use mathlib.Core.Path.{subst}
use quant_core_engine.Double.{Double}
use quant_core_engine.Events.{
  Timestamp, Event, market_data, signal, order_event, order_update, execution_report,
  position_update, risk_violation,
}
use quant_core_engine.EventBus.{SubscriptionId}
use quant_core_engine.EventBus
use quant_core_engine.OrderTracker
use quant_core_engine.PositionEngine
use quant_core_engine.RiskEngine
use quant_core_engine.Execution
use quant_core_engine.TradingEngine.World.{
  Loop, strategy, risk, routing, Callback, tracker_on_order, tracker_on_report, position_on_order,
  position_on_fill, risk_on_signal, risk_on_violation, strategy_on_market_data, execution_on_order,
  forward_signal, forward_order, forward_report, telemetry_order, telemetry_position,
  telemetry_violation, TradingEngine, bus_of, invoke, publish,
}
use quant_core_engine.TradingEngine.Handlers.{
  draw, order-kept, report-kept, fill-kept, signal-kept, tick-kept, execution-kept,
}
use quant_core_engine.RiskEngine.{order_event_of}
use quant_core_engine.DummyStrategy.{signal_of}
use quant_core_engine.TradingEngine.Weight.{
  effort, total, cost, IsWired, IsBelow, IsBelow-IsBelow, push_on-IsBelow,
}

module _ {F : Type 0} ⦃d : Double F⦄ (ticks_per_ms : ℕ) (now : Timestamp)
    (p : Loop → Event F → TradingEngine F → TradingEngine F)
    (k : (l : Loop) (e : Event F) (n : ℕ) (w : TradingEngine F)
      → IsBelow n w
      → IsBelow (n + cost l e) (p l e w)) where
  -- An event that no callback turns into another adds nothing.
  quiet-IsBelow :
      (l : Loop) (e : Event F) (n : ℕ) (w : TradingEngine F)
      → cost l e ≡ 0
      → IsBelow n w
      → IsBelow n (p l e w)
  quiet-IsBelow l e n w h b = IsBelow-IsBelow (n + cost l e) n (p l e w) (omega arith) (k l e n w b)

  add-IsBelow : (m n : ℕ) (w : TradingEngine F) → IsBelow n w → IsBelow (n + m) w
  add-IsBelow m n w b = IsBelow-IsBelow n (n + m) w (omega arith) b

  invoke-IsBelow :
      (c : Callback) (e : Event F) (n : ℕ) (w : TradingEngine F)
      → IsBelow n w
      → IsBelow (n + effort c e) (invoke ticks_per_ms now p c e w)
  unfolding invoke OrderTracker.on_order PositionEngine.on_order RiskEngine.on_risk_violation
      Execution.mock_on_order
  invoke-IsBelow tracker_on_order (order_event e) n w b =
      order-kept (IsBelow (n + 0)) (p risk) e w (λ orders v h. h)
        (λ u v. quiet-IsBelow risk (order_update u) (n + 0) v refl) (add-IsBelow 0 n w b)
  invoke-IsBelow tracker_on_report (execution_report e) n w b =
      report-kept (IsBelow (n + 0)) (p risk) e w (λ orders v h. h)
        (λ u v. quiet-IsBelow risk (order_update u) (n + 0) v refl) (add-IsBelow 0 n w b)
  invoke-IsBelow position_on_order (order_event e) n w b = add-IsBelow 0 n w b
  invoke-IsBelow position_on_fill (execution_report e) n w b =
      fill-kept (IsBelow (n + 0)) (p risk) e w (λ info v h. h) (λ id v h. h)
        (λ u v. quiet-IsBelow risk (position_update u) (n + 0) v refl)
        (λ r v. quiet-IsBelow risk (risk_violation r) (n + 0) v refl) (add-IsBelow 0 n w b)
  invoke-IsBelow risk_on_signal (signal e) n w b =
      signal-kept (IsBelow n) (p risk) (IsBelow (n + 3)) (add-IsBelow 3 n) now e w
        (λ at_work. k risk (order_event (order_event_of now w.order_id_gen.next e)) n (draw w)) b
  invoke-IsBelow risk_on_violation (risk_violation e) n w b = add-IsBelow 0 n w b
  invoke-IsBelow strategy_on_market_data (market_data e) n w b =
      tick-kept (IsBelow n) (p strategy) (IsBelow (n + 4)) (add-IsBelow 4 n) now e w
        (k strategy (signal (signal_of now e)) n w) b
  invoke-IsBelow execution_on_order (order_event e) n w b =
      execution-kept (IsBelow n) (p routing) (IsBelow (n + 1)) (add-IsBelow 1 n) (IsBelow (n + 2))
        ticks_per_ms e w (λ r v. k routing (execution_report r) n v)
        (λ r v h.
          IsBelow-IsBelow (n + 1 + 1) (n + 2) (p routing (execution_report r) v) (omega arith)
            (k routing (execution_report r) (n + 1) v h))
        b
  invoke-IsBelow forward_signal (signal e) n w b = push_on-IsBelow risk (signal e) n w b
  invoke-IsBelow forward_order (order_event e) n w b = push_on-IsBelow routing (order_event e) n w b
  invoke-IsBelow forward_report (execution_report e) n w b =
      push_on-IsBelow risk (execution_report e) n w b
  invoke-IsBelow telemetry_order (order_update e) n w b = add-IsBelow 0 n w b
  invoke-IsBelow telemetry_position (position_update e) n w b = add-IsBelow 0 n w b
  invoke-IsBelow telemetry_violation (risk_violation e) n w b = add-IsBelow 0 n w b
  invoke-IsBelow _ _ n w b = add-IsBelow 0 n w b

  deliver-IsBelow :
      (l : Loop) (copy : List (SubscriptionId × Callback)) (e : Event F) (n : ℕ)
      (w : TradingEngine F)
      → IsBelow n w
      → IsBelow
          (n + total copy e)
          (EventBus.deliver (bus_of l) (invoke ticks_per_ms now p) copy e w)
  unfolding EventBus.deliver
  deliver-IsBelow l [] e n w b = add-IsBelow 0 n w b
  deliver-IsBelow l ((id, c) ∷ copy) e n w b =
      let after = invoke ticks_per_ms now p c e w in
      IsBelow-IsBelow (n + effort c e + total copy e) (n + (effort c e + total copy e))
        (EventBus.deliver (bus_of l) (invoke ticks_per_ms now p) copy e after) (omega arith)
        (deliver-IsBelow l copy e (n + effort c e) after (invoke-IsBelow c e n w b))

module _ {F : Type 0} where
  total-wired :
      (l : Loop) (e : Event F) (w : TradingEngine F)
      → IsWired w
      → total (bus_of l w).subscribers e ≡ cost l e
  total-wired strategy e w v = ap (λ s. total s.subscribers e) v.0
  total-wired risk e w v = ap (λ s. total s.subscribers e) v.1
  total-wired routing e w v = ap (λ s. total s.subscribers e) v.2

module _ {F : Type 0} ⦃d : Double F⦄ (ticks_per_ms : ℕ) where
  pub publish-IsBelow :
      (now : Timestamp) (fuel : ℕ) (l : Loop) (e : Event F) (n : ℕ) (w : TradingEngine F)
      → IsBelow n w
      → IsBelow (n + cost l e) (publish ticks_per_ms now fuel l e w)
  unfolding publish EventBus.publish
  publish-IsBelow now zero l e n w (v, b) = (v, omega arith)
  publish-IsBelow now (suc fuel) l e n w b =
      subst (λ c. IsBelow (n + c) (publish ticks_per_ms now (suc fuel) l e w))
        (total-wired l e w b.0)
        (deliver-IsBelow ticks_per_ms now (publish ticks_per_ms now fuel) (publish-IsBelow now fuel)
          l (bus_of l w).subscribers e n w b)
