-- ===== src/TradingEngine/Fuel.antt =====
-- How deep the callbacks publish, and how much fuel `publish` needs.
use mathlib.Core.Path.{fun_ext}
use quant_core_engine.Prelude.{
  ltb, if◌then◌else◌, ℕ, zero, suc, ◌≤◌, ◌<◌, ◌≡◌, refl, ap, ◌∙◌, List, [], ◌∷◌, arith, Bool-cases,
  inl, inr,
}
use quant_core_engine.Double.{Double}
use quant_core_engine.Events.{
  Timestamp, OrderEvent, ExecutionReportEvent, SignalEvent, MarketDataEvent, Event, market_data,
  signal, order_event, execution_report,
}
use quant_core_engine.EventBus.{SubscriptionId}
use quant_core_engine.EventBus
use quant_core_engine.TradingEngine.World.{
  Loop, strategy, risk, routing, Callback, tracker_on_order, tracker_on_report, position_on_fill,
  risk_on_signal, strategy_on_market_data, execution_on_order, forward_signal, TradingEngine,
  bus_of, invoke, publish, depth, tracker_host, position_host, risk_host,
}
use quant_core_engine.OrderTracker
use quant_core_engine.PositionEngine
use quant_core_engine.RiskEngine
use quant_core_engine.TimeProvider.{simulation_time}
use quant_core_engine.Execution
use quant_core_engine.DummyStrategy

-- How many levels of callbacks an event can set off.
rank : {F : Type 0} → Event F → ℕ
rank (market_data _) = 5
rank (signal _) = 4
rank (order_event _) = 3
rank (execution_report _) = 2
rank _ = 1

abbrev Publish : Type 0 → Type 0
Publish F = Event F → TradingEngine F → TradingEngine F

-- Two ways to publish do the same to events below a rank.
abbrev Agree : {F : Type 0} → ℕ → Publish F → Publish F → Type 0
Agree {F} n p q = (e : Event F) (w : TradingEngine F) → rank e < n → p e w ≡ q e w

-- To publish the events below a rank, and drop the others.
abbrev only : {F : Type 0} → ℕ → Publish F → Publish F
only n p e w = if ltb (rank e) n then p e w else w

module _ {F : Type 0} (n : ℕ) (p q : Publish F) (a : Agree n p q) where
  only-agree : only n p ≡ only n q
  only-agree = fun_ext λ e. fun_ext λ w. elim (Bool-cases (ltb (rank e) n)) [
    | inl low ↦ rw low (a e w (ground arith))
    | inr high ↦ rw high refl
  ]

module _ {F : Type 0} (p q : Publish F) where
  tracker_order-Agree :
      (e : OrderEvent F) (w : TradingEngine F)
      → Agree 3 p q
      → OrderTracker.on_order (tracker_host p) e w ≡ OrderTracker.on_order (tracker_host q) e w
  unfolding OrderTracker.on_order rank
  tracker_order-Agree e w a =
      ap (λ t. OrderTracker.on_order (tracker_host t) e w) (only-agree 3 p q a)

  tracker_report-Agree :
      (e : ExecutionReportEvent F) (w : TradingEngine F)
      → Agree 2 p q
      → OrderTracker.on_execution_report (tracker_host p) e w
        ≡ OrderTracker.on_execution_report (tracker_host q) e w
  unfolding OrderTracker.on_execution_report rank
  tracker_report-Agree e w a =
      ap (λ t. OrderTracker.on_execution_report (tracker_host t) e w) (only-agree 2 p q a)

module _ {F : Type 0} ⦃d : Double F⦄ (p q : Publish F) where
  position_fill-Agree :
      (e : ExecutionReportEvent F) (w : TradingEngine F)
      → Agree 2 p q
      → PositionEngine.on_fill (position_host p) e w ≡ PositionEngine.on_fill (position_host q) e w
  unfolding PositionEngine.on_fill rank
  position_fill-Agree e w a =
      ap (λ t. PositionEngine.on_fill (position_host t) e w) (only-agree 2 p q a)

  risk_signal-Agree :
      (now : Timestamp) (e : SignalEvent F) (w : TradingEngine F)
      → Agree 4 p q
      → RiskEngine.on_signal (risk_host p) now e w ≡ RiskEngine.on_signal (risk_host q) now e w
  unfolding RiskEngine.on_signal rank
  risk_signal-Agree now e w a =
      ap (λ t. RiskEngine.on_signal (risk_host t) now e w) (only-agree 4 p q a)

  market_data-Agree :
      (now : Timestamp) (e : MarketDataEvent F) (w : TradingEngine F)
      → Agree 5 p q
      → DummyStrategy.on_market_data p now e w ≡ DummyStrategy.on_market_data q now e w
  unfolding DummyStrategy.on_market_data rank
  market_data-Agree now e w a =
      ap (λ t. DummyStrategy.on_market_data t now e w) (only-agree 5 p q a)

  execution-Agree :
      (ticks_per_ms : ℕ) (e : OrderEvent F) (w : TradingEngine F)
      → Agree 3 p q
      → Execution.mock_on_order p ticks_per_ms (simulation_time (λ v. v.sim_clock)) e w
        ≡ Execution.mock_on_order q ticks_per_ms (simulation_time (λ v. v.sim_clock)) e w
  unfolding Execution.mock_on_order rank
  execution-Agree ticks_per_ms e w a =
      ap (λ t. Execution.mock_on_order t ticks_per_ms (simulation_time (λ v. v.sim_clock)) e w)
        (only-agree 3 p q a)

module _ {F : Type 0} ⦃d : Double F⦄ (ticks_per_ms : ℕ) (now : Timestamp) where
  abbrev AllAgree : ℕ → (Loop → Publish F) → (Loop → Publish F) → Type 0
  AllAgree n p q = (l : Loop) → Agree n (p l) (q l)

  -- A callback that gets an event publishes events of a lower rank only.
  invoke-agree :
      (p q : Loop → Publish F) (c : Callback) (e : Event F) (w : TradingEngine F)
      → AllAgree (rank e) p q
      → invoke ticks_per_ms now p c e w ≡ invoke ticks_per_ms now q c e w
  unfolding invoke rank PositionEngine.on_order RiskEngine.on_risk_violation
  invoke-agree p q tracker_on_order (order_event e) w a =
      tracker_order-Agree (p risk) (q risk) e w (a risk)
  invoke-agree p q tracker_on_report (execution_report e) w a =
      tracker_report-Agree (p risk) (q risk) e w (a risk)
  invoke-agree p q position_on_fill (execution_report e) w a =
      position_fill-Agree (p risk) (q risk) e w (a risk)
  invoke-agree p q risk_on_signal (signal e) w a =
      risk_signal-Agree (p risk) (q risk) now e w (a risk)
  invoke-agree p q strategy_on_market_data (market_data e) w a =
      market_data-Agree (p strategy) (q strategy) now e w (a strategy)
  invoke-agree p q execution_on_order (order_event e) w a =
      execution-Agree (p routing) (q routing) ticks_per_ms e w (a routing)
  invoke-agree p q forward_signal (market_data e) w a = refl
  invoke-agree p q _ _ w a = refl

  deliver-agree :
      (p q : Loop → Publish F) (l : Loop) (copy : List (SubscriptionId × Callback)) (e : Event F)
      (w : TradingEngine F)
      → AllAgree (rank e) p q
      → EventBus.deliver (bus_of l) (invoke ticks_per_ms now p) copy e w
        ≡ EventBus.deliver (bus_of l) (invoke ticks_per_ms now q) copy e w
  unfolding EventBus.deliver
  deliver-agree p q l [] e w a = refl
  deliver-agree p q l ((id, c) ∷ copy) e w a =
      ap (EventBus.deliver (bus_of l) (invoke ticks_per_ms now p) copy e) (invoke-agree p q c e w a)
      ∙ deliver-agree p q l copy e _ a

  rank_bounds : (e : Event F) → (0 < rank e) × (rank e ≤ depth)
  unfolding rank
  rank_bounds (market_data _) = omega arith
  rank_bounds _ = omega arith

  publish-agree :
      (f g : ℕ) (l : Loop) (e : Event F) (w : TradingEngine F)
      → rank e ≤ f
      → rank e ≤ g
      → publish ticks_per_ms now f l e w ≡ publish ticks_per_ms now g l e w
  unfolding publish EventBus.publish
  publish-agree zero g l e w h k = absurd (omega (arith, rank_bounds e))
  publish-agree (suc f) zero l e w h k = absurd (omega (arith, rank_bounds e))
  publish-agree (suc f) (suc g) l e w h k =
      deliver-agree (publish ticks_per_ms now f) (publish ticks_per_ms now g) l
        (bus_of l w).subscribers e w
        (λ l' e' v r. publish-agree f g l' e' v (omega arith) (omega arith))

  -- Whatever is subscribed where, no event needs more than `depth` levels of callbacks: more fuel
  -- changes nothing.
  pub publish_enough :
      (fuel : ℕ) (l : Loop) (e : Event F) (w : TradingEngine F)
      → depth ≤ fuel
      → publish ticks_per_ms now fuel l e w ≡ publish ticks_per_ms now depth l e w
  publish_enough fuel l e w h =
      publish-agree fuel depth l e w (omega (arith, rank_bounds e)) (omega (arith, rank_bounds e))
