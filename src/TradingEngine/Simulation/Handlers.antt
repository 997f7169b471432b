-- ===== src/TradingEngine/Simulation/Handlers.antt =====
-- Each handler on two worlds side by side.
use quant_core_engine.Prelude.{
  ℕ, ◌≡◌, ap, ◌∙◌, inl, inr, Bool, true, false, if◌then◌else◌, Bool-cases, Option-cases, nat_eq,
  string_eq, Option, get_or, ◌==◌,
}
use mathlib.Core.Path.{subst}
use quant_core_engine.Double.{Double, ◌<?◌, ◌≤?◌, ◌+◌, lit}
use quant_core_engine.Events.{
  Timestamp, MarketDataEvent, SignalEvent, OrderEvent, ExecutionReportEvent, Event, order_update,
  position_update, risk_violation,
}
use quant_core_engine.Table.{find}
use quant_core_engine.OrderIdGenerator.{next_id}
use quant_core_engine.OrderTracker.{OrderTracker, transition_status, is_terminal, propose}
use quant_core_engine.OrderTracker
use quant_core_engine.PositionEngine.{
  PositionEngine, OrderInfo, is_filled, filled_position, position_for, position, signed_quantity,
}
use quant_core_engine.PositionEngine.ApplyFill.{apply_fill}
use quant_core_engine.Domain.{Position, RiskLimits, new_position}
use quant_core_engine.PositionEngine
use quant_core_engine.RiskEngine.{RiskEngine, exceeds_limit, current_quantity}
use quant_core_engine.RiskEngine
use quant_core_engine.TimeProvider.{simulation_time}
use quant_core_engine.Execution
use quant_core_engine.DummyStrategy
use quant_core_engine.TradingEngine.World.{
  TradingEngine, EngineHost, tracker_host_in, position_host_in, risk_host_in, tracker_host,
  position_host, risk_host,
}
use quant_core_engine.TradingEngine.Simulation.{IsSimulation}

-- Two tests that come out alike take the same branch.
if-related :
    {A B : Type 0} (R : A → B → Type 0) (a b : Bool) {x x' : A} {y y' : B}
    → a ≡ b
    → R x y
    → R x' y'
    → R (if a then x else x') (if b then y else y')
if-related R true true e t f = t
if-related R false false e t f = f
if-related R true false e t f = cc
if-related R false true e t f = cc

-- The position after a fill, from what is found under its symbol.
abbrev pub filled_from :
    {F : Type 0} ⦃d : Double F⦄
    → ExecutionReportEvent F
    → OrderInfo
    → Option (Position F)
    → Position F
filled_from e info found =
    let pos = get_or new_position found in
    apply_fill (if pos.symbol == "" then record pos { symbol = info.symbol } else pos)
      (signed_quantity info.side e.filled_quantity) e.fill_price

module _ {F W : Type 0} (h : EngineHost W F) (routed told : Type 0)
    (R : W → TradingEngine F → Type 0) where
  module _ ⦃d : Double F⦄ (sim : IsSimulation h routed told R) (p : Event F → W → W)
      (p' : Event F → TradingEngine F → TradingEngine F)
      (c : (e : Event F) (v : W) (w : TradingEngine F) → R v w → R (p e v) (p' e w)) where
    pub order-simulated :
        (e : OrderEvent F) (v : W) (w : TradingEngine F)
        → R v w
        → R
            (OrderTracker.on_order (tracker_host_in h p) e v)
            (OrderTracker.on_order (tracker_host p') e w)
    unfolding OrderTracker.on_order
    order-simulated e v w r = c _ _ _ (sim.tables.insert_order e.order.id e.order v w r)

    pub report-simulated :
        (e : ExecutionReportEvent F) (v : W) (w : TradingEngine F)
        → R v w
        → R
            (OrderTracker.on_execution_report (tracker_host_in h p) e v)
            (OrderTracker.on_execution_report (tracker_host p') e w)
    unfolding OrderTracker.on_execution_report
    report-simulated e v w r =
        let seen = sim.tables.tracked e.order_id v w r in
        elim (Option-cases (find e.order_id w.order_tracker.active_orders)) [
          | inl unknown ↦
              rw (seen ∙ unknown, OrderTracker.on_execution_report)
                (rw (unknown, OrderTracker.on_execution_report) r)
          | inr (o, known) ↦ elim (Bool-cases (transition_status o.status (propose e.status))) [
            | inr forbidden ↦
                rw (seen ∙ known, OrderTracker.on_execution_report)
                  (rw (known, OrderTracker.on_execution_report) (rw forbidden r))
            | inl allowed ↦
                let stored =
                  sim.tables.insert_order e.order_id (OrderTracker.advanced e (propose e.status) o)
                    v w r in
                let heard = c (order_update (OrderTracker.report_update e o)) _ _ stored in
                elim (Bool-cases (is_terminal (propose e.status))) [
                  | inl done ↦
                      rw (seen ∙ known, OrderTracker.on_execution_report)
                        (rw (known, OrderTracker.on_execution_report)
                          (rw (allowed, done) (sim.tables.erase_order e.order_id _ _ heard)))
                  | inr still ↦
                      rw (seen ∙ known, OrderTracker.on_execution_report)
                        (rw (known, OrderTracker.on_execution_report) (rw (allowed, still) heard))
                ]
          ]
        ]

    pub cache-simulated :
        (e : OrderEvent F) (v : W) (w : TradingEngine F)
        → R v w
        → R
            (PositionEngine.on_order (position_host_in h p) e v)
            (PositionEngine.on_order (position_host p') e w)
    unfolding PositionEngine.on_order
    cache-simulated e v w r = sim.tables.insert_info e.order.id (PositionEngine.order_info e) v w r

    filled_position-same :
        (e : ExecutionReportEvent F) (info : OrderInfo) (v : W) (w : TradingEngine F)
        → R v w
        → filled_position e info (h.engine v).position_engine
          ≡ filled_position e info w.position_engine
    unfolding filled_position position_for
    filled_position-same e info v w r =
        ap (λ found. filled_from e info found) (sim.tables.held info.symbol v w r)

    exceeds_limit-same :
        (l : RiskLimits F) (e : SignalEvent F) (v : W) (w : TradingEngine F)
        → R v w
        → exceeds_limit l (h.engine v).position_engine e ≡ exceeds_limit l w.position_engine e
    unfolding exceeds_limit position
    exceeds_limit-same l e v w r =
        ap (λ found. l.max_position_per_symbol <? (current_quantity found + lit 1))
          (sim.tables.held e.symbol v w r)

    warned :
        (e : ExecutionReportEvent F) (info : OrderInfo) (pos : Position F) (l l' : RiskLimits F)
        → l ≡ l'
        → (v : W) (w : TradingEngine F) → R v w
        → R
            (p (risk_violation (PositionEngine.violation_of e info l pos)) v)
            (p' (risk_violation (PositionEngine.violation_of e info l' pos)) w)
    warned e info pos l l' same v w r =
        subst
          (λ t.
            R (p (risk_violation (PositionEngine.violation_of e info l pos)) v)
              (p' (risk_violation (PositionEngine.violation_of e info t pos)) w))
          same (c _ v w r)

    pub fill-simulated :
        (e : ExecutionReportEvent F) (v : W) (w : TradingEngine F)
        → R v w
        → R
            (PositionEngine.on_fill (position_host_in h p) e v)
            (PositionEngine.on_fill (position_host p') e w)
    unfolding PositionEngine.on_fill
    fill-simulated e v w r =
        let seen = sim.tables.cached e.order_id v w r in
        elim (Bool-cases (is_filled e.status)) [
          | inr other ↦ rw (other, PositionEngine.on_fill) r
          | inl filled ↦ elim (Option-cases (find e.order_id w.position_engine.order_cache)) [
            | inl unknown ↦
                rw (filled, PositionEngine.on_fill)
                  (rw (seen ∙ unknown, PositionEngine.on_fill)
                    (rw (unknown, PositionEngine.on_fill) r))
            | inr (info, known) ↦
                let pos = filled_position e info w.position_engine in
                let stored = sim.tables.insert_position info.symbol pos v w r in
                let updated = c (position_update (PositionEngine.update_of e pos)) _ _ stored in
                let forgot = sim.tables.erase_info e.order_id in
                let same_pos = filled_position-same e info v w r in
                let same_limits = sim.tables.limits v w r in
                let under_too =
                  ap (λ (l : RiskLimits F). pos.realized_pnl <? l.max_drawdown) same_limits in
                elim (Bool-cases (pos.realized_pnl <? w.position_engine.limits.max_drawdown)) [
                  | inl under ↦
                      rw (filled, PositionEngine.on_fill)
                        (rw (seen ∙ known, PositionEngine.on_fill)
                          (rw (known, PositionEngine.on_fill)
                            (rw (same_pos, under_too ∙ under, under)
                              (forgot _ _ (warned e info pos _ _ same_limits _ _ updated)))))
                  | inr above ↦
                      rw (filled, PositionEngine.on_fill)
                        (rw (seen ∙ known, PositionEngine.on_fill)
                          (rw (known, PositionEngine.on_fill)
                            (rw (same_pos, under_too ∙ above, above) (forgot _ _ updated))))
                ]
          ]
        ]

    pub signal-simulated :
        (now : Timestamp) (e : SignalEvent F) (v : W) (w : TradingEngine F)
        → R v w
        → R
            (RiskEngine.on_signal (risk_host_in h p) now e v)
            (RiskEngine.on_signal (risk_host p') now e w)
    unfolding RiskEngine.on_signal
    signal-simulated now e v w r =
        let halts = ap (λ (t : RiskEngine F). t.halt_flag) (sim.risks v w r) in
        let exceeds =
          ap (λ (t : RiskEngine F). exceeds_limit t.limits (h.engine v).position_engine e)
            (sim.risks v w r)
          ∙ exceeds_limit-same w.risk_engine.limits e v w r in
        if-related R _ _ halts r (
          if-related R _ _ exceeds r
            (rw (sim.ids v w r) (c _ _ _ (sim.put_ids (next_id w.order_id_gen).1 v w r))))

    pub tick-simulated :
        (now : Timestamp) (e : MarketDataEvent F) (v : W) (w : TradingEngine F)
        → R v w
        → R (DummyStrategy.on_market_data p now e v) (DummyStrategy.on_market_data p' now e w)
    unfolding DummyStrategy.on_market_data
    tick-simulated now e v w r = elim (Bool-cases (e.price ≤? lit 0)) [
      | inl low ↦ rw (low, DummyStrategy.on_market_data) r
      | inr high ↦ rw (high, DummyStrategy.on_market_data) (c _ v w r)
    ]

    pub execution-simulated :
        (ticks_per_ms : ℕ) (e : OrderEvent F) (v : W) (w : TradingEngine F)
        → R v w
        → R
            (Execution.mock_on_order p ticks_per_ms
              (simulation_time (λ u. (h.engine u).sim_clock))
              e
              v)
            (Execution.mock_on_order p' ticks_per_ms (simulation_time (λ u. u.sim_clock)) e w)
    unfolding Execution.mock_on_order
    execution-simulated ticks_per_ms e v w r = rw (sim.clock v w r) (c _ _ _ (c _ _ _ r))
