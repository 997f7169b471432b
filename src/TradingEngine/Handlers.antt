-- ===== src/TradingEngine/Handlers.antt =====
-- The handlers of the engine with the cases of their code worked off once: what their puts and
-- publishes keep, they keep.
use quant_core_engine.TimeProvider.{simulation_time}
use quant_core_engine.Execution
use quant_core_engine.Prelude.{
  ℕ, ◌≡◌, refl, Bool, if◌then◌else◌, true, false, List, inl, inr, nat_eq, string_eq, Bool-cases,
  Option-cases,
}
use quant_core_engine.Double.{Double, ◌<?◌, ◌≤?◌, lit}
use quant_core_engine.Domain.{OrderId, Order}
use quant_core_engine.Events.{
  Timestamp, MarketDataEvent, SignalEvent, OrderEvent, ExecutionReportEvent, OrderUpdateEvent,
  PositionUpdateEvent, RiskViolationEvent, Event, signal, order_event, order_update,
  execution_report, position_update, risk_violation,
}
use quant_core_engine.Table.{find, insert, erase}
use quant_core_engine.OrderIdGenerator.{next_id}
use quant_core_engine.OrderTracker.{transition_status, is_terminal, propose}
use quant_core_engine.OrderTracker
use quant_core_engine.PositionEngine.{OrderInfo, is_filled, filled_position}
use quant_core_engine.PositionEngine
use quant_core_engine.RiskEngine.{exceeds_limit, order_event_of}
use quant_core_engine.RiskEngine
use quant_core_engine.DummyStrategy.{signal_of}
use quant_core_engine.DummyStrategy
use quant_core_engine.TradingEngine.World.{TradingEngine, tracker_host, position_host, risk_host}

if-kept :
    {A : Type 0} (P : A → Type 0) (b : Bool) {a c : A}
    → (b ≡ true → P a)
    → (b ≡ false → P c)
    → P (if b then a else c)
if-kept P true t f = t refl
if-kept P false t f = f refl

module _ {F : Type 0} where
  abbrev pub with_orders : List (OrderId × Order F) → TradingEngine F → TradingEngine F
  with_orders orders w = record w {
    order_tracker = record w.order_tracker { active_orders = orders };
  }

  -- The position engine forgets an order.
  abbrev pub forget : OrderId → TradingEngine F → TradingEngine F
  forget id w =
      let left = w.position_engine in
      record w { position_engine = record left { order_cache = erase id left.order_cache } }

  abbrev pub draw : TradingEngine F → TradingEngine F
  draw w = record w { order_id_gen = (next_id w.order_id_gen).1 }

module _ {F : Type 0} ⦃d : Double F⦄ where
  -- The position that a fill leaves is stored.
  abbrev pub store : ExecutionReportEvent F → OrderInfo → TradingEngine F → TradingEngine F
  store e info w =
      let pe = w.position_engine in
      record w {
        position_engine = record pe {
          positions = insert info.symbol (filled_position e info pe) pe.positions;
        };
      }

module _ {F : Type 0} (P : TradingEngine F → Type 0)
    (p : Event F → TradingEngine F → TradingEngine F) where
  pub order-kept :
      (e : OrderEvent F) (w : TradingEngine F)
      → ((orders : List (OrderId × Order F)) (v : TradingEngine F) → P v → P (with_orders orders v))
      → ((u : OrderUpdateEvent F) (v : TradingEngine F) → P v → P (p (order_update u) v))
      → P w
      → P (OrderTracker.on_order (tracker_host p) e w)
  unfolding OrderTracker.on_order
  order-kept e w put updated h = updated _ _ (put _ w h)

  pub report-kept :
      (e : ExecutionReportEvent F) (w : TradingEngine F)
      → ((orders : List (OrderId × Order F)) (v : TradingEngine F) → P v → P (with_orders orders v))
      → ((u : OrderUpdateEvent F) (v : TradingEngine F) → P v → P (p (order_update u) v))
      → P w
      → P (OrderTracker.on_execution_report (tracker_host p) e w)
  unfolding OrderTracker.on_execution_report
  report-kept e w put updated h =
      elim (Option-cases (find e.order_id w.order_tracker.active_orders)) [
        | inl unknown ↦ rw (unknown, OrderTracker.on_execution_report) h
        | inr (o, known) ↦ elim (Bool-cases (transition_status o.status (propose e.status))) [
          | inr forbidden ↦ rw (known, OrderTracker.on_execution_report) (rw forbidden h)
          | inl allowed ↦ elim (Bool-cases (is_terminal (propose e.status))) [
            | inl done ↦
                rw (known, OrderTracker.on_execution_report)
                  (rw (allowed, done) (put _ _ (updated _ _ (put _ w h))))
            | inr still ↦
                rw (known, OrderTracker.on_execution_report)
                  (rw (allowed, still) (updated _ _ (put _ w h)))
          ]
        ]
      ]

module _ {F : Type 0} ⦃d : Double F⦄ (P : TradingEngine F → Type 0)
    (p : Event F → TradingEngine F → TradingEngine F) where
  pub fill-kept :
      (e : ExecutionReportEvent F) (w : TradingEngine F)
      → ((info : OrderInfo) (v : TradingEngine F) → P v → P (store e info v))
      → ((id : OrderId) (v : TradingEngine F) → P v → P (forget id v))
      → ((u : PositionUpdateEvent F) (v : TradingEngine F) → P v → P (p (position_update u) v))
      → ((r : RiskViolationEvent F) (v : TradingEngine F) → P v → P (p (risk_violation r) v))
      → P w
      → P (PositionEngine.on_fill (position_host p) e w)
  unfolding PositionEngine.on_fill
  fill-kept e w stored forgot updated warned h = elim (Bool-cases (is_filled e.status)) [
    | inr other ↦ rw (other, PositionEngine.on_fill) h
    | inl filled ↦ elim (Option-cases (find e.order_id w.position_engine.order_cache)) [
      | inl unknown ↦ rw (filled, PositionEngine.on_fill) (rw (unknown, PositionEngine.on_fill) h)
      | inr (info, known) ↦
          elim (Bool-cases (
            (filled_position e info w.position_engine).realized_pnl
            <? w.position_engine.limits.max_drawdown)) [
              | inl under ↦
                  rw (filled, PositionEngine.on_fill)
                    (rw (known, PositionEngine.on_fill)
                      (rw under (forgot _ _ (warned _ _ (updated _ _ (stored info w h))))))
              | inr above ↦
                  rw (filled, PositionEngine.on_fill)
                    (rw (known, PositionEngine.on_fill)
                      (rw above (forgot _ _ (updated _ _ (stored info w h)))))
            ]
    ]
  ]

  -- `P'` holds after a publish, and wherever `P` does.
  module _ (P' : TradingEngine F → Type 0) (weaken : (v : TradingEngine F) → P v → P' v) where
    pub signal-kept :
        (now : Timestamp) (e : SignalEvent F) (w : TradingEngine F)
        → (w.risk_engine.halt_flag ≡ false
            → P w
            → P' (p (order_event (order_event_of now w.order_id_gen.next e)) (draw w)))
        → P w
        → P' (RiskEngine.on_signal (risk_host p) now e w)
    unfolding RiskEngine.on_signal next_id
    signal-kept now e w ordered h =
        if-kept P' w.risk_engine.halt_flag (λ s. weaken w h)
          (λ at_work.
            if-kept P' (exceeds_limit w.risk_engine.limits w.position_engine e) (λ o. weaken w h)
              (λ u. ordered at_work h))

    pub tick-kept :
        (now : Timestamp) (e : MarketDataEvent F) (w : TradingEngine F)
        → (P w → P' (p (signal (signal_of now e)) w))
        → P w
        → P' (DummyStrategy.on_market_data p now e w)
    unfolding DummyStrategy.on_market_data
    tick-kept now e w signalled h = elim (Bool-cases (e.price ≤? lit 0)) [
      | inl low ↦ rw (low, DummyStrategy.on_market_data) (weaken w h)
      | inr high ↦ rw (high, DummyStrategy.on_market_data) (signalled h)
    ]

    -- `P''` holds after the second of two reports.
    pub execution-kept :
        (P'' : TradingEngine F → Type 0) (ticks_per_ms : ℕ) (e : OrderEvent F) (w : TradingEngine F)
        → ((r : ExecutionReportEvent F) (v : TradingEngine F) → P v → P' (p (execution_report r) v))
        → ((r : ExecutionReportEvent F) (v : TradingEngine F)
            → P' v
            → P'' (p (execution_report r) v))
        → P w
        → P'' (Execution.mock_on_order p ticks_per_ms (simulation_time (λ v. v.sim_clock)) e w)
    unfolding Execution.mock_on_order
    execution-kept P'' ticks_per_ms e w first second h = second _ _ (first _ w h)
