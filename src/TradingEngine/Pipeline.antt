-- ===== src/TradingEngine/Pipeline.antt =====
-- A market tick's way through all three loops of an engine just started, to the books.
use quant_core_engine.Prelude.{ℕ, ◌≡◌, refl, ap, ◌∙◌, true, false, none, [], ◌∷◌, nat_eq, string_eq}
use quant_core_engine.Double.{Double, lit, ◌+◌, neg, ◌<?◌, ◌≤?◌, ◌==◌}
use quant_core_engine.Domain.{Position, accepted}
use quant_core_engine.Events.{
  Timestamp, MarketDataEvent, OrderEvent, ExecutionReportEvent, signal, execution_report,
  order_update, position_update,
}
use quant_core_engine.EventBus
use quant_core_engine.ThreadSafeQueue.{push, try_pop}
use quant_core_engine.Table.{find, insert, erase}
use quant_core_engine.OrderTracker
use quant_core_engine.PositionEngine
use quant_core_engine.PositionEngine.Fills.{fill_within}
use quant_core_engine.PositionEngine.ApplyFill.{apply_fill}
use quant_core_engine.RiskEngine
use quant_core_engine.Execution
use quant_core_engine.DummyStrategy
use quant_core_engine.TradingEngine.World.{
  TradingEngine, position_host, strategy, risk, routing, publish,
}
use quant_core_engine.TimeProvider.{new_clock, now_ms, ms_to_timestamp}
use quant_core_engine.TradingEngine.Stages.{wired, after_signal, publish_signal, publish_order}
use quant_core_engine.TradingEngine.Wiring.{start, wire, new_engine}
use quant_core_engine.TradingEngine.Turns.{push_market_data, turn, run}

module _ {F : Type 0} ⦃d : Double F⦄ (ticks_per_ms : ℕ) (t0 t1 t2 t3 t4 : Timestamp)
    (e : MarketDataEvent F) where
  abbrev pub started : TradingEngine F
  started = start true none new_engine

  abbrev pub bought_one : Position F
  bought_one = record {
    symbol = e.symbol;
    net_quantity = lit 1;
    average_price = e.price;
    realized_pnl = lit 0;
  }

  abbrev order : OrderEvent F
  order = RiskEngine.order_event_of t1 1 (DummyStrategy.signal_of t0 e)

  abbrev time : Timestamp
  time = ms_to_timestamp ticks_per_ms (now_ms new_clock)

  abbrev ack : ExecutionReportEvent F
  ack = Execution.ack_report time order

  abbrev fill : ExecutionReportEvent F
  fill = Execution.fill_report time order

  abbrev signalled : TradingEngine F
  signalled = wired (record started {
    risk_queue = record { items = signal (DummyStrategy.signal_of t0 e) ∷ [] };
  })

  abbrev ordered : TradingEngine F
  ordered = wired (after_signal ticks_per_ms t1 (DummyStrategy.signal_of t0 e) started)

  abbrev reported : TradingEngine F
  reported = record ordered {
    routing_queue = record { items = [] };
    risk_queue = record { items = execution_report ack ∷ execution_report fill ∷ [] };
  }

  abbrev acknowledged : TradingEngine F
  acknowledged = record reported {
    risk_queue = record { items = execution_report fill ∷ [] };
    order_tracker = record ordered.order_tracker {
      active_orders = (1, OrderTracker.advanced ack accepted order.order) ∷ [];
    };
    telemetry_queue =
        push (order_update (OrderTracker.report_update ack order.order)) ordered.telemetry_queue;
  }

  -- The engine after the fill: no order is left, and one unit is held.
  abbrev pub booked : TradingEngine F
  booked = record acknowledged {
    risk_queue = record { items = [] };
    order_tracker = record ordered.order_tracker { active_orders = [] };
    position_engine = record ordered.position_engine {
      positions = (e.symbol, bought_one) ∷ [];
      order_cache = [];
    };
    telemetry_queue = push (position_update (PositionEngine.update_of fill bought_one)) (
        push
          (order_update
            (OrderTracker.report_update fill (OrderTracker.advanced ack accepted order.order)))
          acknowledged.telemetry_queue);
  }

  strategy_turn :
      (e.price ≤? lit 0) ≡ false
      → turn ticks_per_ms strategy t0 (push_market_data e started) ≡ signalled
  unfolding turn push_market_data publish start wire new_engine EventBus.publish EventBus.subscribe
      push try_pop DummyStrategy.on_market_data
  strategy_turn high = rw (high, DummyStrategy.on_market_data) refl

  risk_turn :
      (lit 1000 <? lit {F = F} 0 + lit 1) ≡ false → turn ticks_per_ms risk t1 signalled ≡ ordered
  unfolding turn try_pop start wire new_engine RiskEngine.exceeds_limit RiskEngine.current_quantity
      PositionEngine.position find
  risk_turn under = publish_signal ticks_per_ms t1 (DummyStrategy.signal_of t0 e) started refl under

  routing_turn : turn ticks_per_ms routing t2 ordered ≡ reported
  unfolding turn try_pop start wire new_engine push
  routing_turn =
      publish_order ticks_per_ms t2 order (record ordered { routing_queue = record { items = [] } })

  ack_turn : turn ticks_per_ms risk t3 reported ≡ acknowledged
  unfolding turn try_pop start wire new_engine push publish EventBus.publish
      OrderTracker.on_execution_report PositionEngine.on_fill find insert Execution.ack_report
      RiskEngine.order_event_of
  ack_turn = refl

  -- The engine when the tracker has taken the fill, and the position engine has not.
  abbrev filled_order : TradingEngine F
  filled_order = record acknowledged {
    risk_queue = record { items = [] };
    order_tracker = record ordered.order_tracker { active_orders = [] };
    telemetry_queue =
        push
          (order_update
            (OrderTracker.report_update fill (OrderTracker.advanced ack accepted order.order)))
          acknowledged.telemetry_queue;
  }

  tracker_filled :
      turn ticks_per_ms risk t4 acknowledged
      ≡ PositionEngine.on_fill (position_host (publish ticks_per_ms t4 4 risk)) fill filled_order
  unfolding turn try_pop start wire new_engine push publish EventBus.publish
      OrderTracker.on_execution_report find insert erase Execution.fill_report
      RiskEngine.order_event_of
  tracker_filled = refl

  bought_one-filled_position :
      (lit {F = F} 0 == lit 0) ≡ true
      → PositionEngine.filled_position fill
          (PositionEngine.order_info order)
          started.position_engine
        ≡ bought_one
  unfolding start wire new_engine find Execution.fill_report RiskEngine.order_event_of apply_fill
      PositionEngine.filled_position DummyStrategy.signal_of PositionEngine.order_info
  bought_one-filled_position zero = rw zero refl

  fill_turn :
      (lit {F = F} 0 == lit 0) ≡ true
      → (lit 0 <? neg (lit {F = F} 500)) ≡ false
      → turn ticks_per_ms risk t4 acknowledged ≡ booked
  unfolding start wire new_engine find insert erase push publish EventBus.publish
      Execution.fill_report RiskEngine.order_event_of PositionEngine.is_filled
      PositionEngine.filled_position PositionEngine.order_info DummyStrategy.signal_of
  fill_turn zero above =
      tracker_filled
      ∙ fill_within (position_host (publish ticks_per_ms t4 4 risk)) fill
          (PositionEngine.order_info order) bought_one filled_order refl refl
          (bought_one-filled_position zero) above

  -- A tick with a positive price, pushed on an engine just started with IPC and with nothing to
  -- reconcile, is booked after one turn of a loop for each event that it gives rise to: one unit is held
  -- at its price, no order is open or awaits a fill, and the three updates of the order and the one of
  -- the position are queued for telemetry. The conditions on constants hold of IEEE doubles: 1 is
  -- within the limit of 1000, 0 equals 0, and 0 is not below -500.
  pub tick-booked :
      (e.price ≤? lit 0) ≡ false
      → (lit 1000 <? lit {F = F} 0 + lit 1) ≡ false
      → (lit {F = F} 0 == lit 0) ≡ true
      → (lit 0 <? neg (lit {F = F} 500)) ≡ false
      → run ticks_per_ms
          ((strategy, t0) ∷ (risk, t1) ∷ (routing, t2) ∷ (risk, t3) ∷ (risk, t4) ∷ [])
          (push_market_data e (start true none new_engine))
        ≡ booked
  unfolding run
  tick-booked high under zero above =
      ap
        (λ w.
          turn ticks_per_ms risk t4 (
            turn ticks_per_ms risk t3 (turn ticks_per_ms routing t2 (turn ticks_per_ms risk t1 w))))
        (strategy_turn high)
      ∙ ap
          (λ w.
            turn ticks_per_ms risk t4 (turn ticks_per_ms risk t3 (turn ticks_per_ms routing t2 w)))
          (risk_turn under)
      ∙ ap (λ w. turn ticks_per_ms risk t4 (turn ticks_per_ms risk t3 w)) routing_turn
      ∙ ap (turn ticks_per_ms risk t4) ack_turn
      ∙ fill_turn zero above
