-- ===== src/TradingEngine/Stages.antt =====
-- What one event does on each loop of an engine that `start` has wired, with IPC: the stages that a
-- market tick goes through.
use quant_core_engine.Prelude.{
  ℕ, ◌≡◌, refl, ap, ◌∙◌, true, false, Option, none, some, List, [], ◌∷◌, nat_eq,
}
use quant_core_engine.Domain.{Order, Position}
use quant_core_engine.TradingEngine.World.{strategy}
use quant_core_engine.Double.{Double}
use quant_core_engine.Events.{
  Timestamp, SignalEvent, OrderEvent, signal, order_event, order_update, execution_report,
}
use quant_core_engine.EventBus.{Bus, SubscriptionId}
use quant_core_engine.EventBus
use quant_core_engine.ThreadSafeQueue.{push}
use quant_core_engine.OrderIdGenerator.{next_id}
use quant_core_engine.Table.{insert}
use quant_core_engine.OrderTracker
use quant_core_engine.PositionEngine
use quant_core_engine.RiskEngine
use quant_core_engine.Execution
use quant_core_engine.TimeProvider.{now_ms, ms_to_timestamp}
use quant_core_engine.TradingEngine.World.{
  Callback, TradingEngine, publish, depth, risk, routing, tracker_on_order, tracker_on_report,
  position_on_order, position_on_fill, risk_on_signal, risk_on_violation, strategy_on_market_data,
  execution_on_order, forward_signal, forward_order, forward_report, telemetry_order,
  telemetry_position, telemetry_violation,
}
use quant_core_engine.TradingEngine.Wiring.{
  Reconciled, start, new_engine, wire, bridge, create_order_routing, create_ipc, create_risk_engine,
  create_strategy, create_position_engine, create_order_tracker, reconcile, hydrate_positions,
  hydrate_orders,
}

abbrev pub wired_strategy : Bus Callback
wired_strategy = record {
  next_id = 2;
  subscribers = (0, forward_signal) ∷ (1, strategy_on_market_data) ∷ [];
}

abbrev pub wired_risk : Bus Callback
wired_risk = record {
  next_id = 10;
  subscribers =
      (0, tracker_on_order)
      ∷ (1, tracker_on_report)
      ∷ (2, position_on_order)
      ∷ (3, position_on_fill)
      ∷ (4, forward_order)
      ∷ (5, risk_on_signal)
      ∷ (6, risk_on_violation)
      ∷ (7, telemetry_order)
      ∷ (8, telemetry_position)
      ∷ (9, telemetry_violation)
      ∷ [];
}

abbrev pub wired_routing : Bus Callback
wired_routing = record {
  next_id = 2;
  subscribers = (0, execution_on_order) ∷ (1, forward_report) ∷ [];
}

module _ {F : Type 0} where
  abbrev pub wired : TradingEngine F → TradingEngine F
  wired w = record w {
    strategy_bus = wired_strategy;
    risk_bus = wired_risk;
    routing_bus = wired_routing;
  }

pub record Buses : Type 0 where
  pub strategy_bus : Bus Callback
  pub risk_bus : Bus Callback
  pub routing_bus : Bus Callback

abbrev pub started_buses : Buses
started_buses = record {
  strategy_bus = wired_strategy;
  risk_bus = wired_risk;
  routing_bus = wired_routing;
}

module _ {F : Type 0} where
  abbrev pub buses : TradingEngine F → Buses
  buses w = record {
    strategy_bus = w.strategy_bus;
    risk_bus = w.risk_bus;
    routing_bus = w.routing_bus;
  }

  abbrev pub with_buses : Buses → TradingEngine F → TradingEngine F
  with_buses b w = record w {
    strategy_bus = b.strategy_bus;
    risk_bus = b.risk_bus;
    routing_bus = b.routing_bus;
  }

  buses-hydrate_positions :
      (ps : List (Position F)) (w : TradingEngine F) → buses (hydrate_positions ps w) ≡ buses w
  unfolding hydrate_positions
  buses-hydrate_positions [] w = refl
  buses-hydrate_positions (p ∷ ps) w = buses-hydrate_positions ps _

  buses-hydrate_orders :
      (os : List (Order F)) (w : TradingEngine F) → buses (hydrate_orders os w) ≡ buses w
  unfolding hydrate_orders
  buses-hydrate_orders [] w = refl
  buses-hydrate_orders (o ∷ os) w = buses-hydrate_orders os _

  pub buses-reconcile :
      (r : Option (Reconciled F)) (w : TradingEngine F) → buses (reconcile r w) ≡ buses w
  unfolding reconcile
  buses-reconcile none w = refl
  buses-reconcile (some r) w =
      buses-hydrate_orders r.orders _ ∙ buses-hydrate_positions r.positions w

module _ {F : Type 0} ⦃d : Double F⦄ where
  -- What `start` does after the reconciliation, to the buses alone.
  abbrev finished : TradingEngine F → Buses → Buses
  finished w b =
      let bridged = bridge strategy forward_signal (with_buses b w) in
      let routed = bridge risk forward_order (create_order_routing bridged) in
      buses (
        create_ipc true
          (create_risk_engine (create_strategy (bridge routing forward_report routed))))

  pub buses-start :
      (r : Option (Reconciled F)) → buses (start true r (new_engine {F = F})) ≡ started_buses
  unfolding start new_engine wire EventBus.subscribe
  buses-start r =
      let tracking = create_position_engine (create_order_tracker (new_engine {F = F})) in
      ap (finished (reconcile r tracking)) (buses-reconcile r tracking)

  -- The first `start`, with IPC, leaves each bus with one list of subscribers, whatever was
  -- reconciled.
  pub start-wired :
      (r : Option (Reconciled F))
      → start true r (new_engine {F = F}) ≡ wired (start true r new_engine)
  start-wired r = ap (λ b. with_buses b (start true r (new_engine {F = F}))) (buses-start r)

module _ {F : Type 0} ⦃d : Double F⦄ (ticks_per_ms : ℕ) (now : Timestamp) where
  -- The engine after a signal that has become an order.
  abbrev pub after_signal : SignalEvent F → TradingEngine F → TradingEngine F
  after_signal e w =
      let o = RiskEngine.order_event_of now w.order_id_gen.next e in
      record w {
        order_id_gen = (next_id w.order_id_gen).1;
        order_tracker = record w.order_tracker {
          active_orders = insert o.order.id o.order w.order_tracker.active_orders;
        };
        position_engine = record w.position_engine {
          order_cache =
              insert o.order.id (PositionEngine.order_info o) w.position_engine.order_cache;
        };
        routing_queue = push (order_event o) w.routing_queue;
        telemetry_queue = push (order_update (OrderTracker.opening_update o)) w.telemetry_queue;
      }

  -- A signal that reaches the risk bus of an engine with the buses of a start with IPC, while
  -- trading is not halted and the limit allows it, becomes one order: tracked, cached for its fill,
  -- sent to the router and reported.
  pub publish_signal :
      (e : SignalEvent F) (w : TradingEngine F)
      → w.risk_engine.halt_flag ≡ false
      → RiskEngine.exceeds_limit w.risk_engine.limits w.position_engine e ≡ false
      → publish ticks_per_ms now depth risk (signal e) (wired w) ≡ wired (after_signal e w)
  unfolding publish EventBus.publish RiskEngine.on_signal OrderTracker.on_order
      PositionEngine.on_order next_id
  publish_signal e w halted under = rw (halted, under) refl

  -- An order that reaches the routing bus of an engine with the buses of a start with IPC is
  -- answered with an acceptance and a fill, both queued for the risk loop in this order, and
  -- nothing else changes.
  pub publish_order :
      (o : OrderEvent F) (w : TradingEngine F)
      → publish ticks_per_ms now depth routing (order_event o) (wired w) ≡ (
          let ts = ms_to_timestamp ticks_per_ms (now_ms w.sim_clock) in
          wired (record w {
            risk_queue =
                push
                  (execution_report (Execution.fill_report ts o))
                  (push (execution_report (Execution.ack_report ts o)) w.risk_queue);
          }))
  unfolding publish EventBus.publish Execution.mock_on_order
  publish_order o w = refl
