-- ===== src/TradingEngine/Wiring.antt =====
-- `TradingEngine::start` and `stop`: which callback is subscribed to which bus, in which order, and
-- which of them are taken off again.
use quant_core_engine.Prelude.{Bool, true, false, Option, none, some, List, [], ◌∷◌, if◌then◌else◌}
use quant_core_engine.Double.{Double}
use quant_core_engine.Domain.{Order, Position, default_limits}
use quant_core_engine.EventBus.{Bus, SubscriptionId, new_bus, subscribe, unsubscribe}
use quant_core_engine.ThreadSafeQueue.{new_queue}
use quant_core_engine.OrderIdGenerator.{new_generator}
use quant_core_engine.TimeProvider.{new_clock}
use quant_core_engine.OrderTracker.{hydrate_order}
use quant_core_engine.PositionEngine.{hydrate_position}
use quant_core_engine.TradingEngine.World.{
  Loop, strategy, risk, routing, Callback, tracker_on_order, tracker_on_report, position_on_order,
  position_on_fill, risk_on_signal, risk_on_violation, strategy_on_market_data, execution_on_order,
  forward_signal, forward_order, forward_report, telemetry_order, telemetry_position,
  telemetry_violation, TradingEngine, bus_of,
}

-- What an IReconciler reports at start.
pub record Reconciled (F : Type 0) : Type 0 where
  pub positions : List (Position F)
  pub orders : List (Order F)

module _ {F : Type 0} where
  abbrev pub set_bus : Loop → Bus Callback → TradingEngine F → TradingEngine F
  set_bus strategy b w = record w { strategy_bus = b }
  set_bus risk b w = record w { risk_bus = b }
  set_bus routing b w = record w { routing_bus = b }

  unfoldable pub subscribe_on : Loop → Callback → TradingEngine F → SubscriptionId × TradingEngine F
  subscribe_on l c w = let (id, b) = subscribe c (bus_of l w) in (id, set_bus l b w)

  unfoldable pub unsubscribe_on : Loop → SubscriptionId → TradingEngine F → TradingEngine F
  unsubscribe_on l id w = set_bus l (unsubscribe id (bus_of l w)) w

  -- `subscribe` where the id is dropped.
  unfoldable pub bridge : Loop → Callback → TradingEngine F → TradingEngine F
  unfolding subscribe_on
  bridge l c w = (subscribe_on l c w).1

  -- The constructors, in the source's order of subscription.
  unfoldable pub create_order_tracker : TradingEngine F → TradingEngine F
  unfolding subscribe_on
  create_order_tracker w =
      let (order, w1) = subscribe_on risk tracker_on_order w in
      let (exec, w2) = subscribe_on risk tracker_on_report w1 in
      record w2 {
        order_tracker = record { order_sub_id = order; exec_sub_id = exec; active_orders = [] };
      }

  unfoldable pub hydrate_positions : List (Position F) → TradingEngine F → TradingEngine F
  unfolding hydrate_position
  hydrate_positions [] w = w
  hydrate_positions (pos ∷ rest) w =
      hydrate_positions rest (record w { position_engine = hydrate_position pos w.position_engine })

  unfoldable pub hydrate_orders : List (Order F) → TradingEngine F → TradingEngine F
  unfolding hydrate_order
  hydrate_orders [] w = w
  hydrate_orders (order ∷ rest) w =
      hydrate_orders rest (record w { order_tracker = hydrate_order order w.order_tracker })

  unfoldable pub reconcile : Option (Reconciled F) → TradingEngine F → TradingEngine F
  unfolding hydrate_positions hydrate_orders
  reconcile none w = w
  reconcile (some r) w = hydrate_orders r.orders (hydrate_positions r.positions w)

  -- `OrderRoutingThread::start` on a new thread object, whose bus is empty.
  unfoldable pub create_order_routing : TradingEngine F → TradingEngine F
  unfolding subscribe_on
  create_order_routing w =
      let fresh = record w { routing_bus = new_bus; routing_queue = new_queue } in
      let (id, w1) = subscribe_on routing execution_on_order fresh in
      record w1 { execution_sub_id = id }

  unfoldable pub create_strategy : TradingEngine F → TradingEngine F
  unfolding subscribe_on
  create_strategy w =
      let (id, w1) = subscribe_on strategy strategy_on_market_data w in
      record w1 { strategy_sub_id = id }

  -- The telemetry bridges, made if both IPC endpoints are configured.
  unfoldable pub create_ipc : Bool → TradingEngine F → TradingEngine F
  unfolding bridge
  create_ipc false w = w
  create_ipc true w =
      bridge risk telemetry_violation
        (bridge risk telemetry_position (bridge risk telemetry_order w))

module _ {F : Type 0} ⦃d : Double F⦄ where
  unfoldable pub create_position_engine : TradingEngine F → TradingEngine F
  unfolding subscribe_on
  create_position_engine w =
      let (order, w1) = subscribe_on risk position_on_order w in
      let (fill, w2) = subscribe_on risk position_on_fill w1 in
      record w2 {
        position_engine = record {
          order_sub_id = order;
          fill_sub_id = fill;
          limits = default_limits;
          positions = [];
          order_cache = [];
        };
      }

  unfoldable pub create_risk_engine : TradingEngine F → TradingEngine F
  unfolding subscribe_on
  create_risk_engine w =
      let (signal, w1) = subscribe_on risk risk_on_signal w in
      let (violation, w2) = subscribe_on risk risk_on_violation w1 in
      record w2 {
        risk_engine = record {
          limits = default_limits;
          halt_flag = false;
          signal_sub_id = signal;
          violation_sub_id = violation;
        };
      }

  -- The body of `start`. `ipc` says whether both IPC endpoints are set. Starting the threads is left
  -- to the schedule.
  unfoldable pub wire : Bool → Option (Reconciled F) → TradingEngine F → TradingEngine F
  unfolding create_order_tracker create_position_engine reconcile bridge create_order_routing
      create_strategy create_risk_engine create_ipc
  wire ipc reconciler w =
      let tracking = create_position_engine (create_order_tracker w) in
      let hydrated = reconcile reconciler tracking in
      let signals = bridge strategy forward_signal hydrated in
      let routed = create_order_routing signals in
      let bridged = bridge routing forward_report (bridge risk forward_order routed) in
      let wired = create_risk_engine (create_strategy bridged) in
      record (create_ipc ipc wired) { running = true }

  unfoldable pub start : Bool → Option (Reconciled F) → TradingEngine F → TradingEngine F
  start ipc reconciler w = if w.running then w else wire ipc reconciler w

  -- The body of `stop`: the components unsubscribe as they are destroyed; nothing takes the bridges
  -- off.
  unfoldable pub shut_down : TradingEngine F → TradingEngine F
  unfolding unsubscribe_on
  shut_down w =
      let w1 = unsubscribe_on risk w.risk_engine.violation_sub_id w in
      let w2 = unsubscribe_on risk w.risk_engine.signal_sub_id w1 in
      let w3 = unsubscribe_on risk w.position_engine.fill_sub_id w2 in
      let w4 = unsubscribe_on risk w.position_engine.order_sub_id w3 in
      let w5 = unsubscribe_on risk w.order_tracker.exec_sub_id w4 in
      let w6 = unsubscribe_on risk w.order_tracker.order_sub_id w5 in
      let w7 = unsubscribe_on strategy w.strategy_sub_id w6 in
      let w8 = unsubscribe_on routing w.execution_sub_id w7 in record w8 { running = false }

  unfoldable pub stop : TradingEngine F → TradingEngine F
  stop w = if w.running then shut_down w else w

  -- `TradingEngine::TradingEngine`; the components do not exist yet.
  unfoldable pub new_engine : TradingEngine F
  new_engine = record {
    strategy_bus = new_bus;
    risk_bus = new_bus;
    routing_bus = new_bus;
    strategy_queue = new_queue;
    risk_queue = new_queue;
    routing_queue = new_queue;
    telemetry_queue = new_queue;
    order_id_gen = new_generator;
    sim_clock = new_clock;
    order_tracker = record { order_sub_id = 0; exec_sub_id = 0; active_orders = [] };
    position_engine = record {
      order_sub_id = 0;
      fill_sub_id = 0;
      limits = default_limits;
      positions = [];
      order_cache = [];
    };
    risk_engine = record {
      limits = default_limits;
      halt_flag = false;
      signal_sub_id = 0;
      violation_sub_id = 0;
    };
    execution_sub_id = 0;
    strategy_sub_id = 0;
    running = false;
  }
