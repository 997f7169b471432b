-- ===== src/TradingEngine/World.antt =====
-- The engine's state, and what each callback on its buses does.
use quant_core_engine.Prelude.{ℕ, zero, suc, Bool}
use quant_core_engine.Double.{Double}
use quant_core_engine.Events.{
  Timestamp, Event, market_data, signal, order_event, order_update, execution_report,
  position_update, risk_violation, Host,
}
use quant_core_engine.EventBus.{Bus, SubscriptionId}
use quant_core_engine.EventBus
use quant_core_engine.ThreadSafeQueue.{Queue, push}
use quant_core_engine.OrderIdGenerator.{OrderIdGenerator, next_id}
use quant_core_engine.TimeProvider.{SimulationTimeProvider, simulation_time}
use quant_core_engine.OrderTracker.{OrderTracker}
use quant_core_engine.OrderTracker
use quant_core_engine.PositionEngine.{PositionEngine}
use quant_core_engine.PositionEngine
use quant_core_engine.RiskEngine.{RiskEngine, RiskHost}
use quant_core_engine.RiskEngine
use quant_core_engine.Execution
use quant_core_engine.DummyStrategy

-- The three loops: strategy_loop_, risk_loop_ and the one inside order_routing_thread_.
pub data Loop : Type 0 where
  strategy risk routing : Loop

-- The lambdas that the components and `TradingEngine::start` subscribe.
pub data Callback : Type 0 where
  tracker_on_order tracker_on_report position_on_order position_on_fill : Callback
  risk_on_signal risk_on_violation strategy_on_market_data execution_on_order : Callback
  forward_signal forward_order forward_report : Callback
  telemetry_order telemetry_position telemetry_violation : Callback

pub record TradingEngine (F : Type 0) : Type 0 where
  pub strategy_bus : Bus Callback
  pub risk_bus : Bus Callback
  pub routing_bus : Bus Callback
  pub strategy_queue : Queue (Event F)
  pub risk_queue : Queue (Event F)
  pub routing_queue : Queue (Event F)
  pub telemetry_queue : Queue (Event F)
  pub order_id_gen : OrderIdGenerator
  pub sim_clock : SimulationTimeProvider
  pub order_tracker : OrderTracker F
  pub position_engine : PositionEngine F
  pub risk_engine : RiskEngine F
  pub execution_sub_id : SubscriptionId
  pub strategy_sub_id : SubscriptionId
  pub running : Bool

module _ {F : Type 0} where
  abbrev pub bus_of : Loop → TradingEngine F → Bus Callback
  bus_of strategy w = w.strategy_bus
  bus_of risk w = w.risk_bus
  bus_of routing w = w.routing_bus

  -- A push onto a queue from any thread.
  abbrev pub push_strategy : Event F → TradingEngine F → TradingEngine F
  push_strategy e w = record w { strategy_queue = push e w.strategy_queue }

  abbrev pub push_risk : Event F → TradingEngine F → TradingEngine F
  push_risk e w = record w { risk_queue = push e w.risk_queue }

  abbrev pub push_routing : Event F → TradingEngine F → TradingEngine F
  push_routing e w = record w { routing_queue = push e w.routing_queue }

  -- `IpcServer::pushTelemetry`.
  abbrev pub push_telemetry : Event F → TradingEngine F → TradingEngine F
  push_telemetry e w = record w { telemetry_queue = push e w.telemetry_queue }

-- What the callbacks reach of the engine: its members, and the two threads that they hand events to,
-- `order_routing_thread_->push` and `ipc_server_->pushTelemetry`.
pub record EngineHost (W F : Type 0) : Type 0 where
  pub engine : W → TradingEngine F
  pub put_engine : TradingEngine F → W → W
  pub route : Event F → W → W
  pub tell : Event F → W → W

module _ {F : Type 0} where
  abbrev pub itself : EngineHost (TradingEngine F) F
  itself = record {
    engine = λ w. w;
    put_engine = λ v w. v;
    route = push_routing;
    tell = push_telemetry;
  }

  module _ {W : Type 0} (h : EngineHost W F) (publish : Event F → W → W) where
    abbrev pub tracker_host_in : Host (OrderTracker F) W F
    tracker_host_in = record {
      get = λ w. (h.engine w).order_tracker;
      put = λ s w. h.put_engine (record (h.engine w) { order_tracker = s }) w;
      publish = publish;
    }

    abbrev pub position_host_in : Host (PositionEngine F) W F
    position_host_in = record {
      get = λ w. (h.engine w).position_engine;
      put = λ s w. h.put_engine (record (h.engine w) { position_engine = s }) w;
      publish = publish;
    }

    abbrev pub risk_host_in : RiskHost W F
    risk_host_in = record {
      host = record {
        get = λ w. (h.engine w).risk_engine;
        put = λ s w. h.put_engine (record (h.engine w) { risk_engine = s }) w;
        publish = publish;
      };
      draw_id = λ w.
          let (id, order_id_gen) = next_id (h.engine w).order_id_gen in
          (id, h.put_engine (record (h.engine w) { order_id_gen = order_id_gen }) w);
      positions = λ w. (h.engine w).position_engine;
    }

  module _ (publish : Event F → TradingEngine F → TradingEngine F) where
    abbrev pub tracker_host : Host (OrderTracker F) (TradingEngine F) F
    tracker_host = tracker_host_in itself publish

    abbrev pub position_host : Host (PositionEngine F) (TradingEngine F) F
    position_host = position_host_in itself publish

    abbrev pub risk_host : RiskHost (TradingEngine F) F
    risk_host = risk_host_in itself publish

-- `ticks_per_ms` is the period of the system clock, and `now` its reading in this turn of a loop.
module _ {F : Type 0} ⦃d : Double F⦄ (ticks_per_ms : ℕ) (now : Timestamp) where
  module _ {W : Type 0} (h : EngineHost W F) where
    -- A callback ignores the events that its type does not match.
    unfoldable pub invoke_in : (Loop → Event F → W → W) → Callback → Event F → W → W
    invoke_in publish tracker_on_order (order_event e) w =
        OrderTracker.on_order (tracker_host_in h (publish risk)) e w
    invoke_in publish tracker_on_report (execution_report e) w =
        OrderTracker.on_execution_report (tracker_host_in h (publish risk)) e w
    invoke_in publish position_on_order (order_event e) w =
        PositionEngine.on_order (position_host_in h (publish risk)) e w
    invoke_in publish position_on_fill (execution_report e) w =
        PositionEngine.on_fill (position_host_in h (publish risk)) e w
    invoke_in publish risk_on_signal (signal e) w =
        RiskEngine.on_signal (risk_host_in h (publish risk)) now e w
    invoke_in publish risk_on_violation (risk_violation e) w =
        RiskEngine.on_risk_violation (risk_host_in h (publish risk)) e w
    invoke_in publish strategy_on_market_data (market_data e) w =
        DummyStrategy.on_market_data (publish strategy) now e w
    invoke_in publish execution_on_order (order_event e) w =
        Execution.mock_on_order (publish routing) ticks_per_ms
          (simulation_time (λ v. (h.engine v).sim_clock)) e w
    invoke_in publish forward_signal (signal e) w =
        h.put_engine (push_risk (signal e) (h.engine w)) w
    invoke_in publish forward_order (order_event e) w = h.route (order_event e) w
    invoke_in publish forward_report (execution_report e) w =
        h.put_engine (push_risk (execution_report e) (h.engine w)) w
    invoke_in publish telemetry_order (order_update e) w = h.tell (order_update e) w
    invoke_in publish telemetry_position (position_update e) w = h.tell (position_update e) w
    invoke_in publish telemetry_violation (risk_violation e) w = h.tell (risk_violation e) w
    invoke_in publish _ _ w = w

  -- While the two threads exist.
  unfoldable pub invoke :
      (Loop → Event F → TradingEngine F → TradingEngine F)
      → Callback
      → Event F
      → TradingEngine F
      → TradingEngine F
  unfolding invoke_in
  invoke publish c e w = invoke_in itself publish c e w

  -- `EventBus::publish` on the bus of a loop. A callback may publish in turn; the fuel bounds how
  -- deep that goes, see `Fuel`.
  unfoldable pub publish : ℕ → Loop → Event F → TradingEngine F → TradingEngine F
  unfolding invoke
  publish zero l e w = w
  publish (suc fuel) l e w = EventBus.publish (bus_of l) (invoke (publish fuel)) e w

abbrev pub depth : ℕ
depth = 5
