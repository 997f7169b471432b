-- ===== src/TradingEngine/Simulation.antt =====
-- Two worlds with the engine's handlers side by side: a relation that every read, put and push keeps is
-- kept by each handler, each callback, and a publish with all that it sets off.
pub mod Handlers
pub mod Publishing
pub mod Schedules
use quant_core_engine.Prelude.{
  ℕ, String, zero, suc, ◌≡◌, ap, ◌∙◌, List, [], ◌∷◌, All, inl, inr, map, Bool, true, false,
  if◌then◌else◌, Bool-cases, Option-cases, nat_eq, string_eq,
}
use quant_core_engine.Double.{Double, ◌<?◌, ◌≤?◌, lit}
use quant_core_engine.Events.{
  Timestamp, MarketDataEvent, SignalEvent, OrderEvent, ExecutionReportEvent, Event, market_data,
  signal, order_event, order_update, execution_report, position_update, risk_violation,
}
use quant_core_engine.Table.{find, insert, erase}
use quant_core_engine.Domain.{OrderId, Order, Position}
use quant_core_engine.EventBus.{SubscriptionId, Bus}
use quant_core_engine.EventBus
use quant_core_engine.OrderIdGenerator.{OrderIdGenerator, next_id}
use quant_core_engine.OrderTracker.{OrderTracker, transition_status, is_terminal, propose}
use quant_core_engine.OrderTracker
use quant_core_engine.PositionEngine.{PositionEngine, OrderInfo, is_filled, filled_position}
use quant_core_engine.PositionEngine
use quant_core_engine.RiskEngine.{RiskEngine, exceeds_limit}
use quant_core_engine.RiskEngine
use quant_core_engine.Execution
use quant_core_engine.DummyStrategy
use quant_core_engine.TradingEngine.World.{
  Loop, strategy, risk, routing, Callback, tracker_on_order, tracker_on_report, position_on_order,
  position_on_fill, risk_on_signal, risk_on_violation, strategy_on_market_data, execution_on_order,
  forward_signal, forward_order, forward_report, telemetry_order, telemetry_position,
  telemetry_violation, TradingEngine, EngineHost, bus_of, tracker_host_in, position_host_in,
  risk_host_in, tracker_host, position_host, risk_host, push_risk, push_routing, push_telemetry,
  invoke_in, invoke, publish,
}

-- The callbacks on a bus, whatever their ids.
abbrev pub callbacks : Bus Callback → List Callback
callbacks b = map (λ s. s.1) b.subscribers

-- `routed` is what the bridge to the router asks of the world, and `told` what those to the IPC server
-- ask.
abbrev pub Allowed : Type 0 → Type 0 → Callback → Type 0
Allowed routed told forward_order = routed
Allowed routed told telemetry_order = told
Allowed routed told telemetry_position = told
Allowed routed told telemetry_violation = told
Allowed routed told _ = Unit

-- If both pointers are there, every callback has what it uses.
pub All-Allowed :
    (routed told : Type 0) (r : routed) (t : told) (subs : List (SubscriptionId × Callback))
    → All (λ s. Allowed routed told s.1) subs
All-Allowed routed told r t [] = tt
All-Allowed routed told r t ((id, c) ∷ subs) = (allowed c, All-Allowed routed told r t subs)
  where
    allowed : (c : Callback) → Allowed routed told c
    allowed forward_order = r
    allowed telemetry_order = t
    allowed telemetry_position = t
    allowed telemetry_violation = t
    allowed _ = tt

module _ {F : Type 0} where
  abbrev pub set_orders : List (OrderId × Order F) → TradingEngine F → TradingEngine F
  set_orders m w = record w { order_tracker = record w.order_tracker { active_orders = m } }

  abbrev pub set_positions : List (String × Position F) → TradingEngine F → TradingEngine F
  set_positions m w = record w { position_engine = record w.position_engine { positions = m } }

  abbrev pub set_cache : List (OrderId × OrderInfo) → TradingEngine F → TradingEngine F
  set_cache m w = record w { position_engine = record w.position_engine { order_cache = m } }

module _ {F W : Type 0} (h : EngineHost W F) (R : W → TradingEngine F → Type 0) where
  -- A change of the engine that takes related worlds to related worlds.
  abbrev pub IsKept : (TradingEngine F → TradingEngine F) → Type 0
  IsKept f = (v : W) (w : TradingEngine F) → R v w → R (h.put_engine (f (h.engine v)) v) (f w)

  -- Two related worlds answer every lookup alike, and stay related when both tables are changed.
  pub record KeepsTables : Type 0 where
    pub tracked :
        (id : OrderId) (v : W) (w : TradingEngine F)
        → R v w
        → find id (h.engine v).order_tracker.active_orders ≡ find id w.order_tracker.active_orders
    pub held :
        (symbol : String) (v : W) (w : TradingEngine F)
        → R v w
        → find symbol (h.engine v).position_engine.positions
          ≡ find symbol w.position_engine.positions
    pub cached :
        (id : OrderId) (v : W) (w : TradingEngine F)
        → R v w
        → find id (h.engine v).position_engine.order_cache ≡ find id w.position_engine.order_cache
    pub limits :
        (v : W) (w : TradingEngine F)
        → R v w
        → (h.engine v).position_engine.limits ≡ w.position_engine.limits
    pub insert_order :
        (id : OrderId) (o : Order F)
        → IsKept (λ w. set_orders (insert id o w.order_tracker.active_orders) w)
    pub erase_order :
        (id : OrderId) → IsKept (λ w. set_orders (erase id w.order_tracker.active_orders) w)
    pub insert_position :
        (symbol : String) (pos : Position F)
        → IsKept (λ w. set_positions (insert symbol pos w.position_engine.positions) w)
    pub insert_info :
        (id : OrderId) (info : OrderInfo)
        → IsKept (λ w. set_cache (insert id info w.position_engine.order_cache) w)
    pub erase_info :
        (id : OrderId) → IsKept (λ w. set_cache (erase id w.position_engine.order_cache) w)

  -- Worlds with the same tables in them.
  pub same_tables :
      ((v : W) (w : TradingEngine F) → R v w → (h.engine v).order_tracker ≡ w.order_tracker)
      → ((v : W) (w : TradingEngine F) → R v w → (h.engine v).position_engine ≡ w.position_engine)
      → ((s : OrderTracker F) → IsKept (λ w. record w { order_tracker = s }))
      → ((s : PositionEngine F) → IsKept (λ w. record w { position_engine = s }))
      → KeepsTables
  same_tables tracker positions put_tracker put_positions = record {
    tracked = λ id v w r. ap (λ (t : OrderTracker F). find id t.active_orders) (tracker v w r);
    held = λ symbol v w r. ap (λ (t : PositionEngine F). find symbol t.positions) (positions v w r);
    cached = λ id v w r. ap (λ (t : PositionEngine F). find id t.order_cache) (positions v w r);
    limits = λ v w r. ap (λ (t : PositionEngine F). t.limits) (positions v w r);
    insert_order =
        λ id o. change_tracker (λ t. record t { active_orders = insert id o t.active_orders });
    erase_order = λ id. change_tracker (λ t. record t { active_orders = erase id t.active_orders });
    insert_position = λ symbol pos.
        change_positions (λ t. record t { positions = insert symbol pos t.positions });
    insert_info =
        λ id info. change_positions (λ t. record t { order_cache = insert id info t.order_cache });
    erase_info = λ id. change_positions (λ t. record t { order_cache = erase id t.order_cache });
  }
    where
      change_tracker :
          (f : OrderTracker F → OrderTracker F)
          → (v : W) (w : TradingEngine F) → R v w
          → R
              (h.put_engine
                (record (h.engine v) { order_tracker = f (h.engine v).order_tracker })
                v)
              (record w { order_tracker = f w.order_tracker })
      change_tracker f v w r = rw (tracker v w r) (put_tracker (f w.order_tracker) v w r)

      change_positions :
          (f : PositionEngine F → PositionEngine F)
          → (v : W) (w : TradingEngine F) → R v w
          → R
              (h.put_engine
                (record (h.engine v) { position_engine = f (h.engine v).position_engine })
                v)
              (record w { position_engine = f w.position_engine })
      change_positions f v w r = rw (positions v w r) (put_positions (f w.position_engine) v w r)

module _ {F W : Type 0} (h : EngineHost W F) (routed told : Type 0)
    (R : W → TradingEngine F → Type 0) where
  -- What two related worlds agree on, and what they do to stay related.
  pub record IsSimulation : Type 0 where
    pub tables : KeepsTables h R
    pub risks : (v : W) (w : TradingEngine F) → R v w → (h.engine v).risk_engine ≡ w.risk_engine
    pub ids : (v : W) (w : TradingEngine F) → R v w → (h.engine v).order_id_gen ≡ w.order_id_gen
    pub clock : (v : W) (w : TradingEngine F) → R v w → (h.engine v).sim_clock ≡ w.sim_clock
    pub buses :
        (l : Loop) (v : W) (w : TradingEngine F)
        → R v w
        → callbacks (bus_of l (h.engine v)) ≡ callbacks (bus_of l w)
    pub subscribed :
        (l : Loop) (v : W) (w : TradingEngine F)
        → R v w
        → All (λ s. Allowed routed told s.1) (bus_of l w).subscribers
    pub put_risks :
        (s : RiskEngine F) (v : W) (w : TradingEngine F)
        → R v w
        → R
            (h.put_engine (record (h.engine v) { risk_engine = s }) v)
            (record w { risk_engine = s })
    pub put_ids :
        (s : OrderIdGenerator) (v : W) (w : TradingEngine F)
        → R v w
        → R
            (h.put_engine (record (h.engine v) { order_id_gen = s }) v)
            (record w { order_id_gen = s })
    pub pushing :
        (e : Event F) (v : W) (w : TradingEngine F)
        → R v w
        → R (h.put_engine (push_risk e (h.engine v)) v) (push_risk e w)
    pub routing_it :
        routed
        → (e : Event F) (v : W) (w : TradingEngine F) → R v w
        → R (h.route e v) (push_routing e w)
    pub telling :
        told
        → (e : Event F) (v : W) (w : TradingEngine F) → R v w
        → R (h.tell e v) (push_telemetry e w)

  module _ (sim : IsSimulation) where
    pub change_risks :
        (f : RiskEngine F → RiskEngine F) (v : W) (w : TradingEngine F)
        → R v w
        → R
            (h.put_engine (record (h.engine v) { risk_engine = f (h.engine v).risk_engine }) v)
            (record w { risk_engine = f w.risk_engine })
    change_risks f v w r = rw (sim.risks v w r) (sim.put_risks (f w.risk_engine) v w r)
