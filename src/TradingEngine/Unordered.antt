-- ===== src/TradingEngine/Unordered.antt =====
-- The whole engine does not see in which order its tables keep their entries.
use quant_core_engine.Prelude.{ℕ, ◌≡◌, refl, ap, ◌∙◌, List, nat_eq, string_eq}
use quant_core_engine.Double.{Double}
use quant_core_engine.Events.{Event}
use quant_core_engine.ThreadSafeQueue.{Queue}
use quant_core_engine.Table.{insert, erase}
use quant_core_engine.Table.Unordered.{SameFinds, insert-SameFinds, erase-SameFinds}
use quant_core_engine.MarketDataGateway.{JsonReader}
use quant_core_engine.TradingEngine.World.{
  Loop, strategy, risk, routing, TradingEngine, itself, bus_of, push_risk, push_routing,
  push_telemetry,
}
use quant_core_engine.TradingEngine.Turns.{queue_of, set_queue}
use quant_core_engine.TradingEngine.Schedule.{Input, handle_all}
use quant_core_engine.TradingEngine.Simulation.{
  callbacks, IsSimulation, set_orders, set_positions, set_cache,
}
use quant_core_engine.TradingEngine.Simulation.Schedules.{KeepsQueues, handle_all-simulated}
use quant_core_engine.TradingEngine.Simulation.{All-Allowed}

module _ {F : Type 0} where
  -- The engine with the tables of another.
  abbrev pub with_tables : TradingEngine F → TradingEngine F → TradingEngine F
  with_tables w v =
      set_orders w.order_tracker.active_orders
        (set_positions w.position_engine.positions (set_cache w.position_engine.order_cache v))

  -- One engine with two sets of tables, which answer every lookup alike.
  abbrev pub IsAlike : TradingEngine F → TradingEngine F → Type 0
  IsAlike v w =
      (with_tables w v ≡ w)
      × SameFinds v.order_tracker.active_orders w.order_tracker.active_orders
      × SameFinds v.position_engine.positions w.position_engine.positions
      × SameFinds v.position_engine.order_cache w.position_engine.order_cache

  simulation : IsSimulation itself Unit Unit IsAlike
  simulation = record {
    tables = record {
      tracked = λ id v w r. r.1 id;
      held = λ symbol v w r. r.2 symbol;
      cached = λ id v w r. r.3 id;
      limits = λ v w r. ap (λ (x : TradingEngine F). x.position_engine.limits) r.0;
      insert_order = λ id o v w r. (
        ap (set_orders (insert id o w.order_tracker.active_orders)) r.0,
        insert-SameFinds id o _ _ r.1,
        r.2,
        r.3,
      );
      erase_order = λ id v w r. (
        ap (set_orders (erase id w.order_tracker.active_orders)) r.0,
        erase-SameFinds id _ _ r.1,
        r.2,
        r.3,
      );
      insert_position = λ symbol pos v w r. (
        ap (set_positions (insert symbol pos w.position_engine.positions)) r.0,
        r.1,
        insert-SameFinds symbol pos _ _ r.2,
        r.3,
      );
      insert_info = λ id info v w r. (
        ap (set_cache (insert id info w.position_engine.order_cache)) r.0,
        r.1,
        r.2,
        insert-SameFinds id info _ _ r.3,
      );
      erase_info = λ id v w r. (
        ap (set_cache (erase id w.position_engine.order_cache)) r.0,
        r.1,
        r.2,
        erase-SameFinds id _ _ r.3,
      );
    };
    risks = λ v w r. ap (λ (x : TradingEngine F). x.risk_engine) r.0;
    ids = λ v w r. ap (λ (x : TradingEngine F). x.order_id_gen) r.0;
    clock = λ v w r. ap (λ (x : TradingEngine F). x.sim_clock) r.0;
    buses = λ l v w r.
        ap callbacks (same_bus l v w) ∙ ap (λ (x : TradingEngine F). callbacks (bus_of l x)) r.0;
    subscribed = λ l v w r. All-Allowed Unit Unit tt tt (bus_of l w).subscribers;
    put_risks =
        λ s v w r. (ap (λ (x : TradingEngine F). record x { risk_engine = s }) r.0, r.1, r.2, r.3);
    put_ids =
        λ s v w r. (ap (λ (x : TradingEngine F). record x { order_id_gen = s }) r.0, r.1, r.2, r.3);
    pushing = λ e v w r. (ap (push_risk e) r.0, r.1, r.2, r.3);
    routing_it = λ u e v w r. (ap (push_routing e) r.0, r.1, r.2, r.3);
    telling = λ u e v w r. (ap (push_telemetry e) r.0, r.1, r.2, r.3);
  }
    where
      same_bus : (l : Loop) (v w : TradingEngine F) → bus_of l v ≡ bus_of l (with_tables w v)
      same_bus strategy v w = refl
      same_bus risk v w = refl
      same_bus routing v w = refl

  keeps : KeepsQueues IsAlike
  keeps = record {
    queues = λ l v w r. same_queue l v w ∙ ap (queue_of l) r.0;
    put_queue = λ l q v w r. set_alike l q v w r;
    put_clock =
        λ c v w r. (ap (λ (x : TradingEngine F). record x { sim_clock = c }) r.0, r.1, r.2, r.3);
  }
    where
      same_queue : (l : Loop) (v w : TradingEngine F) → queue_of l v ≡ queue_of l (with_tables w v)
      same_queue strategy v w = refl
      same_queue risk v w = refl
      same_queue routing v w = refl

      set_alike :
          (l : Loop) (q : Queue (Event F)) (v w : TradingEngine F)
          → IsAlike v w
          → IsAlike (set_queue l q v) (set_queue l q w)
      set_alike strategy q v w r = (ap (set_queue strategy q) r.0, r.1, r.2, r.3)
      set_alike risk q v w r = (ap (set_queue risk q) r.0, r.1, r.2, r.3)
      set_alike routing q v w r = (ap (set_queue routing q) r.0, r.1, r.2, r.3)

module _ {J F : Type 0} ⦃d : Double F⦄ (ticks_per_ms : ℕ) (reader : JsonReader J F) where
  pub handle_all-IsAlike :
      (is : List (Input F)) (v w : TradingEngine F)
      → IsAlike v w
      → IsAlike (handle_all ticks_per_ms reader is v) (handle_all ticks_per_ms reader is w)
  handle_all-IsAlike = handle_all-simulated ticks_per_ms reader IsAlike simulation keeps
