-- ===== src/TradingEngine/Induction.antt =====
-- The principle by which a statement about the engine is shown of all its schedules: what each of its
-- parts must keep, and what then holds of the whole.
use quant_core_engine.Prelude.{
  ℕ, zero, suc, String, ◌≡◌, refl, true, Option, none, some, List, [], ◌∷◌, All, ◌==◌, string_eq,
  inl, inr, Bool-cases, Option-cases,
}
use quant_core_engine.Double.{Double}
use quant_core_engine.Events.{
  Timestamp, MarketDataEvent, SignalEvent, OrderEvent, OrderUpdateEvent, ExecutionReportEvent,
  Event, market_data, signal, order_event, order_update, execution_report, position_update,
  risk_violation,
}
use quant_core_engine.EventBus.{SubscriptionId}
use quant_core_engine.EventBus
use quant_core_engine.TimeProvider.{advance_time, SimulationTimeProvider, simulation_time}
use quant_core_engine.ThreadSafeQueue.{Queue, push, try_pop}
use quant_core_engine.MarketDataGateway.{
  JsonReader, Tick, read_tick, market_data_of, handle_message,
}
use quant_core_engine.OrderTracker
use quant_core_engine.PositionEngine
use quant_core_engine.RiskEngine
use quant_core_engine.Execution
use quant_core_engine.DummyStrategy
use quant_core_engine.TradingEngine.World.{
  Loop, strategy, risk, routing, Callback, tracker_on_order, tracker_on_report, position_on_order,
  position_on_fill, risk_on_signal, risk_on_violation, strategy_on_market_data, execution_on_order,
  forward_signal, forward_order, forward_report, telemetry_order, telemetry_position,
  telemetry_violation, TradingEngine, tracker_host, position_host, risk_host, bus_of,
  push_telemetry, invoke, publish, depth,
}
use quant_core_engine.TradingEngine.Updates.{IsTold, publish-IsTold}
use quant_core_engine.TradingEngine.Turns.{
  queue_of, set_queue, publish_popped, turn, run, push_event,
}
use quant_core_engine.TradingEngine.Commands.{execute_command, execute_command-effect, halt}
use quant_core_engine.TradingEngine.Schedule.{
  Input, turned, received, pushed, commanded, components_of, with_components, handle, handle_all,
}

abbrev pub push_on : {F : Type 0} → Loop → Event F → TradingEngine F → TradingEngine F
push_on l e w = set_queue l (push e (queue_of l w)) w

abbrev pub halted : {F : Type 0} → TradingEngine F → TradingEngine F
halted w = record w { risk_engine = record w.risk_engine { halt_flag = true } }

module _ {F : Type 0} ⦃d : Double F⦄ (ticks_per_ms : ℕ) (Q : Event F → Type 0)
    (P : TradingEngine F → Type 0) where
  -- A way to publish keeps `P`, for events of which `Q` holds.
  abbrev pub Keeps : (Event F → TradingEngine F → TradingEngine F) → Type 0
  Keeps p = (e : Event F) (w : TradingEngine F) → Q e → P w → P (p e w)

  abbrev pub Tells : (Event F → TradingEngine F → TradingEngine F) → Type 0
  Tells p = (u : OrderUpdateEvent F) (w : TradingEngine F) → IsTold u w (p (order_update u) w)

  -- What each handler, bridge and queue must do for `P` to hold of the engine, and `Q` of its events.
  pub record IsInvariant : Type 0 where
    pub tracker_order :
        (p : Event F → TradingEngine F → TradingEngine F) (e : OrderEvent F) (w : TradingEngine F)
        → Keeps p
        → Q (order_event e)
        → P w
        → P (OrderTracker.on_order (tracker_host p) e w)
    pub tracker_report :
        (p : Event F → TradingEngine F → TradingEngine F) (e : ExecutionReportEvent F)
        (w : TradingEngine F)
        → Keeps p
        → Tells p
        → Q (execution_report e)
        → P w
        → P (OrderTracker.on_execution_report (tracker_host p) e w)
    pub position_order :
        (p : Event F → TradingEngine F → TradingEngine F) (e : OrderEvent F) (w : TradingEngine F)
        → Q (order_event e)
        → P w
        → P (PositionEngine.on_order (position_host p) e w)
    pub position_fill :
        (p : Event F → TradingEngine F → TradingEngine F) (e : ExecutionReportEvent F)
        (w : TradingEngine F)
        → Keeps p
        → Q (execution_report e)
        → P w
        → P (PositionEngine.on_fill (position_host p) e w)
    pub risk_signal :
        (p : Event F → TradingEngine F → TradingEngine F) (now : Timestamp) (e : SignalEvent F)
        (w : TradingEngine F)
        → Keeps p
        → Q (signal e)
        → P w
        → P (RiskEngine.on_signal (risk_host p) now e w)
    pub strategy_tick :
        (p : Event F → TradingEngine F → TradingEngine F) (now : Timestamp) (e : MarketDataEvent F)
        (w : TradingEngine F)
        → Keeps p
        → Q (market_data e)
        → P w
        → P (DummyStrategy.on_market_data p now e w)
    pub execution_order :
        (p : Event F → TradingEngine F → TradingEngine F) (e : OrderEvent F) (w : TradingEngine F)
        → Keeps p
        → Q (order_event e)
        → P w
        → P (Execution.mock_on_order p ticks_per_ms (simulation_time (λ v. v.sim_clock)) e w)
    pub halting : (w : TradingEngine F) → P w → P (halted w)
    pub pushing : (l : Loop) (e : Event F) (w : TradingEngine F) → Q e → P w → P (push_on l e w)
    pub telling : (e : Event F) (w : TradingEngine F) → Q e → P w → P (push_telemetry e w)
    pub popping :
        (l : Loop) (w : TradingEngine F) (e : Event F) (rest : Queue (Event F))
        → try_pop (queue_of l w) ≡ (some e, rest)
        → P w
        → Q e × P (set_queue l rest w)
    pub ticking :
        (c : SimulationTimeProvider) (w : TradingEngine F) → P w → P (record w { sim_clock = c })

  module _ (v : IsInvariant) where
    invoke-kept :
        (now : Timestamp) (p : Loop → Event F → TradingEngine F → TradingEngine F)
        (k : (l : Loop) → Keeps (p l)) (t : (l : Loop) → Tells (p l)) (c : Callback) (e : Event F)
        (w : TradingEngine F)
        → Q e
        → P w
        → P (invoke ticks_per_ms now p c e w)
    unfolding invoke RiskEngine.on_risk_violation
    invoke-kept now p k t tracker_on_order (order_event e) w q h =
        v.tracker_order (p risk) e w (k risk) q h
    invoke-kept now p k t tracker_on_report (execution_report e) w q h =
        v.tracker_report (p risk) e w (k risk) (t risk) q h
    invoke-kept now p k t position_on_order (order_event e) w q h =
        v.position_order (p risk) e w q h
    invoke-kept now p k t position_on_fill (execution_report e) w q h =
        v.position_fill (p risk) e w (k risk) q h
    invoke-kept now p k t risk_on_signal (signal e) w q h =
        v.risk_signal (p risk) now e w (k risk) q h
    invoke-kept now p k t risk_on_violation (risk_violation e) w q h = v.halting w h
    invoke-kept now p k t strategy_on_market_data (market_data e) w q h =
        v.strategy_tick (p strategy) now e w (k strategy) q h
    invoke-kept now p k t execution_on_order (order_event e) w q h =
        v.execution_order (p routing) e w (k routing) q h
    invoke-kept now p k t forward_signal (signal e) w q h = v.pushing risk _ w q h
    invoke-kept now p k t forward_order (order_event e) w q h = v.pushing routing _ w q h
    invoke-kept now p k t forward_report (execution_report e) w q h = v.pushing risk _ w q h
    invoke-kept now p k t telemetry_order (order_update e) w q h = v.telling _ w q h
    invoke-kept now p k t telemetry_position (position_update e) w q h = v.telling _ w q h
    invoke-kept now p k t telemetry_violation (risk_violation e) w q h = v.telling _ w q h
    invoke-kept now p k t _ _ w q h = h

    deliver-kept :
        (now : Timestamp) (p : Loop → Event F → TradingEngine F → TradingEngine F)
        (k : (l : Loop) → Keeps (p l)) (t : (l : Loop) → Tells (p l)) (l : Loop)
        (copy : List (SubscriptionId × Callback)) (e : Event F) (w : TradingEngine F)
        → Q e
        → P w
        → P (EventBus.deliver (bus_of l) (invoke ticks_per_ms now p) copy e w)
    unfolding EventBus.deliver
    deliver-kept now p k t l [] e w q h = h
    deliver-kept now p k t l ((id, c) ∷ copy) e w q h =
        deliver-kept now p k t l copy e _ q (invoke-kept now p k t c e w q h)

    publish-kept :
        (now : Timestamp) (fuel : ℕ) (l : Loop) (e : Event F) (w : TradingEngine F)
        → Q e
        → P w
        → P (publish ticks_per_ms now fuel l e w)
    unfolding publish EventBus.publish
    publish-kept now zero l e w q h = h
    publish-kept now (suc fuel) l e w q h =
        deliver-kept now (publish ticks_per_ms now fuel) (publish-kept now fuel)
          (λ l' u x. publish-IsTold ticks_per_ms now u fuel l' x) l (bus_of l w).subscribers e w q h

    turn-kept :
        (l : Loop) (now : Timestamp) (w : TradingEngine F) → P w → P (turn ticks_per_ms l now w)
    unfolding turn publish_popped
    turn-kept l now w h = on_popped (try_pop (queue_of l w)) refl
      where
        on_popped :
            (popped : Option (Event F) × Queue (Event F))
            → try_pop (queue_of l w) ≡ popped
            → P (publish_popped ticks_per_ms l now popped w)
        on_popped (none, rest) e = h
        on_popped (some x, rest) e =
            let (q, kept) = v.popping l w x rest e h in publish-kept now depth l x _ q kept

    commanded-kept :
        (cmd : String) (w : TradingEngine F)
        → P w
        → P (with_components (execute_command cmd (components_of w)).1 w)
    unfolding halt
    commanded-kept cmd w h = elim (Bool-cases (cmd == "HALT")) [
      | inl stop ↦ rw (execute_command-effect cmd (components_of w)) (rw stop (v.halting w h))
      | inr other ↦ rw (execute_command-effect cmd (components_of w)) (rw other h)
    ]

    pub run-kept :
        (turns : List (Loop × Timestamp)) (w : TradingEngine F) → P w → P (run ticks_per_ms turns w)
    unfolding run
    run-kept [] w h = h
    run-kept ((l, now) ∷ turns) w h = run-kept turns _ (turn-kept l now w h)

    module _ {J : Type 0} (reader : JsonReader J F) where
      -- The events that come from outside satisfy `Q`: those pushed, and those of the feed.
      abbrev pub Admits : Input F → Type 0
      Admits (pushed e) = Q e
      Admits (received payload) =
          (tick : Tick F)
          → read_tick reader payload ≡ some tick
          → Q (market_data (market_data_of ticks_per_ms tick))
      Admits _ = Unit

      handle-kept :
          (i : Input F) (w : TradingEngine F) → Admits i → P w → P (handle ticks_per_ms reader i w)
      unfolding handle push_event handle_message
      handle-kept (turned l now) w a h = turn-kept l now w h
      handle-kept (pushed e) w a h = v.pushing strategy e w a h
      handle-kept (commanded cmd) w a h = commanded-kept cmd w h
      handle-kept (received payload) w a h = elim (Option-cases (read_tick reader payload)) [
        | inl bad ↦ rw (bad, handle_message) h
        | inr (tick, good) ↦
            rw (good, handle_message)
              (let c = advance_time tick.timestamp_ms w.sim_clock in
                v.pushing strategy _ (record w { sim_clock = c }) (a tick good) (v.ticking c w h))
      ]

      -- A statement that every part keeps holds after any schedule of what reaches the engine.
      pub handle_all-kept :
          (is : List (Input F)) (w : TradingEngine F)
          → All Admits is
          → P w
          → P (handle_all ticks_per_ms reader is w)
      unfolding handle_all
      handle_all-kept [] w a h = h
      handle_all-kept (i ∷ is) w a h = handle_all-kept is _ a.1 (handle-kept i w a.0 h)
