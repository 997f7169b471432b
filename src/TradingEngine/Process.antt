-- ===== src/TradingEngine/Process.antt =====
-- The engine with its pointers: `order_routing_thread_` and `ipc_server_` may be null while loops still
-- work, and a callback that then uses them faults. `stop` goes in steps, between which the loops take
-- turns.
use quant_core_engine.Prelude.{
  ℕ, zero, suc, Bool, true, false, Option, none, some, List, [], ◌∷◌, if◌then◌else◌,
}
use quant_core_engine.Double.{Double}
use quant_core_engine.Events.{Timestamp, Event}
use quant_core_engine.EventBus
use quant_core_engine.ThreadSafeQueue.{Queue, try_pop}
use quant_core_engine.TradingEngine.World.{
  Loop, strategy, risk, routing, Callback, TradingEngine, EngineHost, bus_of, push_routing,
  push_telemetry, invoke_in, depth,
}
use quant_core_engine.TradingEngine.Wiring.{unsubscribe_on}
use quant_core_engine.TradingEngine.Turns.{queue_of, set_queue}

-- A pointer is there or null, and the thread of a loop is there or joined.
pub record Process (F : Type 0) : Type 0 where
  pub engine : TradingEngine F
  pub order_routing_thread : Bool
  pub ipc_server : Bool
  pub strategy_thread : Bool
  pub risk_thread : Bool
  pub routing_thread : Bool
  pub faulted : Bool

-- The steps of `stop`, in the source's order. `reset` on a pointer makes it null, then destroys what
-- it pointed to: that of the order routing thread destroys the execution engine and joins its loop.
pub data StopStep : Type 0 where
  reset_ipc_server : StopStep
  destroy_risk_engine destroy_position_engine destroy_order_tracker destroy_strategy : StopStep
  reset_order_routing destroy_execution_engine join_routing : StopStep
  stop_strategy_loop stop_risk_loop clear_running : StopStep

abbrev pub stop_steps : List StopStep
stop_steps =
    reset_ipc_server ∷ destroy_risk_engine ∷ destroy_position_engine ∷ destroy_order_tracker
    ∷ destroy_strategy ∷ reset_order_routing ∷ destroy_execution_engine ∷ join_routing
    ∷ stop_strategy_loop ∷ stop_risk_loop ∷ clear_running ∷ []

-- A loop takes a turn, or the owner goes on with `stop`.
pub data Act : Type 0 where
  turns : Loop → Timestamp → Act
  stops : StopStep → Act

-- Turns only.
abbrev pub turning : List (Loop × Timestamp) → List Act
turning [] = []
turning ((l, now) ∷ schedule) = turns l now ∷ turning schedule

module _ {F : Type 0} where
  unfoldable pub push_order : Event F → Process F → Process F
  push_order e p =
      if p.order_routing_thread
      then record p { engine = push_routing e p.engine }
      else record p { faulted = true }

  unfoldable pub push_update : Event F → Process F → Process F
  push_update e p =
      if p.ipc_server
      then record p { engine = push_telemetry e p.engine }
      else record p { faulted = true }

  abbrev pub process_host : EngineHost (Process F) F
  process_host = record {
    engine = λ p. p.engine;
    put_engine = λ w p. record p { engine = w };
    route = push_order;
    tell = push_update;
  }

  abbrev pub thread_of : Loop → Process F → Bool
  thread_of strategy p = p.strategy_thread
  thread_of risk p = p.risk_thread
  thread_of routing p = p.routing_thread

  abbrev pub unsubscribed : Loop → ℕ → Process F → Process F
  unsubscribed l id p = record p { engine = unsubscribe_on l id p.engine }

  unfoldable pub perform : StopStep → Process F → Process F
  unfolding unsubscribe_on
  perform reset_ipc_server p = record p { ipc_server = false }
  perform destroy_risk_engine p =
      unsubscribed risk p.engine.risk_engine.signal_sub_id
        (unsubscribed risk p.engine.risk_engine.violation_sub_id p)
  perform destroy_position_engine p =
      unsubscribed risk p.engine.position_engine.order_sub_id
        (unsubscribed risk p.engine.position_engine.fill_sub_id p)
  perform destroy_order_tracker p =
      unsubscribed risk p.engine.order_tracker.order_sub_id
        (unsubscribed risk p.engine.order_tracker.exec_sub_id p)
  perform destroy_strategy p = unsubscribed strategy p.engine.strategy_sub_id p
  perform reset_order_routing p = record p { order_routing_thread = false }
  perform destroy_execution_engine p = unsubscribed routing p.engine.execution_sub_id p
  perform join_routing p = record p { routing_thread = false }
  perform stop_strategy_loop p = record p { strategy_thread = false }
  perform stop_risk_loop p = record p { risk_thread = false }
  perform clear_running p = record p { engine = record p.engine { running = false } }

  unfoldable pub perform_all : List StopStep → Process F → Process F
  perform_all [] p = p
  perform_all (s ∷ steps) p = perform_all steps (perform s p)

  -- After `start` with IPC: all the pointers and threads are there.
  abbrev pub at_work : TradingEngine F → Process F
  at_work w = record {
    engine = w;
    order_routing_thread = true;
    ipc_server = true;
    strategy_thread = true;
    risk_thread = true;
    routing_thread = true;
    faulted = false;
  }

module _ {F : Type 0} ⦃d : Double F⦄ (ticks_per_ms : ℕ) where
  -- A process that has faulted does nothing more.
  unfoldable pub invoke_alive :
      Timestamp
      → (Loop → Event F → Process F → Process F)
      → Callback
      → Event F
      → Process F
      → Process F
  unfolding invoke_in
  invoke_alive now publish c e p =
      let after = invoke_in ticks_per_ms now process_host publish c e p in
      if p.faulted then p else after

  unfoldable pub publish_in : Timestamp → ℕ → Loop → Event F → Process F → Process F
  unfolding invoke_alive
  publish_in now zero l e p = p
  publish_in now (suc fuel) l e p =
      EventBus.publish (λ q. bus_of l q.engine) (invoke_alive now (publish_in now fuel)) e p

  unfoldable pub publish_taken :
      Timestamp → Loop → Option (Event F) × Queue (Event F) → Process F → Process F
  publish_taken now l (none, rest) p = p
  publish_taken now l (some e, rest) p =
      publish_in now depth l e (record p { engine = set_queue l rest p.engine })

  -- One iteration of a loop, if its thread is there.
  unfoldable pub turn_in : Loop → Timestamp → Process F → Process F
  unfolding publish_taken
  turn_in l now p =
      let after = publish_taken now l (try_pop (queue_of l p.engine)) p in
      if p.faulted then p else if thread_of l p then after else p

  unfoldable pub act : Act → Process F → Process F
  unfolding turn_in perform
  act (turns l now) p = turn_in l now p
  act (stops s) p = if p.faulted then p else perform s p

  unfoldable pub act_all : List Act → Process F → Process F
  act_all [] p = p
  act_all (a ∷ acts) p = act_all acts (act a p)
