-- ===== src/TradingEngine/Simulation/Schedules.antt =====
-- Two engines side by side, and all that reaches them.
use quant_core_engine.Prelude.{
  ℕ, String, ◌≡◌, Option, none, some, List, [], ◌∷◌, true, inl, inr, Bool-cases, Option-cases, ◌==◌,
  string_eq, refl,
}
use quant_core_engine.Double.{Double}
use quant_core_engine.Events.{Timestamp, Event, market_data}
use quant_core_engine.TimeProvider.{SimulationTimeProvider, advance_time}
use quant_core_engine.ThreadSafeQueue.{Queue, push, try_pop}
use quant_core_engine.MarketDataGateway.{JsonReader, read_tick, market_data_of, handle_message}
use quant_core_engine.TradingEngine.World.{
  Loop, strategy, TradingEngine, itself, invoke, publish, depth,
}
use quant_core_engine.TradingEngine.Commands.{halt, execute_command, execute_command-effect}
use quant_core_engine.TradingEngine.Turns.{queue_of, set_queue, publish_popped, turn, push_event}
use quant_core_engine.TradingEngine.Schedule.{
  Input, turned, received, pushed, commanded, components_of, with_components, handle, handle_all,
}
use quant_core_engine.TradingEngine.Simulation.{IsSimulation, change_risks}
use quant_core_engine.TradingEngine.Simulation.Publishing.{publish-simulated}

-- Two related engines have the same on each queue, and stay related when both take the same queue or
-- the same clock.
pub record KeepsQueues {F : Type 0} (R : TradingEngine F → TradingEngine F → Type 0) : Type 0 where
  pub queues : (l : Loop) (v w : TradingEngine F) → R v w → queue_of l v ≡ queue_of l w
  pub put_queue :
      (l : Loop) (q : Queue (Event F)) (v w : TradingEngine F)
      → R v w
      → R (set_queue l q v) (set_queue l q w)
  pub put_clock :
      (c : SimulationTimeProvider) (v w : TradingEngine F)
      → R v w
      → R (record v { sim_clock = c }) (record w { sim_clock = c })

module _ {J F : Type 0} ⦃d : Double F⦄ (ticks_per_ms : ℕ) (reader : JsonReader J F)
    (R : TradingEngine F → TradingEngine F → Type 0) (sim : IsSimulation itself Unit Unit R)
    (keeps : KeepsQueues R) where
  popped-simulated :
      (l : Loop) (now : Timestamp) (popped : Option (Event F) × Queue (Event F))
      (v w : TradingEngine F)
      → R v w
      → R (publish_popped ticks_per_ms l now popped v) (publish_popped ticks_per_ms l now popped w)
  unfolding publish_popped publish invoke
  popped-simulated l now (none, rest) v w r = r
  popped-simulated l now (some e, rest) v w r =
      publish-simulated itself Unit Unit R sim ticks_per_ms now (invoke ticks_per_ms now)
        (λ p c e v w r. refl) (publish ticks_per_ms now) (λ l e v. refl) (λ fuel l e v. refl) depth
        l e (set_queue l rest v) (set_queue l rest w) (keeps.put_queue l rest v w r)

  push_event-simulated :
      (e : Event F) (v w : TradingEngine F) → R v w → R (push_event e v) (push_event e w)
  unfolding push_event
  push_event-simulated e v w r =
      rw (keeps.queues strategy v w r)
        (keeps.put_queue strategy (push e (queue_of strategy w)) v w r)

  commanded-simulated :
      (cmd : String) (v w : TradingEngine F)
      → R v w
      → R
          (with_components (execute_command cmd (components_of v)).1 v)
          (with_components (execute_command cmd (components_of w)).1 w)
  unfolding halt
  commanded-simulated cmd v w r =
      rw
        (execute_command-effect cmd (components_of v), execute_command-effect cmd (components_of w))
        (elim (Bool-cases (cmd == "HALT")) [
          | inl stop ↦
              rw stop
                (change_risks itself Unit Unit R sim (λ t. record t { halt_flag = true }) v w r)
          | inr other ↦ rw other r
        ])

  pub handle-simulated :
      (i : Input F) (v w : TradingEngine F)
      → R v w
      → R (handle ticks_per_ms reader i v) (handle ticks_per_ms reader i w)
  unfolding handle turn handle_message
  handle-simulated (turned l now) v w r =
      rw (keeps.queues l v w r) (popped-simulated l now (try_pop (queue_of l w)) v w r)
  handle-simulated (pushed e) v w r = push_event-simulated e v w r
  handle-simulated (commanded cmd) v w r = commanded-simulated cmd v w r
  handle-simulated (received payload) v w r = elim (Option-cases (read_tick reader payload)) [
    | inl bad ↦ rw (bad, handle_message) r
    | inr (tick, good) ↦
        let c = advance_time tick.timestamp_ms w.sim_clock in
        rw (good, handle_message)
          (rw (sim.clock v w r) (
            push_event-simulated (market_data (market_data_of ticks_per_ms tick))
              (record v { sim_clock = c }) (record w { sim_clock = c }) (keeps.put_clock c v w r)))
  ]

  -- Two related engines that the same reaches stay related.
  pub handle_all-simulated :
      (is : List (Input F)) (v w : TradingEngine F)
      → R v w
      → R (handle_all ticks_per_ms reader is v) (handle_all ticks_per_ms reader is w)
  unfolding handle_all
  handle_all-simulated [] v w r = r
  handle_all-simulated (i ∷ is) v w r =
      handle_all-simulated is (handle ticks_per_ms reader i v) (handle ticks_per_ms reader i w)
        (handle-simulated i v w r)
