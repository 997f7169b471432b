-- ===== src/Examples/Threads.antt =====
-- The threads of the engine at work: starts, stops and signals.
use quant_core_engine.Prelude.{
  ◌++◌, ◌≡◌, ◌↔◌, refl, true, false, some, List, [], ◌∷◌, arith, inl, nat_eq, if◌then◌else◌,
}
use quant_core_engine.Prelude.Int.{ℤ, pos}
use quant_core_engine.Double.Whole.{whole}
use quant_core_engine.Domain.{buy}
use quant_core_engine.TimeProvider.{SimulationTimeProvider, ms_to_timestamp}
use quant_core_engine.TimeProvider.Range.{
  IsInt64, IsShown, nanoseconds, ms_to_timestamp-IsInt64_iff,
}
use quant_core_engine.OrderRoutingThread.Restarts.{
  Call, starts, stops, last_started, call_all, opened, Returns, answers, answered,
  call_all-answered,
}
use quant_core_engine.MarketDataGateway.{message, timeout, handle_message}
use quant_core_engine.MarketDataGateway
use quant_core_engine.MarketDataGateway.Feed.{Feed, recording}
use quant_core_engine.IpcServer.Thread
use quant_core_engine.MarketDataGateway.Stopping
use quant_core_engine.Main.Shutdown
use quant_core_engine.IpcServer.Thread.{IpcThread, IsSteady, new_thread}
use quant_core_engine.Main.Shutdown.{
  before_wait, main_steps, sigint_handler, main_steps-sigint_handler,
}
use quant_core_engine.Examples.{placed_order}
use quant_core_engine.Examples.Machines.{reader}

abbrev clock : SimulationTimeProvider
clock = record { current_time_ms = pos 1500 }

abbrev calls : List Call
calls = stops 0 ∷ stops 2 ∷ starts ∷ starts ∷ []

call_all-answered_example :
    Returns 1000
      (pos 8)
      true
      clock
      (call_all 1000 (pos 8) true clock calls (opened 1000 (pos 8) true clock))
      (λ t. answered 1000 (pos 8) true clock (pos 9) (placed_order 7 buy) t ≡ (
        if last_started true calls
        then answers 1000 (pos 8) true clock (pos 9) (placed_order 7 buy)
        else []))
call_all-answered_example =
    call_all-answered 1000 (pos 8) true clock calls (pos 9) (placed_order 7 buy) (omega arith)

ms_to_timestamp-IsInt64_iff_example :
    IsInt64 (ms_to_timestamp nanoseconds (pos 1700000000000)) ↔ IsShown (pos 1700000000000)
ms_to_timestamp-IsInt64_iff_example = ms_to_timestamp-IsInt64_iff (pos 1700000000000)

-- A receive has begun when the stop comes, and a message is in it; another comes later.
abbrev receiving_gateway : Stopping.Gateway (Feed ℤ)
receiving_gateway = record {
  running = true;
  phase = Stopping.receiving;
  world = record { clock = clock; sunk = [] };
}

abbrev gateway_steps : List Stopping.Step
gateway_steps =
    Stopping.arrives (message "tick") ∷ Stopping.tests ∷ Stopping.arrives (message "tock") ∷ []

abbrev last_gateway : Stopping.Gateway (Feed ℤ)
last_gateway = record {
  running = false;
  phase = Stopping.returned;
  world = handle_message 1000 reader recording "tick" receiving_gateway.world;
}

step_all-IsLast_example :
    Stopping.IsLast 1000 reader recording receiving_gateway.world last_gateway.world
unfolding Stopping.step_all Stopping.step
step_all-IsLast_example =
    Stopping.step_all-IsLast 1000 reader recording gateway_steps receiving_gateway last_gateway tt
      refl

step_all-run_example :
    Stopping.step_all 1000 reader recording
      (Stopping.begins ∷ Stopping.rounds_of 1000 reader recording (timeout ∷ message "tick" ∷ [])
        ++ Stopping.stops ∷ Stopping.tests ∷ [])
      (record { running = false; phase = Stopping.spawned; world = receiving_gateway.world })
    ≡ Stopping.stopped_after 1000 reader recording receiving_gateway.world (
        MarketDataGateway.run 1000 reader recording
          (timeout ∷ message "tick" ∷ [])
          receiving_gateway.world)
step_all-run_example =
    Stopping.step_all-run 1000 reader recording (timeout ∷ message "tick" ∷ []) false
      receiving_gateway.world

-- A stop before the thread has entered its loop, and a second start.
abbrev ipc_steps : List Thread.Step
ipc_steps = Thread.starts ∷ Thread.stops 3 ∷ Thread.starts ∷ Thread.works ∷ Thread.stops 4 ∷ []

step_all-IsSteady_example :
    (end : IpcThread) × (Thread.step_all ipc_steps new_thread ≡ some end) × IsSteady end
step_all-IsSteady_example =
    Thread.step_all-IsSteady ipc_steps new_thread (tt, (omega arith, (tt, (tt, (omega arith, tt)))))
      (inl refl)

main_steps-sigint_handler_example :
    (main_steps 6 (sigint_handler (main_steps 1 before_wait))).phase ≡ Shutdown.blocked
main_steps-sigint_handler_example = main_steps-sigint_handler 1 5
