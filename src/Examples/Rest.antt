-- ===== src/Examples/Rest.antt =====
-- The engine comes to rest, and is stopped.
use quant_core_engine.Prelude.{◌≡◌, ◌+◌, ◌≤◌, refl, List, [], ◌∷◌, arith}
use quant_core_engine.Prelude.Int.{ℤ, pos}
use quant_core_engine.Double.Whole.{whole}
use quant_core_engine.Events.{Timestamp}
use quant_core_engine.TradingEngine.World.{Loop, TradingEngine, risk, routing}
use quant_core_engine.TradingEngine.Wiring.{new_engine}
use quant_core_engine.TradingEngine.Stages.{wired}
use quant_core_engine.TradingEngine.Turns.{run}
use quant_core_engine.TradingEngine.Weight.{weight}
use quant_core_engine.TradingEngine.Settling.{busy_turns, rounds, run-settles, rounds-settled}
use quant_core_engine.Prelude.{String, length, string_eq}
use quant_core_engine.ThreadSafeQueue.{try_pop}
use quant_core_engine.TradingEngine.Commands.{execute_command}
use quant_core_engine.Json.{Json}
use quant_core_engine.IpcServer.{IpcServer, Received, request, timeout}
use quant_core_engine.IpcServer
use quant_core_engine.TradingEngine.Induction.{halted}
use quant_core_engine.TradingEngine.Remote.{requests, command_handler, run-answered}
use quant_core_engine.Examples.Schedules.{waiting}

-- A signal waits on the risk loop.
abbrev signalled : TradingEngine ℤ
signalled = wired waiting

abbrev turns : List (Loop × Timestamp)
turns = (routing, pos 8) ∷ (risk, pos 9) ∷ (routing, pos 10) ∷ (risk, pos 11) ∷ []

run-settles_example :
    busy_turns 1000 turns signalled + weight (run 1000 turns signalled) ≤ weight signalled
run-settles_example = run-settles 1000 turns signalled (refl, refl, refl)

abbrev times : List (Timestamp × Timestamp × Timestamp)
times =
    (pos 8, pos 9, pos 10)
    ∷ (pos 11, pos 12, pos 13)
    ∷ (pos 14, pos 15, pos 16)
    ∷ (pos 17, pos 18, pos 19)
    ∷ []

rounds-settled_example : weight (run 1000 (rounds times) signalled) ≡ 0
unfolding new_engine
rounds-settled_example = rounds-settled 1000 times signalled (refl, refl, refl) (omega arith)

-- A client asks for the status, halts trading, and the server is stopped.
abbrev dump : Json ℤ → String
dump json = "{}"

abbrev served : IpcServer ℤ (TradingEngine ℤ)
served = record {
  telemetry_queue = record { items = [] };
  published = [];
  replies = [];
  world = signalled;
}

abbrev requested : List Received
requested = request "STATUS" ∷ timeout ∷ request "HALT" ∷ []

abbrev after_requests : IpcServer ℤ (TradingEngine ℤ)
after_requests = record served { replies = "{}" ∷ "{}" ∷ []; world = halted signalled }

run-answered_example :
    (length after_requests.replies ≡ length served.replies + requests requested)
    × (after_requests.world ≡ halted signalled)
unfolding IpcServer.run command_handler try_pop new_engine execute_command
run-answered_example = run-answered dump 1 requested served after_requests refl
