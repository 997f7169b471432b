-- ===== src/Examples/Starts.antt =====
-- The start of the engine with other threads at work, and the IPC server beside the engine.
use quant_core_engine.Prelude.{◌≡◌, refl, true, none, List, [], ◌∷◌, ◌++◌}
use quant_core_engine.Prelude.Int.{ℤ, pos, ◌+ℤ◌}
use quant_core_engine.Double.Whole.{whole}
use quant_core_engine.Domain.{buy}
use quant_core_engine.Events.{signal, Event}
use quant_core_engine.IpcServer.{messages}
use quant_core_engine.TradingEngine.World.{TradingEngine, publish, strategy, risk, routing}
use quant_core_engine.TradingEngine.Wiring.{new_engine, start, stop, wire}
use quant_core_engine.TradingEngine.Stages.{buses}
use quant_core_engine.TradingEngine.Schedule.{Input, turned, received, handle_all}
use quant_core_engine.TradingEngine.Starting.{
  StartAct, turns, pushes, starts, make_tracker, make_positions, hydrate, start_strategy_loop,
  start_risk_loop, bridge_signals, make_routing, bridge_orders, bridge_reports, make_strategy,
  make_risk, make_ipc_server, bridge_order_updates, bridge_position_updates, bridge_violations,
  set_running, at_rest, launched, act_all,
}
use quant_core_engine.TradingEngine.Starting.Interleaved.{act_all-launched}
use quant_core_engine.TradingEngine.Starting.Again.{making, act_all-restarted}
use quant_core_engine.TradingEngine.Served.{
  Site, SiteStep, reaches, drains, answers, site_steps, inputs_of,
}
use quant_core_engine.TradingEngine.Served.Drained.{site_steps-handle_all}
use quant_core_engine.Main.{Piece}
use quant_core_engine.Main.Program.{Program, line_of, publish_full, watched, started_lines}
use quant_core_engine.Main.Program.Watching.{publish_full-publish}
use quant_core_engine.Examples.{signal_to}
use quant_core_engine.Examples.Machines.{reader}

abbrev bought : Event ℤ
bought = signal (signal_to buy)

-- A signal comes in and is worked off while the engine starts.
abbrev start_acts : List (StartAct ℤ)
start_acts =
    pushes bought
    ∷ starts make_tracker
    ∷ starts make_positions
    ∷ starts (hydrate none)
    ∷ starts start_strategy_loop
    ∷ starts start_risk_loop
    ∷ starts bridge_signals
    ∷ turns strategy (pos 9)
    ∷ starts make_routing
    ∷ starts bridge_orders
    ∷ starts bridge_reports
    ∷ starts make_strategy
    ∷ starts make_risk
    ∷ turns risk (pos 10)
    ∷ starts make_ipc_server
    ∷ turns routing (pos 11)
    ∷ starts bridge_order_updates
    ∷ starts bridge_position_updates
    ∷ turns risk (pos 12)
    ∷ starts bridge_violations
    ∷ starts set_running
    ∷ []

act_all-launched_example :
    let w = new_engine {F = ℤ} in
    let after = act_all 1000 start_acts (at_rest w) in
    (after ≡ record (launched true none w) { engine = after.engine })
    × (buses after.engine ≡ buses (wire true none w))
unfolding new_engine
act_all-launched_example =
    act_all-launched 1000 true none start_acts new_engine (refl, refl, refl) refl

-- A signal is left on the risk loop's queue by the first run of the engine.
abbrev left : TradingEngine ℤ
left = record (stop (start true none (new_engine {F = ℤ}))) {
  risk_queue = record { items = bought ∷ [] };
}

act_all-restarted_example :
    (act_all 1000
      (making ++ turns risk (pos 9) ∷ starts make_ipc_server ∷ [])
      (at_rest left)).faulted
    ≡ true
unfolding ◌+ℤ◌
act_all-restarted_example =
    act_all-restarted 1000 (pos 9) (signal_to buy) [] (starts make_ipc_server ∷ []) left refl refl
      refl

abbrev site : Site ℤ
site = record { engine = start true none new_engine; published = []; replies = [] }

-- The server drains between the turns of the loops, and answers a request.
abbrev site_schedule : List (SiteStep ℤ)
site_schedule =
    reaches (received "tick")
    ∷ reaches (turned strategy (pos 9))
    ∷ drains
    ∷ reaches (turned risk (pos 10))
    ∷ drains
    ∷ answers "STATUS"
    ∷ reaches (turned routing (pos 11))
    ∷ reaches (turned risk (pos 12))
    ∷ drains
    ∷ []

site_steps-handle_all_example :
    let after = site_steps 1000 reader (λ json. "{}") site_schedule site in
    let alone = handle_all 1000 reader (inputs_of site_schedule) site.engine in
    (record after.engine { telemetry_queue = alone.telemetry_queue } ≡ alone)
    × (after.published ++ messages (λ json. "{}") after.engine.telemetry_queue.items
        ≡ site.published ++ messages (λ json. "{}") alone.telemetry_queue.items)
site_steps-handle_all_example = site_steps-handle_all 1000 reader (λ json. "{}") site_schedule site

abbrev program : Program ℤ
program = record { engine = start true none watched; lines = started_lines ∷ [] }

publish_full-publish_example :
    let after = publish_full 1000 (pos 9) 5 risk bought program in
    (after.engine ≡ publish 1000 (pos 9) 5 risk bought program.engine)
    × ((more : List (List (Piece ℤ))) × (after.lines
          ≡ (program.lines ++ line_of program.engine.sim_clock risk bought) ++ more))
publish_full-publish_example = publish_full-publish 1000 (pos 9) 4 risk bought program

-- A tick, and a turn of each loop.
abbrev session : List (Input ℤ)
session =
    received "tick"
    ∷ turned strategy (pos 9)
    ∷ turned risk (pos 10)
    ∷ turned routing (pos 11)
    ∷ turned risk (pos 12)
    ∷ []
