-- ===== src/Main/Program.antt =====
-- main.cpp as a whole: it subscribes its own callbacks on the engine's buses, starts the engine, waits,
-- and stops it. Its callbacks stand before the engine's on each bus, since they are subscribed first.
pub mod Watching
use quant_core_engine.Prelude.{
  ℕ, zero, suc, ◌≡◌, refl, sym, ap, ◌∙◌, true, Option, none, some, List, [], ◌∷◌, ◌++◌, map,
  append_assoc, append-nil,
}
use quant_core_engine.Double.{Double}
use quant_core_engine.Events.{
  Timestamp, Event, market_data, signal, execution_report, position_update, order_update,
}
use quant_core_engine.EventBus.{Bus, SubscriptionId}
use quant_core_engine.EventBus
use quant_core_engine.ThreadSafeQueue.{Queue, try_pop}
use quant_core_engine.TimeProvider.{SimulationTimeProvider}
use quant_core_engine.MarketDataGateway.{JsonReader}
use quant_core_engine.TradingEngine.World.{
  Loop, strategy, risk, routing, Callback, TradingEngine, EngineHost, bus_of, push_routing,
  push_telemetry, invoke_in, depth,
}
use quant_core_engine.TradingEngine.Wiring.{new_engine, start, stop}
use quant_core_engine.TradingEngine.Turns.{queue_of, set_queue}
use quant_core_engine.TradingEngine.Schedule.{Input, turned, received, pushed, commanded, handle}
use quant_core_engine.Main.{
  Piece, text, log_market_data, log_signal, log_execution_report, log_position_update,
  log_order_update,
}

-- The five lambdas of main, by the type of event that each subscribes to.
pub data Watcher : Type 0 where
  market_data_watcher signal_watcher execution_report_watcher : Watcher
  position_update_watcher order_update_watcher : Watcher

-- What stands on a bus: one of main's lambdas, or one of the engine's callbacks.
pub data Listener : Type 0 where
  watches : Watcher → Listener
  calls : Callback → Listener

-- The engine, with its own subscriptions on its buses, and what main has written.
pub record Program (F : Type 0) : Type 0 where
  pub engine : TradingEngine F
  pub lines : List (List (Piece F))

-- Main's subscriptions, in the order of its calls.
abbrev pub watchers : Loop → List (SubscriptionId × Listener)
watchers strategy = (0, watches market_data_watcher) ∷ []
watchers risk =
    (0, watches signal_watcher)
    ∷ (1, watches execution_report_watcher)
    ∷ (2, watches position_update_watcher)
    ∷ (3, watches order_update_watcher)
    ∷ []
watchers routing = []

abbrev pub listening : List (SubscriptionId × Callback) → List (SubscriptionId × Listener)
listening [] = []
listening ((id, c) ∷ subs) = (id, calls c) ∷ listening subs

module _ {F : Type 0} where
  -- What a lambda writes; it ignores the events that its type does not match.
  unfoldable pub write : SimulationTimeProvider → Watcher → Event F → List (List (Piece F))
  unfolding log_market_data log_signal log_execution_report log_position_update log_order_update
  write clock market_data_watcher (market_data e) = log_market_data clock e ∷ []
  write clock signal_watcher (signal e) = log_signal e ∷ []
  write clock execution_report_watcher (execution_report e) = log_execution_report e ∷ []
  write clock position_update_watcher (position_update e) = log_position_update e ∷ []
  write clock order_update_watcher (order_update e) = log_order_update e ∷ []
  write clock _ _ = []

  -- The line of main about an event on the bus of a loop, if it writes one.
  abbrev pub line_of : SimulationTimeProvider → Loop → Event F → List (List (Piece F))
  line_of clock strategy (market_data e) = log_market_data clock e ∷ []
  line_of clock risk (signal e) = log_signal e ∷ []
  line_of clock risk (execution_report e) = log_execution_report e ∷ []
  line_of clock risk (position_update e) = log_position_update e ∷ []
  line_of clock risk (order_update e) = log_order_update e ∷ []
  line_of clock _ _ = []

  abbrev pub print : List (List (Piece F)) → Program F → Program F
  print lines p = record p { lines = p.lines ++ lines }

  -- A bus with all its listeners.
  abbrev pub full_bus : Loop → Program F → Bus Listener
  full_bus l p = record {
    next_id = (bus_of l p.engine).next_id;
    subscribers = watchers l ++ listening (bus_of l p.engine).subscribers;
  }

  abbrev pub program_host : EngineHost (Program F) F
  program_host = record {
    engine = λ p. p.engine;
    put_engine = λ w p. record p { engine = w };
    route = λ e p. record p { engine = push_routing e p.engine };
    tell = λ e p. record p { engine = push_telemetry e p.engine };
  }

module _ {F : Type 0} ⦃d : Double F⦄ (ticks_per_ms : ℕ) (now : Timestamp) where
  unfoldable pub listen :
      (Loop → Event F → Program F → Program F) → Listener → Event F → Program F → Program F
  unfolding write invoke_in
  listen publish (watches k) e p = print (write p.engine.sim_clock k e) p
  listen publish (calls c) e p = invoke_in ticks_per_ms now program_host publish c e p

  unfoldable pub publish_full : ℕ → Loop → Event F → Program F → Program F
  unfolding listen
  publish_full zero l e p = p
  publish_full (suc fuel) l e p = EventBus.publish (full_bus l) (listen (publish_full fuel)) e p

  unfoldable pub publish_next : Loop → Option (Event F) × Queue (Event F) → Program F → Program F
  unfolding publish_full
  publish_next l (none, rest) p = p
  publish_next l (some e, rest) p =
      publish_full depth l e (record p { engine = set_queue l rest p.engine })

module _ {F : Type 0} ⦃d : Double F⦄ where
  -- After main's five subscriptions, which have taken the first ids.
  abbrev pub watched : TradingEngine F
  watched = record new_engine {
    strategy_bus = record { next_id = 1; subscribers = [] };
    risk_bus = record { next_id = 4; subscribers = [] };
  }

module _ {F : Type 0} where
  abbrev pub started_lines : List (Piece F)
  started_lines =
      text "[main] Engine started. 4 threads running.\n"
      ∷ text "[main] MarketDataThread listening on tcp://127.0.0.1:5555\n"
      ∷ text "[main] Start the Python feeder in another terminal:\n"
      ∷ text "       python tools/backtest_feeder/feeder.py\n"
      ∷ text "[main] Press Ctrl-C to shut down.\n"
      ∷ []

  abbrev pub stopping_lines : List (Piece F)
  stopping_lines = text "\n[main] SIGINT received. Stopping engine...\n" ∷ []

module _ {J F : Type 0} ⦃d : Double F⦄ (ticks_per_ms : ℕ) (reader : JsonReader J F) where
  -- Only a turn of a loop publishes.
  unfoldable pub reach : Input F → Program F → Program F
  unfolding publish_next handle
  reach (turned l now) p = publish_next ticks_per_ms now l (try_pop (queue_of l p.engine)) p
  reach i p = record p { engine = handle ticks_per_ms reader i p.engine }

  unfoldable pub reach_all : List (Input F) → Program F → Program F
  unfolding reach
  reach_all [] p = p
  reach_all (i ∷ is) p = reach_all is (reach i p)

  -- The start and the stop of the engine are one step each. `starting` is what reaches the engine after
  -- its loops have started and before main writes about it, `serving` what does until main takes notice
  -- of the signal, and `stopping` what does before the stop takes effect.
  unfoldable pub main : List (Input F) → List (Input F) → List (Input F) → Program F
  unfolding reach_all start stop
  main starting serving stopping =
      let launched : Program F = record { engine = start true none watched; lines = [] } in
      let served = reach_all serving (print (started_lines ∷ []) (reach_all starting launched)) in
      let ended = reach_all stopping (print (stopping_lines ∷ []) served) in
      record ended { engine = stop ended.engine }
