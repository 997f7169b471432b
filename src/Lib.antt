-- ===== src/Lib.antt =====
-- The engine of quant-core-engine: market data goes in at one end, and orders, positions and
-- telemetry come out at the other. This library models the C++ of core/app and core/engine.
--
-- Parts and interactions. A market data thread reads JSON ticks, moves the simulation clock and
-- pushes each tick on the strategy loop's queue. Three event loops, each a queue, a bus and a worker
-- thread, publish what they pop on their own bus. On the strategy bus the strategy turns a tick into
-- a signal, which a bridge pushes on the risk loop's queue. On the risk bus the risk engine turns a
-- signal into an order, unless trading is halted or a limit would be passed; the order tracker and the
-- position engine take note of it, and a bridge pushes it on the routing loop's queue. There the
-- execution engine answers with reports, which a bridge pushes back on the risk loop's queue: the
-- order tracker moves the order along its lifecycle and the position engine books the fill. Updates
-- and violations go to the queue of the IPC server, which prints them as JSON and answers commands.
--
-- Files, and the source that they model:
--   Domain         core/app/include/quant/domain/*.hpp
--   Events         core/app/include/quant/events/*.hpp
--   OrderTracker   core/app/src/risk/order_tracker.cpp: transition_status, is_terminal, on_order,
--                  on_execution_report, hydrate_order
--   PositionEngine core/app/src/risk/position_engine.cpp: on_order, on_fill, apply_fill (ApplyFill),
--                  position, get_snapshots, hydrate_position
--   RiskEngine     core/app/src/risk/risk_engine.cpp: on_signal, on_risk_violation, halt_trading,
--                  is_halted
--   OrderIdGenerator core/app/include/quant/concurrent/order_id_generator.hpp
--   EventBus       core/app/src/event/event_bus.cpp: subscribe, unsubscribe, publish; Destruction splits
--                  publish in the copy and the calls
--   ThreadSafeQueue core/app/include/quant/concurrent/thread_safe_queue.hpp: push, pop, try_pop, empty
--   EventLoop      core/app/src/event/event_loop_thread.cpp: start, stop as request_stop and join,
--                  push as push_event, one round of run as iterate
--   TimeProvider   core/app/src/time/*.cpp and core/app/include/quant/time/*.hpp: ITimeProvider is a
--                  record that an execution engine takes, simulation_time and live_time its two clocks;
--                  TimeProvider/Range is about std::int64_t
--   Execution      core/app/src/execution/execution_engine.cpp and mock_execution_engine.cpp
--   DummyStrategy  core/app/src/statergy/dummy_strategy.cpp
--   MarketDataGateway core/app/src/gateway/market_data_gateway.cpp: run as a list of rounds; in
--                  MarketDataGateway/Stopping with its flag, as begin_run, test, receive and stop
--   MarketDataThread core/app/src/network/market_data_thread.cpp: start_thread, stop_gateway and
--                  join_thread for stop, work for the thread
--   OrderRoutingThread core/app/src/network/order_routing_thread.cpp: start, stop, push
--   Telemetry, Json, IpcServer core/app/src/network/ipc_server.cpp: run, processTelemetry,
--                  processCommands and the formats; IpcServer/Thread has start and stop
--   TradingEngine  core/engine/src/trading_engine.cpp with the start of
--                  core/app/src/network/order_routing_thread.cpp: World holds the state and what each
--                  callback does, Wiring has start and stop, Turns the loops, Commands executeCommand,
--                  Reconciler core/app/include/quant/risk/i_reconciler.hpp, Schedule all that reaches
--                  the engine in any order, Process the pointers that stop resets, and stop in steps,
--                  Starting start in steps, Served the engine with the IPC server at work beside it
--   Main           main.cpp: the lines that it writes; Main/Program its callbacks on the engine's buses
--                  and its calls, with the start and the stop of the engine as one step each;
--                  Main/Shutdown its wait for SIGINT
--   Table          std::unordered_map as an association list; Table/Unordered has what does not
--                  depend on the order of its entries, TradingEngine/Unordered and Hydration for the
--                  engine
--   Double         double as an interface; Double/Exact and Double/Ordered have the laws of exact
--                  arithmetic as named hypotheses, Double/Whole an instance at whole numbers that has
--                  them
--   Prelude        shared names, tests and lemmas; Examples has concrete runs
--
-- State and handlers. A component is a record of its members, and a handler is a function on a world
-- that holds the record: a Host says how to read and write it and how to publish. The same handler
-- runs on a log of events, where a component is looked at alone, and in the whole engine, where a
-- publish runs the other subscribers before it returns.
--
-- Proofs about the whole engine go by TradingEngine/Handlers, which works off the cases of each handler
-- once, and TradingEngine/Induction: what each handler, bridge and queue keeps, all schedules keep.
-- TradingEngine/Weight says how much work a queued event makes. TradingEngine/Remote puts the engine
-- behind the IPC server. The callbacks are written once, in invoke_in, over what they reach of the
-- engine, and used for the engine itself and for a process whose pointers may be null. Simulation has
-- the handlers of two such worlds side by side: Covered, Served, Unordered and Main/Program/Watching
-- give it the relation that they need.
--
-- Threads. What runs under a mutex, or is one atomic access, is one step; threads are interleavings of
-- steps. Readings of the wall clock are arguments.
--
-- Fuel and bounds. Publishing nests callbacks, so publish in TradingEngine/World has fuel 5, its
-- depth: a tick, a signal, an order, a report and an update rank 5 to 1 at most, and a callback
-- publishes lower ranks only. The drain of the telemetry queue takes as much fuel as there are events.
-- Order ids and subscription ids wrap at 2^64. Milliseconds and time points are integers without a
-- bound, and TimeProvider/Range says when they fit std::int64_t.
--
-- Left out: writes to stdout and stderr but for the lines of main; sockets and their set-up; the files
-- that CMake generates; tests and the feeder. In TradingEngine a turn of a loop is one step; a
-- component that is destroyed during a publish is in EventBus/Destruction, for one bus. A reconciler
-- is the two lists that it returns. The positions in a STATUS reply are in the order of the table, which
-- std::unordered_map leaves open. ZeroMQ and nlohmann::json are parameters: a receive has one of four outcomes, and parsing
-- returns a value or nothing. Rounding of double is not modelled: what rests on exact arithmetic takes
-- its laws as a hypothesis.
pub mod Prelude
pub mod Double
pub mod Domain
pub mod Events
pub mod Table
pub mod OrderTracker
pub mod PositionEngine
pub mod OrderIdGenerator
pub mod RiskEngine
pub mod EventBus
pub mod TimeProvider
pub mod Execution
pub mod DummyStrategy
pub mod ThreadSafeQueue
pub mod EventLoop
pub mod MarketDataGateway
pub mod MarketDataThread
pub mod OrderRoutingThread
pub mod Main
pub mod Json
pub mod Telemetry
pub mod IpcServer
pub mod TradingEngine
pub mod Examples
