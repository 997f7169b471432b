-- ===== src/OrderRoutingThread.antt =====
-- core/app/src/network/order_routing_thread.cpp: an event loop of its own, with the execution engine
-- that it makes on that loop's bus when it starts and destroys when it stops.
pub mod Restarts
use quant_core_engine.Prelude.{
  ℕ, zero, suc, Bool, true, false, Option, none, some, List, [], ◌∷◌, ◌++◌, if◌then◌else◌,
}
use quant_core_engine.Double.{Double}
use quant_core_engine.Events.{Timestamp, Event, order_event, execution_report}
use quant_core_engine.EventBus.{Bus, SubscriptionId, new_bus, subscribe, unsubscribe}
use quant_core_engine.EventBus
use quant_core_engine.ThreadSafeQueue.{new_queue}
use quant_core_engine.TimeProvider.{SimulationTimeProvider, simulation_time}
use quant_core_engine.EventLoop.{EventLoop, absent}
use quant_core_engine.EventLoop
use quant_core_engine.Execution

-- What is subscribed to the loop's bus: one of the two execution engines, and the bridge that hands
-- reports to the owner.
pub data Handler : Type 0 where
  mock_execution live_execution forward_report : Handler

-- What the loop's thread reaches: the bus, the owner's clock, and the reports handed on.
pub record Routing (F : Type 0) : Type 0 where
  pub bus : Bus Handler
  pub clock : SimulationTimeProvider
  pub forwarded : List (Event F)

-- `time_provider` says whether the pointer is not null; `execution_engine` holds the subscription of
-- the engine that exists.
pub record OrderRoutingThread (F : Type 0) : Type 0 where
  pub time_provider : Bool
  pub loop : EventLoop (Event F) (Routing F)
  pub execution_engine : Option SubscriptionId
  pub running : Bool

unfoldable pub engine_kind : Bool → Handler
engine_kind time_provider = if time_provider then mock_execution else live_execution

module _ {F : Type 0} where
  -- The constructor, on a clock.
  unfoldable pub new_thread : Bool → SimulationTimeProvider → OrderRoutingThread F
  new_thread time_provider clock = record {
    time_provider = time_provider;
    loop = record {
      queue = new_queue;
      running = false;
      worker = absent;
      subscribers = record { bus = new_bus; clock = clock; forwarded = [] };
    };
    execution_engine = none;
    running = false;
  }

  -- `subscribe` on the loop's bus.
  unfoldable pub subscribe_loop :
      Handler → EventLoop (Event F) (Routing F) → SubscriptionId × EventLoop (Event F) (Routing F)
  subscribe_loop handler s =
      let (id, bus) = subscribe handler s.subscribers.bus in
      (id, record s { subscribers = record s.subscribers { bus = bus } })

  -- The engine's destructor, if there is an engine.
  unfoldable pub reset_engine :
      Option SubscriptionId → EventLoop (Event F) (Routing F) → EventLoop (Event F) (Routing F)
  reset_engine none s = s
  reset_engine (some id) s = record s {
    subscribers = record s.subscribers { bus = unsubscribe id s.subscribers.bus };
  }

  -- The owner's bridge.
  unfoldable pub add_bridge : OrderRoutingThread F → OrderRoutingThread F
  unfolding subscribe_loop
  add_bridge t = record t { loop = (subscribe_loop forward_report t.loop).1 }

-- `now` is the reading of the system clock in this turn.
module _ {F : Type 0} ⦃d : Double F⦄ (ticks_per_ms : ℕ) (now : Timestamp) where
  unfoldable pub invoke :
      (Event F → Routing F → Routing F) → Handler → Event F → Routing F → Routing F
  invoke publish mock_execution (order_event e) r =
      Execution.mock_on_order publish ticks_per_ms (simulation_time (λ v. v.clock)) e r
  invoke publish live_execution (order_event e) r = Execution.on_order publish now e r
  invoke publish forward_report (execution_report e) r = record r {
    forwarded = r.forwarded ++ execution_report e ∷ [];
  }
  invoke publish _ _ r = r

  -- The reports of an engine are published while its order is: publishing nests twice.
  unfoldable pub publish : ℕ → Event F → Routing F → Routing F
  unfolding invoke
  publish zero e r = r
  publish (suc fuel) e r = EventBus.publish (λ v. v.bus) (invoke (publish fuel)) e r

  abbrev pub on_bus : Event F → Routing F → Routing F
  on_bus = publish 2

  unfoldable pub start : OrderRoutingThread F → OrderRoutingThread F
  unfolding subscribe_loop engine_kind
  start t =
      if t.running
      then t
      else let (id, loop) =
          subscribe_loop (engine_kind t.time_provider) (EventLoop.start on_bus t.loop) in
        record t { loop = loop; execution_engine = some id; running = true }

  -- Iterations of the loop's thread.
  unfoldable pub work : ℕ → EventLoop (Event F) (Routing F) → EventLoop (Event F) (Routing F)
  work zero s = s
  work (suc rounds) s = work rounds (EventLoop.iterate on_bus s)

  -- `loop_.stop()`, if the thread makes so many iterations between the request and the join; `none` if
  -- the join does not return.
  unfoldable pub stop_loop :
      ℕ → EventLoop (Event F) (Routing F) → Option (EventLoop (Event F) (Routing F))
  unfolding work
  stop_loop rounds s = EventLoop.join on_bus (work rounds (EventLoop.request_stop on_bus s))

  abbrev pub when_joined :
      OrderRoutingThread F
      → Option (EventLoop (Event F) (Routing F))
      → Option (OrderRoutingThread F)
  when_joined t none = none
  when_joined t (some loop) =
      some (record t { loop = loop; execution_engine = none; running = false })

  -- The engine goes first, then the loop.
  unfoldable pub stop : ℕ → OrderRoutingThread F → Option (OrderRoutingThread F)
  unfolding reset_engine stop_loop
  stop rounds t =
      if t.running
      then when_joined t (stop_loop rounds (reset_engine t.execution_engine t.loop))
      else some t

  unfoldable pub push : Event F → OrderRoutingThread F → OrderRoutingThread F
  push e t = record t { loop = EventLoop.push_event on_bus e t.loop }

  -- One iteration of the loop's thread.
  unfoldable pub turn : OrderRoutingThread F → OrderRoutingThread F
  turn t = record t { loop = EventLoop.iterate on_bus t.loop }
