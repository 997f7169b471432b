-- ===== src/TradingEngine/Served.antt =====
-- The engine and the thread of its IPC server at work together: the loops push on the telemetry queue
-- that the server takes from, in any interleaving.
pub mod Drained
use quant_core_engine.Prelude.{
  ℕ, zero, suc, String, ◌≡◌, refl, sym, ap, ◌∙◌, Option, none, some, List, [], ◌∷◌, ◌++◌, All,
  append_assoc, append-nil, Option-cases, inl, inr,
}
use mathlib.Core.Path.{subst}
use quant_core_engine.Double.{Double}
use quant_core_engine.Events.{Timestamp, Event}
use quant_core_engine.EventBus.{SubscriptionId}
use quant_core_engine.Json.{Json}
use quant_core_engine.Telemetry.{format_telemetry}
use quant_core_engine.ThreadSafeQueue.{Queue, push, try_pop}
use quant_core_engine.IpcServer.{
  IpcServer, messages, send_telemetry, process_telemetry, process_commands, request,
}
use quant_core_engine.MarketDataGateway.{JsonReader, read_tick, handle_message}
use quant_core_engine.TradingEngine.World.{
  Loop, strategy, risk, routing, Callback, forward_order, telemetry_order, telemetry_position,
  telemetry_violation, push_risk, push_routing, push_telemetry, TradingEngine, itself, bus_of,
  invoke, invoke_in, publish, depth,
}
use quant_core_engine.TradingEngine.Turns.{queue_of, set_queue, publish_popped, turn, push_event}
use quant_core_engine.TradingEngine.Commands.{execute_command}
use quant_core_engine.TradingEngine.Schedule.{
  Input, turned, received, pushed, commanded, components_of, with_components, handle, handle_all,
}
use quant_core_engine.TradingEngine.Remote.{command_handler}
use quant_core_engine.TradingEngine.Simulation.{callbacks, IsSimulation, same_tables}
use quant_core_engine.TradingEngine.Simulation.Schedules.{KeepsQueues, handle-simulated}
use quant_core_engine.TradingEngine.Simulation.{All-Allowed}

-- The engine holds the queue; `published` and `replies` are what the server has sent.
pub record Site (F : Type 0) : Type 0 where
  pub engine : TradingEngine F
  pub published : List String
  pub replies : List String

-- Something reaches the engine; or the server makes one round of the loop of processTelemetry, or
-- answers a request.
pub data SiteStep (F : Type 0) : Type 0 where
  reaches : Input F → SiteStep F
  drains : SiteStep F
  answers : String → SiteStep F

module _ {F : Type 0} where
  -- What reaches the engine, with a request as the command that it carries.
  abbrev pub inputs_of : List (SiteStep F) → List (Input F)
  inputs_of [] = []
  inputs_of (reaches i ∷ steps) = i ∷ inputs_of steps
  inputs_of (drains ∷ steps) = inputs_of steps
  inputs_of (answers cmd ∷ steps) = commanded cmd ∷ inputs_of steps

module _ {J F : Type 0} ⦃d : Double F⦄ (ticks_per_ms : ℕ) (reader : JsonReader J F)
    (dump : Json F → String) where
  -- The server as its own thread sees it.
  abbrev pub server_of : Site F → IpcServer F (TradingEngine F)
  server_of s = record {
    telemetry_queue = s.engine.telemetry_queue;
    published = s.published;
    replies = s.replies;
    world = s.engine;
  }

  unfoldable pub site_step : SiteStep F → Site F → Site F
  unfolding handle process_telemetry process_commands command_handler
  site_step (reaches i) s = record s { engine = handle ticks_per_ms reader i s.engine }
  site_step drains s =
      let t = process_telemetry dump (command_handler dump) 1 (server_of s) in
      record s {
        engine = record s.engine { telemetry_queue = t.telemetry_queue };
        published = t.published;
      }
  site_step (answers cmd) s =
      elim (process_commands dump (command_handler dump) (request cmd) (server_of s)) [
        | none ↦ s
        | some t ↦ record s { engine = t.world; replies = t.replies }
      ]

  unfoldable pub site_steps : List (SiteStep F) → Site F → Site F
  unfolding site_step
  site_steps [] s = s
  site_steps (x ∷ steps) s = site_steps steps (site_step x s)

module _ {F : Type 0} where
  -- The engine with some more telemetry, ahead of what is queued.
  abbrev pub told_before : List (Event F) → TradingEngine F → TradingEngine F
  told_before t w = record w { telemetry_queue = record { items = t ++ w.telemetry_queue.items } }

  telling-told_before :
      (t : List (Event F)) (e : Event F) (w : TradingEngine F)
      → push_telemetry e (told_before t w) ≡ told_before t (push_telemetry e w)
  unfolding push
  telling-told_before t e w =
      ap (λ es. record w { telemetry_queue = record { items = es } })
        (append_assoc t w.telemetry_queue.items (e ∷ []))

  abbrev Ahead : List (Event F) → TradingEngine F → TradingEngine F → Type 0
  Ahead t v w = v ≡ told_before t w

  -- The handlers write the telemetry queue, and none reads it.
  simulation : (t : List (Event F)) → IsSimulation itself Unit Unit (Ahead t)
  simulation t = record {
    tables =
        same_tables itself (Ahead t) (λ v w r. ap (λ (v : TradingEngine F). v.order_tracker) r)
          (λ v w r. ap (λ (v : TradingEngine F). v.position_engine) r)
          (λ s v w r. ap (λ (v : TradingEngine F). record v { order_tracker = s }) r)
          (λ s v w r. ap (λ (v : TradingEngine F). record v { position_engine = s }) r);
    risks = λ v w r. ap (λ (v : TradingEngine F). v.risk_engine) r;
    ids = λ v w r. ap (λ (v : TradingEngine F). v.order_id_gen) r;
    clock = λ v w r. ap (λ (v : TradingEngine F). v.sim_clock) r;
    buses = λ l v w r. ap callbacks (ap (bus_of l) r ∙ same_bus l w);
    subscribed = λ l v w r. All-Allowed Unit Unit tt tt (bus_of l w).subscribers;
    put_risks = λ s v w r. ap (λ (v : TradingEngine F). record v { risk_engine = s }) r;
    put_ids = λ s v w r. ap (λ (v : TradingEngine F). record v { order_id_gen = s }) r;
    pushing = λ e v w r. ap (push_risk e) r;
    routing_it = λ u e v w r. ap (push_routing e) r;
    telling = λ u e v w r. ap (push_telemetry e) r ∙ telling-told_before t e w;
  }
    where
      same_bus : (l : Loop) (w : TradingEngine F) → bus_of l (told_before t w) ≡ bus_of l w
      same_bus strategy w = refl
      same_bus risk w = refl
      same_bus routing w = refl

  keeps : (t : List (Event F)) → KeepsQueues (Ahead t)
  keeps t = record {
    queues = λ l v w r. ap (queue_of l) r ∙ same_queue l w;
    put_queue = λ l q v w r. ap (set_queue l q) r ∙ set_told l q w;
    put_clock = λ c v w r. ap (λ (x : TradingEngine F). record x { sim_clock = c }) r;
  }
    where
      same_queue : (l : Loop) (w : TradingEngine F) → queue_of l (told_before t w) ≡ queue_of l w
      same_queue strategy w = refl
      same_queue risk w = refl
      same_queue routing w = refl

      set_told :
          (l : Loop) (q : Queue (Event F)) (w : TradingEngine F)
          → set_queue l q (told_before t w) ≡ told_before t (set_queue l q w)
      set_told strategy q w = refl
      set_told risk q w = refl
      set_told routing q w = refl

module _ {J F : Type 0} ⦃d : Double F⦄ (ticks_per_ms : ℕ) (reader : JsonReader J F)
    (t : List (Event F)) where
  pub handle-told_before :
      (i : Input F) (w : TradingEngine F)
      → handle ticks_per_ms reader i (told_before t w)
        ≡ told_before t (handle ticks_per_ms reader i w)
  handle-told_before i w =
      handle-simulated ticks_per_ms reader (Ahead t) (simulation t) (keeps t) i (told_before t w) w
        refl
