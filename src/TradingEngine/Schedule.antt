-- ===== src/TradingEngine/Schedule.antt =====
-- The engine under everything that reaches it: turns of its three loops, messages of the market data
-- feed, events that are pushed, and commands of the IPC server, in any interleaving.
use quant_core_engine.Prelude.{◌≡◌, refl, ◌++◌, ℕ, String, some, List, [], ◌∷◌, get_or}
use quant_core_engine.Json.{Json}
use quant_core_engine.Double.{Double}
use quant_core_engine.Events.{Timestamp, Event}
use quant_core_engine.MarketDataGateway.{JsonReader, GatewayHost, handle_message}
use quant_core_engine.TradingEngine.World.{Loop, TradingEngine}
use quant_core_engine.TradingEngine.Turns.{push_event, turn}
use quant_core_engine.TradingEngine.Commands.{Components, execute_command}

pub data Input (F : Type 0) : Type 0 where
  turned : Loop → Timestamp → Input F
  received : String → Input F
  pushed : Event F → Input F
  commanded : String → Input F

module _ {F : Type 0} where
  -- The gateway holds the engine's clock, and its sink is `pushEvent`.
  abbrev pub gateway_host : GatewayHost (TradingEngine F) F
  gateway_host = record {
    get_clock = λ w. w.sim_clock;
    put_clock = λ c w. record w { sim_clock = c };
    event_sink = push_event;
  }

  -- Both components exist from the end of `start` to the beginning of `stop`.
  abbrev pub components_of : TradingEngine F → Components F
  components_of w = record {
    risk_engine = some w.risk_engine;
    position_engine = some w.position_engine;
  }

  abbrev pub with_components : Components F → TradingEngine F → TradingEngine F
  with_components c w = record w {
    risk_engine = get_or w.risk_engine c.risk_engine;
    position_engine = get_or w.position_engine c.position_engine;
  }

  -- The reply to a command that reaches the engine, which goes back to the IPC server.
  unfoldable pub reply : String → TradingEngine F → Json F
  reply cmd w = (execute_command cmd (components_of w)).0

module _ {J F : Type 0} ⦃d : Double F⦄ (ticks_per_ms : ℕ) (reader : JsonReader J F) where
  unfoldable pub handle : Input F → TradingEngine F → TradingEngine F
  handle (turned l now) w = turn ticks_per_ms l now w
  handle (received payload) w = handle_message ticks_per_ms reader gateway_host payload w
  handle (pushed e) w = push_event e w
  -- What the command does; `reply` is what it answers.
  handle (commanded cmd) w = with_components (execute_command cmd (components_of w)).1 w

  unfoldable pub handle_all : List (Input F) → TradingEngine F → TradingEngine F
  handle_all [] w = w
  handle_all (i ∷ is) w = handle_all is (handle i w)

  pub handle_all-append :
      (is js : List (Input F)) (w : TradingEngine F)
      → handle_all (is ++ js) w ≡ handle_all js (handle_all is w)
  unfolding handle_all
  handle_all-append [] js w = refl
  handle_all-append (i ∷ is) js w = handle_all-append is js (handle i w)
