-- ===== src/MarketDataGateway.antt =====
-- core/app/src/gateway/market_data_gateway.cpp: the receive loop. The socket and nlohmann::json are
-- an environment: a receive has one of four outcomes, and what `parse`, `at` and `get` return for a
-- payload is a parameter, `none` where they throw.
pub mod Feed
pub mod Stopping
use quant_core_engine.Prelude.{
  ℕ, String, ◌≡◌, refl, sym, ap, ◌∙◌, Bool, true, false, Option, none, some, List, [], ◌∷◌, ◌++◌,
  arith, append_assoc, append-nil, if◌then◌else◌, Option-cases, inl, inr, All, All-append,
}
use quant_core_engine.Prelude.Int.{ℤ}
use quant_core_engine.Events.{MarketDataEvent, Event, market_data}
use quant_core_engine.TimeProvider.{SimulationTimeProvider, advance_time, ms_to_timestamp}

-- The library's part: a parsed value, `at` on a key, and `get` at three types.
pub record JsonReader (J F : Type 0) : Type 0 where
  pub parse : String → Option J
  pub at : String → J → Option J
  pub get_int : J → Option ℤ
  pub get_string : J → Option String
  pub get_double : J → Option F

pub data Received : Type 0 where
  message : String → Received
  timeout interrupted failed : Received

pub record Tick (F : Type 0) : Type 0 where
  pub timestamp_ms : ℤ
  pub symbol : String
  pub price : F
  pub volume : F

infixl 5 ◌>>=◌
abbrev ◌>>=◌ : {A B : Type 0} → Option A → (A → Option B) → Option B
none >>= f = none
some a >>= f = f a

-- The body of the `try`, up to the first effect.
unfoldable pub read_tick : {J F : Type 0} → JsonReader J F → String → Option (Tick F)
read_tick reader payload = do
  json ← reader.parse payload
  timestamp_ms ← reader.at "timestamp_ms" json >>= reader.get_int
  symbol ← reader.at "symbol" json >>= reader.get_string
  price ← reader.at "price" json >>= reader.get_double
  volume ← reader.at "volume" json >>= reader.get_double
  some (record { timestamp_ms = timestamp_ms; symbol = symbol; price = price; volume = volume })

-- What the gateway reaches: the simulation clock, and the sink that it pushes to.
pub record GatewayHost (W F : Type 0) : Type 0 where
  pub get_clock : W → SimulationTimeProvider
  pub put_clock : SimulationTimeProvider → W → W
  pub event_sink : Event F → W → W

module _ {F : Type 0} (ticks_per_ms : ℕ) where
  -- `sequence_id` keeps its default.
  unfoldable pub market_data_of : Tick F → MarketDataEvent F
  market_data_of tick = record {
    symbol = tick.symbol;
    price = tick.price;
    quantity = tick.volume;
    timestamp = ms_to_timestamp ticks_per_ms tick.timestamp_ms;
    sequence_id = 0;
  }

module _ {J F W : Type 0} (ticks_per_ms : ℕ) (reader : JsonReader J F) (h : GatewayHost W F) where
  -- The clock moves before the event is pushed.
  unfoldable pub handle_message : String → W → W
  unfolding market_data_of
  handle_message payload w = elim (read_tick reader payload) [
    | none ↦ w
    | some tick ↦
        h.event_sink (market_data (market_data_of ticks_per_ms tick))
          (h.put_clock (advance_time tick.timestamp_ms (h.get_clock w)) w)
  ]

  -- One round for each receive while `running_` holds; `none` is the exception that `run` passes on.
  unfoldable pub run : List Received → W → Option W
  unfolding handle_message
  run [] w = some w
  run (message payload ∷ rounds) w = run rounds (handle_message payload w)
  run (timeout ∷ rounds) w = run rounds w
  run (interrupted ∷ rounds) w = run rounds w
  run (failed ∷ rounds) w = none
