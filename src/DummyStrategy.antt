-- ===== src/DummyStrategy.antt =====
-- core/app/src/statergy/dummy_strategy.cpp: a buy signal for every tick with a positive price.
use quant_core_engine.Prelude.{String, if◌then◌else◌}
use quant_core_engine.Double.{Double, lit, ◌≤?◌}
use quant_core_engine.Domain.{buy}
use quant_core_engine.Events.{Timestamp, MarketDataEvent, SignalEvent, Event, signal}

abbrev pub strategy_name : String
strategy_name = "DummyStrategy"

module _ {F : Type 0} ⦃d : Double F⦄ where
  abbrev pub price_threshold : F
  price_threshold = lit 0

  unfoldable pub signal_of : Timestamp → MarketDataEvent F → SignalEvent F
  signal_of now event = record {
    strategy_id = strategy_name;
    symbol = event.symbol;
    side = buy;
    strength = lit 1;
    price = event.price;
    timestamp = now;
    sequence_id = event.sequence_id;
  }

  unfoldable pub on_market_data :
      {W : Type 0} → (Event F → W → W) → Timestamp → MarketDataEvent F → W → W
  on_market_data publish now event w =
      if event.price ≤? price_threshold then w else publish (signal (signal_of now event)) w
