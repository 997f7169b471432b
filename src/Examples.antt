-- ===== src/Examples.antt =====
-- Concrete runs of the components, over whole numbers in place of double: the data that the runs of
-- the child modules share.
mod Books
mod Orders
mod Trading
mod Machines
mod Engine
mod Schedules
mod Starts
mod Tables
mod Threads
mod Rest
use quant_core_engine.Prelude.{ℕ, String}
use quant_core_engine.Prelude.Int.{ℤ, pos}
use quant_core_engine.Domain.{OrderId, Side, buy, Order, new}
use quant_core_engine.Events.{
  MarketDataEvent, SignalEvent, OrderEvent, ExecutionStatus, ExecutionReportEvent,
}

abbrev pub tick_at : ℤ → MarketDataEvent ℤ
tick_at price = record {
  symbol = "AAPL";
  price = price;
  quantity = pos 10;
  timestamp = pos 7;
  sequence_id = 3;
}

abbrev pub signal_to : Side → SignalEvent ℤ
signal_to side = record {
  strategy_id = "demo";
  symbol = "AAPL";
  side = side;
  strength = pos 1;
  price = pos 100;
  timestamp = pos 7;
  sequence_id = 3;
}

abbrev pub order_to : OrderId → Side → Order ℤ
order_to id side = record {
  id = id;
  strategy_id = "demo";
  symbol = "AAPL";
  side = side;
  quantity = pos 1;
  price = pos 100;
  status = new;
  filled_quantity = pos 0;
}

abbrev pub placed_order : OrderId → Side → OrderEvent ℤ
placed_order id side = record { order = order_to id side; timestamp = pos 8; sequence_id = 3 }

abbrev pub report_of : OrderId → ExecutionStatus → ℤ → ℤ → ExecutionReportEvent ℤ
report_of id status quantity price = record {
  order_id = id;
  filled_quantity = quantity;
  fill_price = price;
  status = status;
  timestamp = pos 9;
  sequence_id = 3;
}
