-- ===== src/Examples/Engine.antt =====
-- The whole engine at work, from a market tick to the books.
use quant_core_engine.Prelude.{
  ◌≡◌, refl, true, Option, none, some, [], ◌∷◌, string_eq, nat_eq, arith,
}
use quant_core_engine.Prelude.Int.{ℤ, pos, ◌+ℤ◌, neg_ℤ}
use quant_core_engine.Double.Whole.{whole}
use quant_core_engine.Domain.{buy, accepted}
use quant_core_engine.Events.{logging, ExecutionStatus, signal}
use quant_core_engine.Table.{find}
use quant_core_engine.PositionEngine.{position, on_fill}
use quant_core_engine.RiskEngine.{exceeds_limit, current_quantity}
use quant_core_engine.DummyStrategy.{signal_of}
use quant_core_engine.TradingEngine.World.{TradingEngine, publish, depth, strategy, risk, routing}
use quant_core_engine.TradingEngine.Wiring.{Reconciled, new_engine, start}
use quant_core_engine.TradingEngine.Fuel.{publish_enough}
use quant_core_engine.TradingEngine.Restart.{after_tick, restarted, tick-restarted}
use quant_core_engine.TradingEngine.Turns.{push_market_data, run}
use quant_core_engine.TradingEngine.Pipeline.{booked, tick-booked}
use quant_core_engine.TradingEngine.Reconciler.{unbooked_fill}
use quant_core_engine.TradingEngine.Collision.{first_order_id}
use quant_core_engine.RiskEngine.{order_of}
use quant_core_engine.TradingEngine.Wiring.{wire, reconcile}
use quant_core_engine.Examples.{order_to, report_of, tick_at, signal_to}

abbrev engine : TradingEngine ℤ
engine = new_engine

abbrev reconciled : Option (Reconciled ℤ)
reconciled = some (record {
  positions =
      record {
        symbol = "AAPL";
        net_quantity = pos 2;
        average_price = pos 100;
        realized_pnl = pos 0;
      }
      ∷ [];
  orders = [];
})

publish_enough_example :
    publish 1000 (pos 8) 9 risk (signal (signal_to buy)) engine
    ≡ publish 1000 (pos 8) depth risk (signal (signal_to buy)) engine
publish_enough_example =
    publish_enough 1000 (pos 8) 9 risk (signal (signal_to buy)) engine (omega arith)

tick-restarted_example :
    after_tick 1000 (pos 8) (tick_at (pos 150)) (restarted true reconciled none)
    ≡ signal (signal_of (pos 8) (tick_at (pos 150)))
      ∷ signal (signal_of (pos 8) (tick_at (pos 150)))
      ∷ []
tick-restarted_example = tick-restarted 1000 (pos 8) (tick_at (pos 150)) true reconciled none refl

abbrev bought : TradingEngine ℤ
bought = booked 1000 (pos 8) (pos 9) (pos 10) (pos 11) (pos 12) (tick_at (pos 150))

tick-booked_example :
    run 1000
      ((strategy, pos 8) ∷ (risk, pos 9) ∷ (routing, pos 10) ∷ (risk, pos 11) ∷ (risk, pos 12) ∷ [])
      (push_market_data (tick_at (pos 150)) (start true none new_engine))
    ≡ bought
unfolding ◌+ℤ◌ neg_ℤ
tick-booked_example =
    tick-booked 1000 (pos 8) (pos 9) (pos 10) (pos 11) (pos 12) (tick_at (pos 150)) refl refl refl
      refl

-- One order is open at the exchange, and is filled after the start.
abbrev open_orders : Reconciled ℤ
open_orders = record { positions = []; orders = record (order_to 1 buy) { status = accepted } ∷ [] }

unbooked_fill_example :
    let books = (start true (some open_orders) engine).position_engine in
    let fill = report_of 1 ExecutionStatus.filled (pos 1) (pos 100) in
    on_fill logging fill (books, []) ≡ (books, [])
unbooked_fill_example =
    unbooked_fill true open_orders (report_of 1 ExecutionStatus.filled (pos 1) (pos 100)) []

first_order_id_example :
    let w = start true (some open_orders) engine in
    find 1 (publish 1000 (pos 8) depth risk (signal (signal_to buy)) w).order_tracker.active_orders
    ≡ some (order_of 1 (signal_to buy))
unfolding exceeds_limit current_quantity position find ◌+ℤ◌ start wire reconcile new_engine
first_order_id_example = first_order_id 1000 (pos 8) open_orders (signal_to buy) refl
