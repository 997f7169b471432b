-- ===== src/Examples/Tables.antt =====
-- Two reports of one reconciler that list the same in another order.
use quant_core_engine.Prelude.{
  String, ◌==◌, false, ◌≡◌, ◌≢◌, arith, refl, true, some, List, [], ◌∷◌, nat_eq, string_eq,
}
use mathlib.Core.List.{Permᴰ, Pairwise-pair}
use mathlib.Core.HLevel.{¬_prop}
use mathlib.Core.Bool.{false≢true}
use quant_core_engine.Prelude.Int.{ℤ, pos}
use quant_core_engine.Double.Whole.{whole}
use quant_core_engine.Domain.{Order, Position, buy, sell, accepted}
use quant_core_engine.TradingEngine.World.{strategy, risk, routing}
use quant_core_engine.TradingEngine.Wiring.{Reconciled, new_engine, start}
use quant_core_engine.TradingEngine.Schedule.{Input, turned, received, reply, handle_all}
use quant_core_engine.TradingEngine.Unordered.{IsAlike}
use quant_core_engine.TradingEngine.Hydration.{start-reordered}
use quant_core_engine.Examples.{order_to}
use quant_core_engine.Examples.Machines.{reader}

abbrev apples : Position ℤ
apples = record {
  symbol = "AAPL";
  net_quantity = pos 100;
  average_price = pos 150;
  realized_pnl = pos 0;
}

abbrev pears : Position ℤ
pears = record apples { symbol = "PEAR"; net_quantity = pos 7 }

abbrev bids : Order ℤ
bids = record (order_to 1 buy) { status = accepted }

abbrev asks : Order ℤ
asks = record (order_to 2 sell) { status = accepted }

abbrev report : Reconciled ℤ
report = record { positions = apples ∷ pears ∷ []; orders = bids ∷ asks ∷ [] }

abbrev reordered : Reconciled ℤ
reordered = record { positions = pears ∷ apples ∷ []; orders = asks ∷ bids ∷ [] }

abbrev session : List (Input ℤ)
session =
    received "tick"
    ∷ turned strategy (pos 9)
    ∷ turned risk (pos 10)
    ∷ turned routing (pos 11)
    ∷ turned risk (pos 12)
    ∷ []

one≢two : bids.id ≢ asks.id
one≢two e = omega arith

aapl≢pear : apples.symbol ≢ pears.symbol
aapl≢pear e = false≢true ((string_eq.beq_iff apples.symbol pears.symbol).1 e)

start-reordered_example :
    let v = handle_all 1000 reader session (start true (some report) new_engine) in
    let w = handle_all 1000 reader session (start true (some reordered) new_engine) in
    IsAlike v w × ((cmd : String) → (cmd == "STATUS") ≡ false → reply cmd v ≡ reply cmd w)
start-reordered_example =
    start-reordered 1000 reader true report reordered session (Permᴰ.swap refl refl)
      (Permᴰ.swap refl refl) ((Pairwise-pair (λ v w. ¬_prop)).1 aapl≢pear)
      ((Pairwise-pair (λ v w. ¬_prop)).1 one≢two)
