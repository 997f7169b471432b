-- ===== src/Examples/Books.antt =====
-- The position engine at work: a purchase, a sale beyond it, and what the books say.
use quant_core_engine.Prelude.{◌≡◌, refl, none, some, List, [], ◌∷◌, nat_eq, string_eq}
use quant_core_engine.Prelude.Int.{ℤ, pos, negsuc, ◌+ℤ◌, ◌-ℤ◌, ◌*ℤ◌, neg_ℤ, abs_ℤ, div_ℤ}
use quant_core_engine.Double.{◌+◌, ◌*◌, neg}
use quant_core_engine.Double.Whole.{whole, whole-IsExact}
use quant_core_engine.Domain.{buy, sell, Position, new_position, default_limits}
use quant_core_engine.Events.{ExecutionStatus, ExecutionReportEvent, logging}
use quant_core_engine.Table.{find, insert, erase}
use quant_core_engine.PositionEngine.{OrderInfo, is_filled, hydrate_position, on_order, on_fill}
use quant_core_engine.PositionEngine.ApplyFill.{
  same_direction, apply_fill, increase, decrease, reverse_through_zero, direction_sign,
}
use quant_core_engine.PositionEngine.Accounting.{cost, cost-apply_fill}
use quant_core_engine.PositionEngine.History.{apply_fills, value_of, realized_pnl-flat}
use quant_core_engine.PositionEngine.Fills.{World, fill_once}
use quant_core_engine.PositionEngine.Invariant.{IsNamed, hydrate_position-IsNamed}
use quant_core_engine.PositionEngine.Ledger.{
  Input, placed, reported, handle, handle_all, record_all, ledger, ledger-handle_all,
}
use quant_core_engine.Examples.{placed_order, report_of}

abbrev no_books : World ℤ
no_books = (
  record {
    order_sub_id = 0;
    fill_sub_id = 1;
    limits = default_limits;
    positions = [];
    order_cache = [];
  },
  [],
)

-- Buy 2 at 100, then sell 3 at 110.
abbrev bought : ExecutionReportEvent ℤ
bought = report_of 1 ExecutionStatus.filled (pos 2) (pos 100)

abbrev sold : ExecutionReportEvent ℤ
sold = report_of 2 ExecutionStatus.filled (pos 3) (pos 110)

abbrev inputs : List (Input ℤ)
inputs =
    placed (placed_order 1 buy)
    ∷ reported bought
    ∷ placed (placed_order 2 sell)
    ∷ reported sold
    ∷ []

ledger-handle_all_example :
    ledger (handle_all logging inputs no_books) ≡ record_all inputs (ledger no_books)
ledger-handle_all_example = ledger-handle_all whole-IsExact inputs no_books

-- The run itself: one sold short at 110, and 20 earned.
run_of_inputs :
    find "AAPL" (handle_all logging inputs no_books).0.positions
    ≡ some (record {
      symbol = "AAPL";
      net_quantity = negsuc 0;
      average_price = pos 110;
      realized_pnl = pos 20;
    })
unfolding handle_all handle find insert erase on_order on_fill apply_fill same_direction increase
    decrease reverse_through_zero direction_sign ◌+ℤ◌ ◌-ℤ◌ ◌*ℤ◌ neg_ℤ abs_ℤ div_ℤ
run_of_inputs = refl

abbrev held : Position ℤ
held = record {
  symbol = "AAPL";
  net_quantity = pos 2;
  average_price = pos 100;
  realized_pnl = pos 5;
}

cost-apply_fill_example : cost (apply_fill held (pos 2) (pos 110)) ≡ cost held + pos 2 * pos 110
unfolding ◌+ℤ◌ ◌*ℤ◌ div_ℤ
cost-apply_fill_example = cost-apply_fill whole-IsExact held (pos 2) (pos 110) (λ s. refl)

-- Buy 2 at 100, 2 at 110, then sell all 4 at 120.
abbrev fills : List (ℤ × ℤ)
fills = (pos 2, pos 100) ∷ (pos 2, pos 110) ∷ (negsuc 3, pos 120) ∷ []

realized_pnl-flat_example : (apply_fills new_position fills).realized_pnl ≡ neg (value_of fills)
unfolding apply_fill same_direction increase decrease ◌+ℤ◌ ◌-ℤ◌ ◌*ℤ◌ neg_ℤ abs_ℤ div_ℤ
realized_pnl-flat_example =
    realized_pnl-flat whole-IsExact fills (λ s. refl, (λ s. refl, (λ s. cc, tt))) refl

abbrev waiting : World ℤ
waiting = (
  record {
    order_sub_id = 0;
    fill_sub_id = 1;
    limits = default_limits;
    positions = ("AAPL", held) ∷ [];
    order_cache = (2, record { symbol = "AAPL"; side = sell }) ∷ [];
  },
  [],
)

abbrev info : OrderInfo
info = record { symbol = "AAPL"; side = sell }

fill_once_example : let after = on_fill logging sold waiting in on_fill logging sold after ≡ after
unfolding is_filled find
fill_once_example = fill_once sold sold waiting info refl refl refl

waiting-IsNamed : IsNamed waiting.0
unfolding hydrate_position find insert
waiting-IsNamed =
    hydrate_position-IsNamed (record waiting.0 { positions = [] }) held
      (λ k p e. absurd (none-ne-some e))
  where
    none-ne-some : {p : Position ℤ} → none ≡ some p → ⊥
    none-ne-some e = cc
