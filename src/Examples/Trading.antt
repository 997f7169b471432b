-- ===== src/Examples/Trading.antt =====
-- The risk engine at work: signals that become orders, the HALT command, and the limit.
use quant_core_engine.Prelude.{
  ◌≡◌, refl, true, false, List, [], ◌∷◌, ◌++◌, arith, nat_eq, string_eq,
}
use quant_core_engine.Prelude.Int.{ℤ, pos, negsuc, ◌+ℤ◌, abs_ℤ}
use quant_core_engine.Double.Whole.{whole}
use quant_core_engine.Domain.{OrderId, buy, sell, RiskLimits}
use quant_core_engine.Events.{Timestamp, SignalEvent}
use quant_core_engine.Table.{find}
use quant_core_engine.OrderIdGenerator.{new_generator, take_ids, Consecutive, take_ids-Consecutive}
use quant_core_engine.PositionEngine.{position}
use quant_core_engine.RiskEngine.{exceeds_limit, current_quantity}
use quant_core_engine.RiskEngine.Desk.{Desk, Input, signalled, commanded, handle_all}
use quant_core_engine.RiskEngine.Limits.{taken}
use quant_core_engine.RiskEngine.Orders.{order_ids, order_ids-handle_all}
use quant_core_engine.Examples.{signal_to}

abbrev small_limits : RiskLimits ℤ
small_limits = record { max_position_per_symbol = pos 3; max_drawdown = negsuc 499 }

-- Two units are held of the three that the limit allows.
abbrev open_desk : Desk ℤ
open_desk = record {
  engine = record {
    limits = small_limits;
    halt_flag = false;
    signal_sub_id = 5;
    violation_sub_id = 6;
  };
  ids = new_generator;
  positions = record {
    order_sub_id = 2;
    fill_sub_id = 3;
    limits = small_limits;
    positions =
        (
          "AAPL",
          record {
            symbol = "AAPL";
            net_quantity = pos 2;
            average_price = pos 100;
            realized_pnl = pos 0;
          },
        )
        ∷ [];
    order_cache = [];
  };
  log = [];
}

abbrev halted_desk : Desk ℤ
halted_desk = record open_desk { engine = record open_desk.engine { halt_flag = true } }

abbrev inputs : List (Input ℤ)
inputs = signalled (pos 8) (signal_to buy) ∷ commanded ∷ signalled (pos 9) (signal_to sell) ∷ []

abbrev signals : List (Timestamp × SignalEvent ℤ)
signals = (pos 8, signal_to buy) ∷ (pos 9, signal_to buy) ∷ (pos 10, signal_to buy) ∷ []

take_ids-Consecutive_example : Consecutive 1 (take_ids 3 new_generator).0
take_ids-Consecutive_example = take_ids-Consecutive 3 new_generator (omega arith)

-- All three are taken on, though their fills and the position that is there pass the limit.
taken_all : taken open_desk.engine open_desk.positions signals ≡ signals
unfolding exceeds_limit current_quantity position find ◌+ℤ◌ abs_ℤ
taken_all = refl

order_ids-handle_all_example :
    (fresh : List OrderId) × (order_ids (handle_all inputs open_desk).log
      ≡ order_ids open_desk.log ++ fresh)
    × Consecutive open_desk.ids.next fresh
order_ids-handle_all_example = order_ids-handle_all inputs open_desk (omega arith)
