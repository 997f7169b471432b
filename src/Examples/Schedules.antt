-- ===== src/Examples/Schedules.antt =====
-- The engine under schedules of everything that reaches it.
use quant_core_engine.Prelude.{◌≡◌, refl, true, some, List, [], ◌∷◌, ◌++◌, All}
use quant_core_engine.Prelude.Int.{ℤ, pos, negsuc}
use quant_core_engine.Double.Whole.{whole}
use quant_core_engine.Domain.{buy, sell}
use quant_core_engine.Events.{Event, signal, order_event, ExecutionStatus, execution_report}
use quant_core_engine.OrderTracker.Invariant.{IsLawful}
use quant_core_engine.TradingEngine.World.{TradingEngine, publish, depth, strategy, risk, routing}
use quant_core_engine.TradingEngine.Wiring.{new_engine, start}
use quant_core_engine.TradingEngine.Stages.{wired}
use quant_core_engine.TradingEngine.Schedule.{
  Input, turned, received, pushed, commanded, handle_all,
}
use quant_core_engine.TradingEngine.Halt.{IsHaltedAt, handle_all-IsHaltedAt}
use quant_core_engine.TradingEngine.Drawdown.{booked_by, warnings, handle_all-breached}
use quant_core_engine.PositionEngine.{OrderInfo, is_filled, filled_position}
use quant_core_engine.PositionEngine.ApplyFill.{apply_fill}
use quant_core_engine.TradingEngine.Reconciler.{IsReady, mock_reconciler}
use quant_core_engine.TradingEngine.InOrder.{handle_all-IsReady}
use quant_core_engine.Events.{Timestamp, SignalEvent, ExecutionReportEvent}
use quant_core_engine.Prelude.{false, string_eq, nat_eq}
use quant_core_engine.Prelude.Int.{abs_ℤ, ◌+ℤ◌, ◌-ℤ◌, ◌*ℤ◌, neg_ℤ}
use quant_core_engine.Double.Whole.{whole-IsExact}
use quant_core_engine.Double.Ordered.{whole-IsOrdered}
use quant_core_engine.Table.{find}
use quant_core_engine.OrderIdGenerator.{new_generator}
use quant_core_engine.OrderTracker.{transition_status, propose}
use quant_core_engine.RiskEngine.Desk.{Desk}
use quant_core_engine.RiskEngine.Bounds.{IsWithin, trade_all, trade_all-IsWithin}
use quant_core_engine.TradingEngine.Process.{
  Act, turns, stops, reset_ipc_server, destroy_risk_engine, stop_risk_loop, at_work, act_all,
}
use quant_core_engine.TradingEngine.Stopping.{act_all-stopping}
use quant_core_engine.Examples.{placed_order, order_to, report_of, signal_to}
use quant_core_engine.Examples.Machines.{reader}

-- A signal waits on the risk loop's queue.
abbrev pub waiting : TradingEngine ℤ
waiting = record (new_engine {F = ℤ}) {
  risk_queue = record { items = signal (signal_to buy) ∷ [] };
}

abbrev inputs : List (Input ℤ)
inputs =
    turned risk (pos 9)
    ∷ received "tick"
    ∷ turned strategy (pos 10)
    ∷ commanded "STATUS"
    ∷ turned risk (pos 11)
    ∷ []

-- Ten units are held at 100, and the order that sells them is filled at 40.
abbrev losing : TradingEngine ℤ
losing = record waiting {
  position_engine = record waiting.position_engine {
    positions =
        (
          "AAPL",
          record {
            symbol = "AAPL";
            net_quantity = pos 10;
            average_price = pos 100;
            realized_pnl = pos 0;
          },
        )
        ∷ [];
    order_cache = (7, record { symbol = "AAPL"; side = sell }) ∷ [];
  };
}

abbrev sold : ExecutionReportEvent ℤ
sold = report_of 7 ExecutionStatus.filled (pos 10) (pos 40)

abbrev sale : OrderInfo
sale = record { symbol = "AAPL"; side = sell }

handle_all-breached_example :
    let after = publish 1000 (pos 8) depth risk (execution_report sold) (wired losing) in
    let end = handle_all 1000 reader inputs after in
    (after.position_engine ≡ booked_by sold sale losing.position_engine)
    × ((before : List (Event ℤ)) × (after.telemetry_queue.items
          ≡ before ++ warnings sold sale losing.position_engine))
    × (end.risk_engine.halt_flag ≡ true)
    × (end.order_id_gen ≡ losing.order_id_gen)
unfolding new_engine find is_filled filled_position apply_fill ◌+ℤ◌ ◌-ℤ◌ ◌*ℤ◌ neg_ℤ abs_ℤ
handle_all-breached_example =
    handle_all-breached 1000 (pos 8) sold reader sale inputs losing refl refl refl

abbrev halted : TradingEngine ℤ
halted = record (wired waiting) { risk_engine = record waiting.risk_engine { halt_flag = true } }

handle_all-IsHaltedAt_example :
    IsHaltedAt waiting.order_id_gen (handle_all 1000 reader inputs halted)
handle_all-IsHaltedAt_example =
    handle_all-IsHaltedAt 1000 waiting.order_id_gen reader inputs halted (refl, refl)

-- An order and a report of it come in with a tick, and the loops take their turns.
abbrev trading : List (Input ℤ)
trading =
    received "tick"
    ∷ turned strategy (pos 9)
    ∷ pushed (order_event (placed_order 7 buy))
    ∷ pushed (execution_report (report_of 7 ExecutionStatus.accepted (pos 0) (pos 0)))
    ∷ turned risk (pos 10)
    ∷ turned routing (pos 11)
    ∷ turned risk (pos 12)
    ∷ []

handle_all-IsReady_example :
    let end = handle_all 1000 reader trading (start true (some mock_reconciler) new_engine) in
    IsReady end × All IsLawful end.telemetry_queue.items
unfolding mock_reconciler
handle_all-IsReady_example =
    handle_all-IsReady 1000 reader true mock_reconciler trading tt
      (tt, (tt, (refl, (tt, (tt, (tt, (tt, tt)))))))

-- An order is tracked, and its acceptance waits on the risk loop when the stop begins.
abbrev tracking : TradingEngine ℤ
tracking = record (new_engine {F = ℤ}) {
  order_tracker = record {
    order_sub_id = 0;
    exec_sub_id = 1;
    active_orders = (7, order_to 7 buy) ∷ [];
  };
}

abbrev acceptance : ExecutionReportEvent ℤ
acceptance = report_of 7 ExecutionStatus.accepted (pos 0) (pos 0)

act_all-stopping_example :
    (act_all 1000 (stops reset_ipc_server ∷ turns risk (pos 9) ∷ stops destroy_risk_engine ∷ []) (
      at_work (
        wired (record tracking {
          risk_queue = record { items = execution_report acceptance ∷ [] };
        })))).faulted
    ≡ true
unfolding find transition_status propose
act_all-stopping_example =
    act_all-stopping 1000 (pos 9) acceptance (order_to 7 buy) [] tracking
      (stops destroy_risk_engine ∷ []) refl refl

-- A stop with turns in between.
abbrev pub stop_acts : List Act
stop_acts =
    stops reset_ipc_server
    ∷ turns risk (pos 9)
    ∷ stops destroy_risk_engine
    ∷ turns strategy (pos 10)
    ∷ stops stop_risk_loop
    ∷ []

-- Two units are held of the three that the limit allows, and three more signals come.
abbrev buys : List (Timestamp × SignalEvent ℤ)
buys = (pos 8, signal_to buy) ∷ (pos 9, signal_to buy) ∷ (pos 10, signal_to buy) ∷ []

abbrev fresh_desk : Desk ℤ
fresh_desk = record {
  engine = record {
    limits = record { max_position_per_symbol = pos 2; max_drawdown = negsuc 499 };
    halt_flag = false;
    signal_sub_id = 5;
    violation_sub_id = 6;
  };
  ids = new_generator;
  positions = tracking.position_engine;
  log = [];
}

trade_all-IsWithin_example : IsWithin (pos 2) (trade_all buys fresh_desk).positions
unfolding new_engine find abs_ℤ
trade_all-IsWithin_example =
    trade_all-IsWithin whole-IsExact whole-IsOrdered buys fresh_desk (λ symbol. refl)
