-- ===== src/Main.antt =====
-- main.cpp: the lines that main writes about the events of the engine, and how it waits for SIGINT.
pub mod Shutdown
pub mod Program
use quant_core_engine.Prelude.{
  ℕ, String, ◌≡◌, refl, sym, ap, ◌∙◌, ◌==◌, string_eq, if◌then◌else◌, Option, none, some, List, [],
  ◌∷◌, true, false,
}
use quant_core_engine.Prelude.Int.{ℤ}
use quant_core_engine.Domain.{
  OrderId, Side, buy, sell, OrderStatus, new, pending_new, accepted, partially_filled, filled,
  canceled, rejected, expired,
}
use quant_core_engine.Events.{
  MarketDataEvent, SignalEvent, ExecutionStatus, ExecutionReportEvent, PositionUpdateEvent,
  OrderUpdateEvent, Event, market_data, signal, execution_report, position_update, order_update,
}
use mathlib.Core.Option.{some-injective}
use quant_core_engine.Telemetry.{order_status_to_string, order_status_to_string-injective}
use quant_core_engine.TimeProvider.{SimulationTimeProvider, now_ms}

-- What is written with `<<`: a text, a double, a 64-bit integer or an id.
pub data Piece (F : Type 0) : Type 0 where
  text : String → Piece F
  number : F → Piece F
  integer : ℤ → Piece F
  id : OrderId → Piece F

-- The buses on which main subscribes.
pub data LoggedBus : Type 0 where
  strategy_bus risk_execution_bus : LoggedBus

-- `status_str` of the execution reports.
unfoldable pub execution_status_str : ExecutionStatus → String
execution_status_str ExecutionStatus.accepted = "Accepted"
execution_status_str ExecutionStatus.filled = "Filled"
execution_status_str ExecutionStatus.rejected = "Rejected"

-- `status_str` of the order updates.
unfoldable pub order_status_str : OrderStatus → String
order_status_str new = "New"
order_status_str pending_new = "PendingNew"
order_status_str accepted = "Accepted"
order_status_str partially_filled = "PartiallyFilled"
order_status_str filled = "Filled"
order_status_str canceled = "Canceled"
order_status_str rejected = "Rejected"
order_status_str expired = "Expired"

unfoldable pub side_str : Side → String
side_str buy = "Buy"
side_str sell = "Sell"

order_status_str-order_status_to_string :
    (s : OrderStatus) → order_status_str s ≡ order_status_to_string s
unfolding order_status_str order_status_to_string
order_status_str-order_status_to_string new = refl
order_status_str-order_status_to_string _ = refl

order_status_str-injective : (a b : OrderStatus) → order_status_str a ≡ order_status_str b → a ≡ b
order_status_str-injective a b h = order_status_to_string-injective a b (
    sym (order_status_str-order_status_to_string a) ∙ h ∙ order_status_str-order_status_to_string b)

module _ {F : Type 0} where
  unfoldable pub log_market_data : SimulationTimeProvider → MarketDataEvent F → List (Piece F)
  log_market_data sim_clock e =
      text "[Strategy] MarketDataEvent: symbol="
      ∷ text e.symbol
      ∷ text " price="
      ∷ number e.price
      ∷ text " volume="
      ∷ number e.quantity
      ∷ text " sim_clock="
      ∷ integer (now_ms sim_clock)
      ∷ text "\n"
      ∷ []

  unfoldable pub log_signal : SignalEvent F → List (Piece F)
  unfolding side_str
  log_signal e =
      text "[Risk] SignalEvent: strategy="
      ∷ text e.strategy_id
      ∷ text " symbol="
      ∷ text e.symbol
      ∷ text " side="
      ∷ text (side_str e.side)
      ∷ text " strength="
      ∷ number e.strength
      ∷ text "\n"
      ∷ []

  unfoldable pub log_execution_report : ExecutionReportEvent F → List (Piece F)
  unfolding execution_status_str
  log_execution_report e =
      text "[ExecutionReport] order_id="
      ∷ id e.order_id
      ∷ text " status="
      ∷ text (execution_status_str e.status)
      ∷ text " qty="
      ∷ number e.filled_quantity
      ∷ text " price="
      ∷ number e.fill_price
      ∷ text "\n"
      ∷ []

  unfoldable pub log_position_update : PositionUpdateEvent F → List (Piece F)
  log_position_update e =
      text "[PositionUpdate] symbol="
      ∷ text e.position.symbol
      ∷ text " net_qty="
      ∷ number e.position.net_quantity
      ∷ text " avg_price="
      ∷ number e.position.average_price
      ∷ text " realized_pnl="
      ∷ number e.position.realized_pnl
      ∷ text "\n"
      ∷ []

  unfoldable pub log_order_update : OrderUpdateEvent F → List (Piece F)
  unfolding order_status_str
  log_order_update e =
      text "[OrderUpdate] order_id="
      ∷ id e.order.id
      ∷ text " symbol="
      ∷ text e.order.symbol
      ∷ text " "
      ∷ text (order_status_str e.previous_status)
      ∷ text " -> "
      ∷ text (order_status_str e.order.status)
      ∷ text "\n"
      ∷ []

  -- What main's callbacks write for an event on a bus.
  unfoldable pub log_event : SimulationTimeProvider → LoggedBus → Event F → List (Piece F)
  unfolding log_market_data log_signal log_execution_report log_position_update log_order_update
  log_event sim_clock strategy_bus (market_data e) = log_market_data sim_clock e
  log_event sim_clock risk_execution_bus (signal e) = log_signal e
  log_event sim_clock risk_execution_bus (execution_report e) = log_execution_report e
  log_event sim_clock risk_execution_bus (position_update e) = log_position_update e
  log_event sim_clock risk_execution_bus (order_update e) = log_order_update e
  log_event sim_clock _ _ = []

  -- What a reader makes of a line on an order update.
  abbrev pieces : List (Piece F) → Option (OrderId × String × String × String)
  pieces (_ ∷ id order_id ∷ _ ∷ text symbol ∷ _ ∷ text previous ∷ _ ∷ text next ∷ _) =
      some (order_id, symbol, previous, next)
  pieces _ = none

  -- Two order updates of which main writes the same line are of the same order id, the same symbol and
  -- the same two statuses.
  pub log_order_update-injective :
      (e e' : OrderUpdateEvent F)
      → log_order_update e ≡ log_order_update e'
      → (e.order.id ≡ e'.order.id)
        × (e.order.symbol ≡ e'.order.symbol)
        × (e.previous_status ≡ e'.previous_status)
        × (e.order.status ≡ e'.order.status)
  unfolding log_order_update
  log_order_update-injective e e' h =
      let same = some-injective _ _ (ap pieces h) in
      (
        ap (λ t. t.0) same,
        ap (λ t. t.1) same,
        order_status_str-injective _ _ (ap (λ t. t.2) same),
        order_status_str-injective _ _ (ap (λ t. t.3) same),
      )
