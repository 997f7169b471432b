-- ===== src/RiskEngine.antt =====
-- core/app/src/risk/risk_engine.cpp: pre-trade checks, the kill switch, and the orders that pass.
-- The reads of the wall clock are an argument `now`.
pub mod Desk
pub mod KillSwitch
pub mod Limits
pub mod Bounds
pub mod Orders
use quant_core_engine.Prelude.{ℕ, Bool, true, false, Option, none, some, if◌then◌else◌}
use quant_core_engine.Double.{Double, lit, ◌+◌, abs, ◌<?◌}
use quant_core_engine.Domain.{OrderId, OrderStatus, Order, Position, RiskLimits, new}
use quant_core_engine.Events.{
  Timestamp, SignalEvent, OrderEvent, RiskViolationEvent, Event, order_event, Host,
}
use quant_core_engine.PositionEngine.{PositionEngine, position}

pub record RiskEngine (F : Type 0) : Type 0 where
  pub limits : RiskLimits F
  pub halt_flag : Bool
  pub signal_sub_id : ℕ
  pub violation_sub_id : ℕ

-- Beside its own state and its bus the engine has references to the id generator and, for reading,
-- to the position engine.
pub record RiskHost (W F : Type 0) : Type 0 where
  pub host : Host (RiskEngine F) W F
  pub open host use *
  pub draw_id : W → OrderId × W
  pub positions : W → PositionEngine F

module _ {F : Type 0} ⦃d : Double F⦄ where
  unfoldable pub current_quantity : Option (Position F) → F
  current_quantity none = lit 0
  current_quantity (some pos) = abs pos.net_quantity

  -- Whether one unit more would pass the limit of the symbol.
  unfoldable pub exceeds_limit : RiskLimits F → PositionEngine F → SignalEvent F → Bool
  unfolding current_quantity
  exceeds_limit limits positions event =
      let current_qty = current_quantity (position positions event.symbol) in
      let proposed_qty = current_qty + lit 1 in limits.max_position_per_symbol <? proposed_qty

  -- `SignalEvent::Side` and `domain::Side` are one type here.
  unfoldable pub order_of : OrderId → SignalEvent F → Order F
  order_of id event = record {
    id = id;
    strategy_id = event.strategy_id;
    symbol = event.symbol;
    side = event.side;
    quantity = lit 1;
    price = event.price;
    status = new;
    filled_quantity = lit 0;
  }

  unfoldable pub order_event_of : Timestamp → OrderId → SignalEvent F → OrderEvent F
  unfolding order_of
  order_event_of now id event = record {
    order = order_of id event;
    timestamp = now;
    sequence_id = event.sequence_id;
  }

  module _ {W : Type 0} (h : RiskHost W F) where
    unfoldable pub on_signal : Timestamp → SignalEvent F → W → W
    on_signal now event w =
        if (h.get w).halt_flag
        then w
        else if exceeds_limit (h.get w).limits (h.positions w) event
        then w
        else let (id, drawn) = h.draw_id w in
          h.publish (order_event (order_event_of now id event)) drawn

module _ {F W : Type 0} (h : RiskHost W F) where
  unfoldable pub halt_trading : W → W
  halt_trading w = h.put (record (h.get w) { halt_flag = true }) w

  unfoldable pub on_risk_violation : RiskViolationEvent F → W → W
  on_risk_violation event w = h.put (record (h.get w) { halt_flag = true }) w

  unfoldable pub is_halted : W → Bool
  is_halted w = (h.get w).halt_flag
