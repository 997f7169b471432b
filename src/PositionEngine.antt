-- ===== src/PositionEngine.antt =====
-- core/app/src/risk/position_engine.cpp: one position per symbol, and the orders whose fill is
-- still to come. The lock around the positions is left out: all handlers run on one thread.
pub mod ApplyFill
pub mod Accounting
pub mod History
pub mod Fills
pub mod Invariant
pub mod Ledger
use quant_core_engine.Prelude.{
  ℕ, String, Bool, true, false, not, Option, none, some, List, [], ◌==◌, string_eq, nat_eq, get_or,
  if◌then◌else◌,
}
use quant_core_engine.Double.{Double, neg, ◌<?◌}
use quant_core_engine.Domain.{OrderId, Side, buy, sell, Position, RiskLimits, new_position}
use quant_core_engine.Events.{
  OrderEvent, ExecutionStatus, ExecutionReportEvent, PositionUpdateEvent, RiskViolationEvent,
  position_update, risk_violation, Host,
}
use quant_core_engine.Table.{find, insert, erase, values}
use ApplyFill.{apply_fill}

pub record OrderInfo : Type 0 where
  pub symbol : String
  pub side : Side

pub record PositionEngine (F : Type 0) : Type 0 where
  pub order_sub_id : ℕ
  pub fill_sub_id : ℕ
  pub limits : RiskLimits F
  pub positions : List (String × Position F)
  pub order_cache : List (OrderId × OrderInfo)

unfoldable pub is_filled : ExecutionStatus → Bool
is_filled ExecutionStatus.filled = true
is_filled _ = false

module _ {F : Type 0} where
  unfoldable pub hydrate_position : Position F → PositionEngine F → PositionEngine F
  hydrate_position pos s = record s { positions = insert pos.symbol pos s.positions }

  -- `nullptr` is `none`.
  unfoldable pub position : PositionEngine F → String → Option (Position F)
  position s symbol = find symbol s.positions

  unfoldable pub get_snapshots : PositionEngine F → List (Position F)
  get_snapshots s = values s.positions

  unfoldable pub order_info : OrderEvent F → OrderInfo
  order_info event = record { symbol = event.order.symbol; side = event.order.side }

  unfoldable pub update_of : ExecutionReportEvent F → Position F → PositionUpdateEvent F
  update_of event pos = record {
    position = pos;
    timestamp = event.timestamp;
    sequence_id = event.sequence_id;
  }

  unfoldable pub violation_of :
      ExecutionReportEvent F → OrderInfo → RiskLimits F → Position F → RiskViolationEvent F
  violation_of event info limits pos = record {
    symbol = info.symbol;
    reason = "Max Drawdown Exceeded";
    current_value = pos.realized_pnl;
    limit_value = limits.max_drawdown;
    timestamp = event.timestamp;
    sequence_id = event.sequence_id;
  }

  module _ {W : Type 0} (h : Host (PositionEngine F) W F) where
    unfoldable pub on_order : OrderEvent F → W → W
    unfolding order_info
    on_order event w =
        let s = h.get w in
        h.put (record s { order_cache = insert event.order.id (order_info event) s.order_cache }) w

module _ {F : Type 0} ⦃d : Double F⦄ where
  unfoldable pub signed_quantity : Side → F → F
  signed_quantity buy filled_quantity = filled_quantity
  signed_quantity sell filled_quantity = neg filled_quantity

  -- `positions_[symbol]`, named if it was not there.
  unfoldable pub position_for : String → PositionEngine F → Position F
  position_for symbol s =
      let found = get_or new_position (find symbol s.positions) in
      if found.symbol == "" then record found { symbol = symbol } else found

  -- The position that a fill leaves.
  unfoldable pub filled_position :
      ExecutionReportEvent F → OrderInfo → PositionEngine F → Position F
  unfolding position_for signed_quantity
  filled_position event info s =
      apply_fill (position_for info.symbol s) (signed_quantity info.side event.filled_quantity)
        event.fill_price

  module _ {W : Type 0} (h : Host (PositionEngine F) W F) where
    -- `info` is the entry that `it` points to.
    pub fill_known : ExecutionReportEvent F → OrderInfo → W → W
    unfolding filled_position update_of violation_of
    fill_known event info w =
        let s = h.get w in
        let pos = filled_position event info s in
        let stored = h.put (record s { positions = insert info.symbol pos s.positions }) w in
        let drawdown_breached = pos.realized_pnl <? s.limits.max_drawdown in
        let updated = h.publish (position_update (update_of event pos)) stored in
        let warned =
          if drawdown_breached
          then h.publish (risk_violation (violation_of event info s.limits pos)) updated
          else updated in
        let left = h.get warned in
        h.put (record left { order_cache = erase event.order_id left.order_cache }) warned

    unfoldable pub on_fill : ExecutionReportEvent F → W → W
    unfolding fill_known is_filled
    on_fill event w =
        if not (is_filled event.status)
        then w
        else elim (find event.order_id (h.get w).order_cache) [
          | none ↦ w
          | some info ↦ fill_known event info w
        ]
