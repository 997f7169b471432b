-- ===== src/PositionEngine/ApplyFill.antt =====
-- `PositionEngine::applyFill`: how one fill moves a position, its average price and its profit.
use quant_core_engine.Prelude.{Bool, ◌&&◌, ◌||◌, if◌then◌else◌}
use quant_core_engine.Double.{Double, lit, ◌+◌, ◌-◌, ◌*◌, ◌/◌, neg, abs, ◌<?◌, ◌≤?◌, ◌==◌}
use quant_core_engine.Domain.{Position}

module _ {F : Type 0} ⦃d : Double F⦄ where
  unfoldable pub same_direction : F → F → Bool
  same_direction current_qty signed_fill_qty =
      ((lit 0 <? current_qty) && (lit 0 <? signed_fill_qty))
      || ((current_qty <? lit 0) && (signed_fill_qty <? lit 0))

  -- 1.0 if the quantity is positive, and -1.0 otherwise.
  unfoldable pub direction_sign : F → F
  direction_sign qty = if lit 0 <? qty then lit 1 else neg (lit 1)

  -- Case 1: the position grows.
  unfoldable pub increase : Position F → F → F → Position F
  increase pos signed_fill_qty fill_price =
      let current_qty = pos.net_quantity in
      let new_total = current_qty + signed_fill_qty in
      record pos {
        average_price =
            (current_qty * pos.average_price + signed_fill_qty * fill_price) / new_total;
        net_quantity = new_total;
      }

  -- Case 2: the position shrinks, to zero at most.
  unfoldable pub decrease : Position F → F → F → Position F
  unfolding direction_sign
  decrease pos signed_fill_qty fill_price =
      let current_qty = pos.net_quantity in
      let closed_qty = abs signed_fill_qty in
      record pos {
        realized_pnl =
            pos.realized_pnl
            + closed_qty * (fill_price - pos.average_price) * direction_sign current_qty;
        net_quantity = current_qty + signed_fill_qty;
      }

  -- Case 3: the position is closed and opened again on the other side.
  unfoldable pub reverse_through_zero : Position F → F → F → Position F
  unfolding direction_sign
  reverse_through_zero pos signed_fill_qty fill_price =
      let current_qty = pos.net_quantity in
      let close_qty = abs current_qty in
      let open_qty = abs signed_fill_qty - abs current_qty in
      record pos {
        realized_pnl =
            pos.realized_pnl
            + close_qty * (fill_price - pos.average_price) * direction_sign current_qty;
        net_quantity = direction_sign signed_fill_qty * open_qty;
        average_price = fill_price;
      }

  unfoldable pub apply_fill : Position F → F → F → Position F
  unfolding same_direction increase decrease reverse_through_zero
  apply_fill pos signed_fill_qty fill_price =
      let current_qty = pos.net_quantity in
      if current_qty == lit 0
      then record pos { net_quantity = signed_fill_qty; average_price = fill_price }
      else if same_direction current_qty signed_fill_qty
      then increase pos signed_fill_qty fill_price
      else if abs signed_fill_qty ≤? abs current_qty
      then decrease pos signed_fill_qty fill_price
      else reverse_through_zero pos signed_fill_qty fill_price
