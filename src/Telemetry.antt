-- ===== src/Telemetry.antt =====
-- The formatters of core/app/src/network/ipc_server.cpp: which events go out, and what they say.
use quant_core_engine.Prelude.{
  String, ◌≡◌, refl, sym, ap, ◌∙◌, ◌==◌, string_eq, if◌then◌else◌, Option, none, some,
}
use quant_core_engine.Domain.{
  Side, buy, sell, OrderStatus, new, pending_new, accepted, partially_filled, filled, canceled,
  rejected, expired,
}
use quant_core_engine.Events.{
  OrderUpdateEvent, PositionUpdateEvent, RiskViolationEvent, Event, order_update, position_update,
  risk_violation,
}
use quant_core_engine.Json.{Json, text, number, integer, object, no_fields, field}

unfoldable pub order_status_to_string : OrderStatus → String
order_status_to_string new = "New"
order_status_to_string pending_new = "PendingNew"
order_status_to_string accepted = "Accepted"
order_status_to_string partially_filled = "PartiallyFilled"
order_status_to_string filled = "Filled"
order_status_to_string canceled = "Canceled"
order_status_to_string rejected = "Rejected"
order_status_to_string expired = "Expired"

unfoldable pub side_to_string : Side → String
side_to_string buy = "Buy"
side_to_string sell = "Sell"

module _ {F : Type 0} where
  unfoldable pub format_order_update : OrderUpdateEvent F → Json F
  unfolding order_status_to_string side_to_string
  format_order_update e = object (
      field "type" (text "order_update") (
        field "order_id" (integer e.order.id) (
          field "symbol" (text e.order.symbol) (
            field "side" (text (side_to_string e.order.side)) (
              field "status" (text (order_status_to_string e.order.status)) (
                field "previous_status" (text (order_status_to_string e.previous_status)) (
                  field "quantity" (number e.order.quantity) (
                    field "price" (number e.order.price)
                      (field "filled_quantity" (number e.order.filled_quantity) no_fields)))))))))

  unfoldable pub format_position_update : PositionUpdateEvent F → Json F
  format_position_update e = object (
      field "type" (text "position_update") (
        field "symbol" (text e.position.symbol) (
          field "net_quantity" (number e.position.net_quantity) (
            field "average_price" (number e.position.average_price)
              (field "realized_pnl" (number e.position.realized_pnl) no_fields)))))

  unfoldable pub format_risk_violation : RiskViolationEvent F → Json F
  format_risk_violation e = object (
      field "type" (text "risk_violation") (
        field "symbol" (text e.symbol) (
          field "reason" (text e.reason) (
            field "current_value" (number e.current_value)
              (field "limit_value" (number e.limit_value) no_fields)))))

  unfoldable pub format_telemetry : Event F → Option (Json F)
  unfolding format_order_update format_position_update format_risk_violation
  format_telemetry (order_update e) = some (format_order_update e)
  format_telemetry (position_update e) = some (format_position_update e)
  format_telemetry (risk_violation e) = some (format_risk_violation e)
  format_telemetry _ = none

-- A reader of the status field.
read_status : String → OrderStatus
read_status s =
    if s == "New"
    then new
    else if s == "PendingNew"
    then pending_new
    else if s == "Accepted"
    then accepted
    else if s == "PartiallyFilled"
    then partially_filled
    else if s == "Filled"
    then filled
    else if s == "Canceled"
    then canceled
    else if s == "Rejected"
    then rejected
    else expired

read_status-order_status_to_string : (a : OrderStatus) → read_status (order_status_to_string a) ≡ a
unfolding read_status order_status_to_string
read_status-order_status_to_string new = refl
read_status-order_status_to_string _ = refl

-- No two statuses read the same to a telemetry client.
pub order_status_to_string-injective :
    (a b : OrderStatus) → order_status_to_string a ≡ order_status_to_string b → a ≡ b
order_status_to_string-injective a b h =
    sym (read_status-order_status_to_string a)
    ∙ ap read_status h
    ∙ read_status-order_status_to_string b
