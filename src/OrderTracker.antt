-- ===== src/OrderTracker.antt =====
-- core/app/src/risk/order_tracker.cpp: the orders that are open, and the state machine of their
-- status. A handler runs in a world `W` through a `Host`; warnings to stderr are left out.
pub mod StateMachine
pub mod Reports
pub mod Invariant
use quant_core_engine.Prelude.{
  ℕ, ◌≡◌, ◌↔◌, Bool, true, false, not, ◌||◌, Option, none, some, List, [], arith, Eq, ◌==◌, nat_beq,
  nat_eq, if◌then◌else◌,
}
use quant_core_engine.Domain.{
  OrderId, OrderStatus, new, pending_new, accepted, partially_filled, filled, canceled, rejected,
  expired, Order,
}
use quant_core_engine.Events.{
  OrderEvent, OrderUpdateEvent, ExecutionStatus, ExecutionReportEvent, Event, order_update, Host,
}
use quant_core_engine.Table.{find, insert, erase}

-- `static_cast<int>(status)`; an enum class compares by it.
abbrev pub ordinal : OrderStatus → ℕ
ordinal new = 0
ordinal pending_new = 1
ordinal accepted = 2
ordinal partially_filled = 3
ordinal filled = 4
ordinal canceled = 5
ordinal rejected = 6
ordinal expired = 7

abbrev pub status_beq : OrderStatus → OrderStatus → Bool
status_beq a b = nat_beq (ordinal a) (ordinal b)

pub status_beq_iff : (a b : OrderStatus) → (status_beq a b ≡ true) ↔ (a ≡ b)
status_beq_iff a b = (λ h. ground arith, λ h. ground arith)

instance abbrev pub status_eq : Eq OrderStatus
status_eq = record { beq = status_beq; beq_iff = status_beq_iff }

unfoldable pub transition_status : OrderStatus → OrderStatus → Bool
transition_status new next = next == pending_new || next == accepted || next == rejected
transition_status pending_new next = next == accepted || next == rejected
transition_status accepted next =
    next == partially_filled || next == filled || next == canceled || next == rejected
transition_status partially_filled next =
    next == partially_filled || next == filled || next == canceled
transition_status filled next = false
transition_status canceled next = false
transition_status rejected next = false
transition_status expired next = false

unfoldable pub is_terminal : OrderStatus → Bool
is_terminal status =
    status == filled || status == canceled || status == rejected || status == expired

pub record OrderTracker (F : Type 0) : Type 0 where
  pub order_sub_id : ℕ
  pub exec_sub_id : ℕ
  pub active_orders : List (OrderId × Order F)

-- The `switch` on the wire-level status; its `default` is for values outside the enum.
unfoldable pub propose : ExecutionStatus → OrderStatus
propose ExecutionStatus.accepted = accepted
propose ExecutionStatus.filled = filled
propose ExecutionStatus.rejected = rejected

module _ {F : Type 0} where
  unfoldable pub hydrate_order : Order F → OrderTracker F → OrderTracker F
  hydrate_order order t = record t { active_orders = insert order.id order t.active_orders }

  -- The order as the report leaves it.
  unfoldable pub advanced : ExecutionReportEvent F → OrderStatus → Order F → Order F
  advanced event proposed order = record order {
    status = proposed;
    filled_quantity = if proposed == filled then event.filled_quantity else order.filled_quantity;
  }

  unfoldable pub opening_update : OrderEvent F → OrderUpdateEvent F
  opening_update event = record {
    order = event.order;
    previous_status = new;
    timestamp = event.timestamp;
    sequence_id = event.sequence_id;
  }

  unfoldable pub report_update : ExecutionReportEvent F → Order F → OrderUpdateEvent F
  unfolding advanced propose
  report_update event order = record {
    order = advanced event (propose event.status) order;
    previous_status = order.status;
    timestamp = event.timestamp;
    sequence_id = event.sequence_id;
  }

  module _ {W : Type 0} (h : Host (OrderTracker F) W F) where
    set_orders : List (OrderId × Order F) → W → W
    set_orders orders w = h.put (record (h.get w) { active_orders = orders }) w

    unfoldable pub on_order : OrderEvent F → W → W
    unfolding set_orders opening_update
    on_order event w =
        let order = event.order in
        let stored = set_orders (insert order.id order (h.get w).active_orders) w in
        h.publish (order_update (opening_update event)) stored

    -- A terminal order leaves the table, after its update has gone out.
    settle : OrderStatus → OrderId → W → W
    unfolding set_orders is_terminal
    settle proposed id w =
        if is_terminal proposed then set_orders (erase id (h.get w).active_orders) w else w

    -- `order` is the entry that `it` points to; it is changed in place.
    report_known : ExecutionReportEvent F → Order F → W → W
    unfolding set_orders settle transition_status propose advanced report_update
    report_known event order w =
        let proposed = propose event.status in
        if not (transition_status order.status proposed)
        then w
        else let changed = advanced event proposed order in
          let stored = set_orders (insert event.order_id changed (h.get w).active_orders) w in
          settle proposed event.order_id
            (h.publish (order_update (report_update event order)) stored)

    unfoldable pub on_execution_report : ExecutionReportEvent F → W → W
    unfolding report_known
    on_execution_report event w = elim (find event.order_id (h.get w).active_orders) [
      | none ↦ w
      | some order ↦ report_known event order w
    ]
