-- ===== src/OrderTracker/Reports.antt =====
-- What an execution report does to the tracked orders, on every branch of `onExecutionReport`.
use quant_core_engine.Prelude.{
  ◌≡◌, refl, sym, ap, ◌∙◌, inl, inr, true, false, Option, none, some, [], ◌∷◌, ◌++◌, append_assoc,
  arith, ◌==◌, nat_eq, if◌then◌else◌, Option-cases, Bool-cases,
}
use quant_core_engine.Domain.{OrderId, new, accepted, Order}
use quant_core_engine.Events.{
  OrderEvent, ExecutionStatus, ExecutionReportEvent, order_update, Logged, logging,
}
use quant_core_engine.Table.{find, insert, find-insert, find-insert_self, find-erase}
use quant_core_engine.OrderTracker.{
  OrderTracker, transition_status, is_terminal, propose, advanced, opening_update, report_update,
  on_order, on_execution_report,
}

abbrev pub World : Type 0 → Type 0
World F = Logged (OrderTracker F) F

module _ {F : Type 0} where
  abbrev pub tracked : World F → OrderId → Option (Order F)
  tracked w id = find id w.0.active_orders

  -- A report for an unknown order, or one that the state machine forbids, changes nothing.
  pub report_refused :
      (event : ExecutionReportEvent F) (w : World F)
      → ((o : Order F)
          → tracked w event.order_id ≡ some o
          → transition_status o.status (propose event.status) ≡ false)
      → on_execution_report logging event w ≡ w
  unfolding on_execution_report
  report_refused event w h = elim (Option-cases (tracked w event.order_id)) [
    | inl e ↦ rw (e, on_execution_report) refl
    | inr (o, e) ↦ rw (e, on_execution_report) (rw (h o e) refl)
  ]

  -- A report that the state machine allows for a tracked order changes that order alone, takes it out
  -- if its new status is terminal, and publishes one update.
  pub report_taken :
      (event : ExecutionReportEvent F) (w : World F) (o : Order F) (id : OrderId)
      → tracked w event.order_id ≡ some o
      → transition_status o.status (propose event.status) ≡ true
      → let after = on_execution_report logging event w in
        (tracked after id ≡ (
          if event.order_id == id
          then (if is_terminal (propose event.status)
              then none
              else some (advanced event (propose event.status) o))
          else tracked w id))
        × (after.1 ≡ w.1 ++ order_update (report_update event o) ∷ [])
  unfolding on_execution_report
  report_taken event w o id e t =
      let changed = advanced event (propose event.status) o in
      (
        elim (Bool-cases (is_terminal (propose event.status))) [
          | inl done ↦
              rw (e, on_execution_report)
                (rw (t, done)
                  (ground (
                    arith,
                    find-erase event.order_id id (insert event.order_id changed w.0.active_orders),
                    find-insert event.order_id id changed w.0.active_orders,
                  )))
          | inr still ↦
              rw (e, on_execution_report)
                (rw (t, still) (find-insert event.order_id id changed w.0.active_orders))
        ],
        rw (e, on_execution_report) (rw t (ground arith)),
      )

  tracked-on_order :
      (placed : OrderEvent F) (w : World F)
      → tracked (on_order logging placed w) placed.order.id ≡ some placed.order
  unfolding on_order
  tracked-on_order placed w = find-insert_self placed.order.id placed.order w.0.active_orders

  log-on_order :
      (placed : OrderEvent F) (w : World F)
      → (on_order logging placed w).1 ≡ w.1 ++ order_update (opening_update placed) ∷ []
  unfolding on_order
  log-on_order placed w = refl

  accept_new :
      (ack : ExecutionReportEvent F) (w : World F) (o : Order F)
      → tracked w ack.order_id ≡ some o
      → o.status ≡ new
      → ack.status ≡ ExecutionStatus.accepted
      → let after = on_execution_report logging ack w in
        (tracked after ack.order_id ≡ some (advanced ack accepted o))
        × (after.1 ≡ w.1 ++ order_update (report_update ack o) ∷ [])
  unfolding transition_status propose is_terminal
  accept_new ack w o e n a = ground (arith, report_taken ack w o ack.order_id e)

  fill_accepted :
      (fill : ExecutionReportEvent F) (w : World F) (o : Order F)
      → tracked w fill.order_id ≡ some o
      → o.status ≡ accepted
      → fill.status ≡ ExecutionStatus.filled
      → let after = on_execution_report logging fill w in
        (tracked after fill.order_id ≡ none)
        × (after.1 ≡ w.1 ++ order_update (report_update fill o) ∷ [])
  unfolding transition_status propose is_terminal
  fill_accepted fill w o e n a = ground (arith, report_taken fill w o fill.order_id e)

  -- An order placed as new, acknowledged and then filled is no longer tracked, and three updates have
  -- gone out: its opening, its acceptance and its fill.
  pub report_lifecycle :
      (placed : OrderEvent F) (ack fill : ExecutionReportEvent F) (w : World F)
      → placed.order.status ≡ new
      → ack.status ≡ ExecutionStatus.accepted
      → fill.status ≡ ExecutionStatus.filled
      → ack.order_id ≡ placed.order.id
      → fill.order_id ≡ placed.order.id
      → let opened = on_order logging placed w in
        let acked = on_execution_report logging ack opened in
        let after = on_execution_report logging fill acked in
        (tracked after placed.order.id ≡ none)
        × (after.1
            ≡ w.1
              ++ order_update (opening_update placed)
                ∷ order_update (report_update ack placed.order)
                ∷ order_update (report_update fill (advanced ack accepted placed.order))
                ∷ [])
  unfolding advanced
  report_lifecycle placed ack fill w s a f i j =
      let opened = on_order logging placed w in
      let t0 = ap (tracked opened) i ∙ tracked-on_order placed w in
      let r1 = accept_new ack opened placed.order t0 s a in
      let acked = on_execution_report logging ack opened in
      let r2 =
        fill_accepted fill acked (advanced ack accepted placed.order)
          (ap (tracked acked) (j ∙ sym i) ∙ r1.0) refl f in
      let after = on_execution_report logging fill acked in
      (
        ap (tracked after) (sym j) ∙ r2.0,
        r2.1 ∙ simp (r1.1, log-on_order placed w, append_assoc) refl,
      )

  -- A fill for an order placed as new and not yet acknowledged changes nothing and publishes nothing.
  pub unacknowledged_fill :
      (placed : OrderEvent F) (fill : ExecutionReportEvent F) (w : World F)
      → placed.order.status ≡ new
      → fill.status ≡ ExecutionStatus.filled
      → fill.order_id ≡ placed.order.id
      → let opened = on_order logging placed w in on_execution_report logging fill opened ≡ opened
  unfolding transition_status propose
  unacknowledged_fill placed fill w s f i =
      report_refused fill (on_order logging placed w)
        (λ o e. ground (arith, tracked-on_order placed w))
