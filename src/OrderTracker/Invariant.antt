-- ===== src/OrderTracker/Invariant.antt =====
-- What holds of the tracker after any sequence of the events that it subscribes to.
use quant_core_engine.Prelude.{
  ◌≡◌, refl, ◌⊎◌, inl, inr, true, false, some, List, [], ◌∷◌, arith, nat_eq, nat_beq_iff,
  Option-cases, Bool-cases, All, All-append,
}
use quant_core_engine.Domain.{OrderId, new, Order}
use quant_core_engine.Events.{OrderEvent, ExecutionReportEvent, Event, order_update, Host, logging}
use quant_core_engine.Table.{find, insert, find-insert}
use quant_core_engine.OrderTracker.{
  OrderTracker, transition_status, is_terminal, propose, advanced, hydrate_order, report_update,
  on_order, on_execution_report,
}
use quant_core_engine.OrderTracker.StateMachine.{Transition, transition_status_iff}
use quant_core_engine.OrderTracker.Reports.{World, tracked, report_refused, report_taken}

-- The two subscriptions of the constructor.
pub data Input (F : Type 0) : Type 0 where
  placed : OrderEvent F → Input F
  reported : ExecutionReportEvent F → Input F

module _ {F : Type 0} where
  module _ {W : Type 0} (h : Host (OrderTracker F) W F) where
    unfoldable pub handle : Input F → W → W
    handle (placed e) w = on_order h e w
    handle (reported e) w = on_execution_report h e w

    unfoldable pub handle_all : List (Input F) → W → W
    handle_all [] w = w
    handle_all (i ∷ is) w = handle_all is (handle i w)

  -- An entry stands under its order's id, and its order is not finished.
  abbrev pub IsLive : OrderId → Order F → Type 0
  IsLive id o = (o.id ≡ id) × (is_terminal o.status ≡ false)

  abbrev pub IsConsistent : OrderTracker F → Type 0
  IsConsistent t = (id : OrderId) (o : Order F) → find id t.active_orders ≡ some o → IsLive id o

  insert-IsLive :
      (t : OrderTracker F) (new_order : Order F)
      → is_terminal new_order.status ≡ false
      → IsConsistent t
      → (id : OrderId) (o : Order F)
      → find id (insert new_order.id new_order t.active_orders) ≡ some o
      → IsLive id o
  insert-IsLive t n a c id o e =
      ground (arith, c id o, find-insert n.id id n t.active_orders, nat_beq_iff n.id id)

  -- Warm-up keeps the table consistent, if the exchange reports open orders only.
  pub hydrate_order-IsConsistent :
      (t : OrderTracker F) (o : Order F)
      → is_terminal o.status ≡ false
      → IsConsistent t
      → IsConsistent (hydrate_order o t)
  unfolding hydrate_order
  hydrate_order-IsConsistent t o a c = insert-IsLive t o a c

  pub on_order-IsConsistent :
      (e : OrderEvent F) (w : World F)
      → is_terminal e.order.status ≡ false
      → IsConsistent w.0
      → IsConsistent (on_order logging e w).0
  unfolding on_order
  on_order-IsConsistent e w a c = insert-IsLive w.0 e.order a c

  -- A report is refused, or it moves the order that it names along an edge.
  report_cases :
      (event : ExecutionReportEvent F) (w : World F)
      → (on_execution_report logging event w ≡ w)
        ⊎ ((o : Order F) × (tracked w event.order_id ≡ some o)
            × (transition_status o.status (propose event.status) ≡ true))
  report_cases event w = elim (Option-cases (tracked w event.order_id)) [
    | inl e ↦ inl (report_refused event w (λ o k. cc))
    | inr (o, e) ↦ elim (Bool-cases (transition_status o.status (propose event.status))) [
      | inl t ↦ inr (o, e, t)
      | inr t ↦ inl (report_refused event w (λ p k. ground arith))
    ]
  ]

  pub report-IsConsistent :
      (event : ExecutionReportEvent F) (w : World F)
      → IsConsistent w.0
      → IsConsistent (on_execution_report logging event w).0
  unfolding advanced
  report-IsConsistent event w c = elim (report_cases event w) [
    | inl e ↦ rw e c
    | inr (o, e, t) ↦ λ id p q. ground (
      arith,
      c id p,
      c event.order_id o,
      report_taken event w o id e t,
      nat_beq_iff event.order_id id,
    )
  ]

  abbrev pub IsFresh : Input F → Type 0
  IsFresh (placed e) = e.order.status ≡ new
  IsFresh (reported e) = Unit

  -- If orders are placed as new, and every tracked order is open and under its own id, then so it
  -- is after any sequence of orders and reports.
  pub handle_all-IsConsistent :
      (is : List (Input F)) (w : World F)
      → All IsFresh is
      → IsConsistent w.0
      → IsConsistent (handle_all logging is w).0
  unfolding handle_all handle is_terminal
  handle_all-IsConsistent [] w f c = c
  handle_all-IsConsistent (placed e ∷ is) w f c =
      handle_all-IsConsistent is _ f.1 (on_order-IsConsistent e w (rw f.0) c)
  handle_all-IsConsistent (reported e ∷ is) w f c =
      handle_all-IsConsistent is _ f.1 (report-IsConsistent e w c)

  -- An update tells of a new order, or of a step that the lifecycle allows.
  abbrev pub IsLawful : Event F → Type 0
  IsLawful (order_update u) =
      ((u.previous_status ≡ new) × (u.order.status ≡ new))
      ⊎ Transition u.previous_status u.order.status
  IsLawful _ = Unit

  report-IsLawful :
      (event : ExecutionReportEvent F) (w : World F)
      → All IsLawful w.1
      → All IsLawful (on_execution_report logging event w).1
  unfolding report_update advanced
  report-IsLawful event w l = elim (report_cases event w) [
    | inl e ↦ rw e l
    | inr (o, e, t) ↦ rw (report_taken event w o event.order_id e t).1 (
        All-append IsLawful w.1 (order_update (report_update event o) ∷ []) l
          (inr ((transition_status_iff _ _).0 t), tt))
  ]

  placed-IsLawful :
      (e : OrderEvent F) (w : World F)
      → e.order.status ≡ new
      → All IsLawful w.1
      → All IsLawful (on_order logging e w).1
  unfolding on_order
  placed-IsLawful e w n l = All-append IsLawful w.1 _ l (inl (refl, n), tt)

  -- If orders are placed as new, then whatever the reports say, the published updates show no step
  -- outside the lifecycle, as long as those published before show none.
  pub handle_all-IsLawful :
      (is : List (Input F)) (w : World F)
      → All IsFresh is
      → All IsLawful w.1
      → All IsLawful (handle_all logging is w).1
  unfolding handle_all handle
  handle_all-IsLawful [] w f l = l
  handle_all-IsLawful (placed e ∷ is) w f l =
      handle_all-IsLawful is _ f.1 (placed-IsLawful e w f.0 l)
  handle_all-IsLawful (reported e ∷ is) w f l = handle_all-IsLawful is _ f.1 (report-IsLawful e w l)
