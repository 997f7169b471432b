-- ===== src/TradingEngine/Sound.antt =====
-- The order lifecycle and the books in the whole engine, over every schedule of what reaches it.
use quant_core_engine.Prelude.{
  ◌≡◌, refl, sym, ap, List, [], ◌∷◌, append-nil, All, All-append, inl, inr, nat_eq, string_eq,
  Bool-cases, Option-cases,
}
use quant_core_engine.Domain.{OrderId, new}
use quant_core_engine.Events.{
  OrderEvent, OrderUpdateEvent, ExecutionReportEvent, Event, order_event, order_update, logging,
}
use quant_core_engine.Table.{find, insert, erase}
use quant_core_engine.OrderTracker.{
  transition_status, is_terminal, propose, opening_update, report_update, advanced, on_order,
  on_execution_report,
}
use quant_core_engine.OrderTracker.StateMachine.{transition_status_iff}
use quant_core_engine.OrderTracker.Invariant.{IsLawful, on_order-IsConsistent, report-IsConsistent}
use quant_core_engine.TradingEngine.World.{TradingEngine, tracker_host}
use quant_core_engine.TradingEngine.Updates.{IsTold, with_telemetry}
use mathlib.Core.Path.{subst}
use quant_core_engine.TradingEngine.Reconciler.{IsReady}

module _ {F : Type 0} where
  -- An order goes round as new, and an update tells of a step of the lifecycle.
  abbrev pub IsSound : Event F → Type 0
  IsSound (order_event e) = e.order.status ≡ new
  IsSound (order_update u) = IsLawful (order_update u)
  IsSound _ = Unit

  abbrev pub IsQueued : TradingEngine F → Type 0
  IsQueued w =
      All IsSound w.strategy_queue.items
      × All IsSound w.risk_queue.items
      × All IsSound w.routing_queue.items
      × All IsSound w.telemetry_queue.items

  abbrev pub IsInOrder : TradingEngine F → Type 0
  IsInOrder w = IsReady w × IsQueued w

  pub tracker_order-IsInOrder :
      (p : Event F → TradingEngine F → TradingEngine F) (e : OrderEvent F) (w : TradingEngine F)
      → ((x : Event F) (v : TradingEngine F) → IsSound x → IsInOrder v → IsInOrder (p x v))
      → e.order.status ≡ new
      → IsInOrder w
      → IsInOrder (on_order (tracker_host p) e w)
  unfolding on_order opening_update is_terminal
  tracker_order-IsInOrder p e w k q h =
      k _ _ (inl (refl, q))
        ((on_order-IsConsistent e (w.order_tracker, []) (rw q refl) h.0.0, h.0.1), h.1)

  -- Copies of a lawful update are sound.
  copies-IsSound :
      (u : OrderUpdateEvent F) (es : List (Event F))
      → IsLawful (order_update u)
      → All (λ x. x ≡ order_update u) es
      → All IsSound es
  copies-IsSound u [] l a = tt
  copies-IsSound u (x ∷ es) l a = (subst IsSound (sym a.0) l, copies-IsSound u es l a.1)

  -- What a report does in the engine: the tracker changes as it does by itself, and telemetry is told
  -- of a step of the lifecycle.
  abbrev Reported : ExecutionReportEvent F → TradingEngine F → TradingEngine F → Type 0
  Reported e w after =
      (es : List (Event F)) × All IsSound es
      × (after
          ≡ with_telemetry es (record w {
            order_tracker = (on_execution_report logging e (w.order_tracker, [])).0;
          }))

  abbrev erased : OrderId → TradingEngine F → TradingEngine F
  erased id v = record v {
    order_tracker = record v.order_tracker {
      active_orders = erase id v.order_tracker.active_orders;
    };
  }

  untold :
      (w : TradingEngine F) → (es : List (Event F)) × All IsSound es × (w ≡ with_telemetry es w)
  untold w = (
    [],
    tt,
    ap (λ es. record w { telemetry_queue = record { items = es } })
        (sym (append-nil w.telemetry_queue.items)),
  )

  tracker_report-told :
      (p : Event F → TradingEngine F → TradingEngine F) (e : ExecutionReportEvent F)
      (w : TradingEngine F)
      → ((u : OrderUpdateEvent F) (v : TradingEngine F) → IsTold u v (p (order_update u) v))
      → Reported e w (on_execution_report (tracker_host p) e w)
  unfolding on_execution_report report_update advanced
  tracker_report-told p e w t =
      elim (Option-cases (find e.order_id w.order_tracker.active_orders)) [
        | inl unknown ↦ rw (unknown, on_execution_report) (untold w)
        | inr (o, known) ↦ elim (Bool-cases (transition_status o.status (propose e.status))) [
          | inr forbidden ↦ rw (known, on_execution_report) (rw forbidden (untold w))
          | inl allowed ↦
              (let changed =
                  insert e.order_id (advanced e (propose e.status) o)
                    w.order_tracker.active_orders in
                let (es, all, told) = t (report_update e o) (record w {
                  order_tracker = record w.order_tracker { active_orders = changed };
                }) in
                let lawful =
                  copies-IsSound (report_update e o) es
                    (inr ((transition_status_iff _ _).0 allowed)) all in
                elim (Bool-cases (is_terminal (propose e.status))) [
                  | inl done ↦ (
                    es,
                    lawful,
                    rw (known, on_execution_report)
                        (rw (allowed, done) (ap (erased e.order_id) told)),
                  )
                  | inr still ↦
                      (es, lawful, rw (known, on_execution_report) (rw (allowed, still) told))
                ])
        ]
      ]

  pub tracker_report-IsInOrder :
      (p : Event F → TradingEngine F → TradingEngine F) (e : ExecutionReportEvent F)
      (w : TradingEngine F)
      → ((u : OrderUpdateEvent F) (v : TradingEngine F) → IsTold u v (p (order_update u) v))
      → IsInOrder w
      → IsInOrder (on_execution_report (tracker_host p) e w)
  tracker_report-IsInOrder p e w t ((consistent, named), (s, r, o, q)) =
      let (es, sound, told) = tracker_report-told p e w t in
      subst IsInOrder (sym told) (
        (report-IsConsistent e (w.order_tracker, []) consistent, named),
        (s, r, o, All-append IsSound w.telemetry_queue.items es q sound),
      )
