-- ===== src/RiskEngine/Orders.antt =====
-- The orders that the risk engine publishes over any sequence of inputs.
use quant_core_engine.Prelude.{
  suc, ◌+◌, ◌<◌, ◌≡◌, refl, sym, ap, ◌∙◌, ◌⊎◌, inl, inr, List, [], ◌∷◌, ◌++◌, arith, Bool-cases,
  append_assoc, append-nil, length,
}
use mathlib.Core.Path.{subst}
use quant_core_engine.Double.{Double}
use quant_core_engine.Domain.{OrderId}
use quant_core_engine.Events.{Timestamp, SignalEvent, OrderEvent, Event, market_data, order_event}
use quant_core_engine.OrderIdGenerator.{
  Consecutive, u64_mod, next_id, next-next_id, OrderIdGenerator,
}
use quant_core_engine.RiskEngine.{
  on_signal, on_risk_violation, halt_trading, exceeds_limit, order_event_of,
}
use quant_core_engine.RiskEngine.Desk.{
  Desk, desk, Input, signalled, violated, commanded, handle, handle_all,
}
use quant_core_engine.RiskEngine.Limits.{signal_refused, signal_passed}

module _ {F : Type 0} where
  -- The ids of the orders in a log, oldest first.
  abbrev pub order_ids : List (Event F) → List OrderId
  order_ids [] = []
  order_ids (order_event e ∷ log) = e.order.id ∷ order_ids log
  order_ids (_ ∷ log) = order_ids log

  order_ids-append :
      (log : List (Event F)) (e : OrderEvent F)
      → order_ids (log ++ order_event e ∷ []) ≡ order_ids log ++ e.order.id ∷ []
  order_ids-append [] e = refl
  order_ids-append (order_event o ∷ log) e = ap (λ t. o.order.id ∷ t) (order_ids-append log e)
  order_ids-append (market_data _ ∷ log) e = order_ids-append log e
  order_ids-append (_ ∷ log) e = order_ids-append log e

module _ {F : Type 0} ⦃d : Double F⦄ where
  -- An input publishes no order, or one that bears the next id.
  abbrev Publishes : Desk F → Desk F → Type 0
  Publishes w after =
      ((after.ids ≡ w.ids) × (after.log ≡ w.log))
      ⊎ ((e : OrderEvent F) × (e.order.id ≡ w.ids.next)
          × (after.ids ≡ (next_id w.ids).1)
          × (after.log ≡ w.log ++ order_event e ∷ []))

  signal-Publishes :
      (now : Timestamp) (e : SignalEvent F) (w : Desk F) → Publishes w (on_signal desk now e w)
  unfolding order_event_of
  signal-Publishes now e w = elim (Bool-cases w.engine.halt_flag) [
    | inl halted ↦ rw (signal_refused now e w (inl halted)) (inl (refl, refl))
    | inr open_now ↦ elim (Bool-cases (exceeds_limit w.engine.limits w.positions e)) [
      | inl over ↦ rw (signal_refused now e w (inr over)) (inl (refl, refl))
      | inr under ↦
          rw (signal_passed now e w open_now under)
            (inr (order_event_of now w.ids.next e, refl, refl, refl))
    ]
  ]

  handle-Publishes : (i : Input F) (w : Desk F) → Publishes w (handle i w)
  unfolding handle on_risk_violation halt_trading
  handle-Publishes (signalled now e) w = signal-Publishes now e w
  handle-Publishes (violated e) w = inl (refl, refl)
  handle-Publishes commanded w = inl (refl, refl)

  -- The orders published over any sequence of inputs bear consecutive ids, as long as the 64-bit
  -- counter does not wrap.
  pub order_ids-handle_all :
      (is : List (Input F)) (w : Desk F)
      → w.ids.next + length is < u64_mod
      → (fresh : List OrderId) × (order_ids (handle_all is w).log ≡ order_ids w.log ++ fresh)
        × Consecutive w.ids.next fresh
  unfolding handle_all
  order_ids-handle_all [] w h = ([], sym (append-nil (order_ids w.log)), tt)
  order_ids-handle_all (i ∷ is) w h = elim (handle-Publishes i w) [
    | inl (same, quiet) ↦
        (let ih =
            order_ids-handle_all is (handle i w)
              (omega (arith, ap (λ (g : OrderIdGenerator). g.next) same, h)) in
          (
            ih.0,
            ih.1 ∙ ap (λ t. order_ids t ++ ih.0) quiet,
            subst (λ g. Consecutive g.next ih.0) same ih.2,
          ))
    | inr (e, fresh, drawn, logged) ↦
        (let next : (handle i w).ids.next ≡ suc w.ids.next =
            ap (λ g. g.next) drawn ∙ next-next_id w.ids (omega arith) in
          let ih = order_ids-handle_all is (handle i w) (omega (arith, next, h)) in
          (
            e.order.id ∷ ih.0,
            ih.1
                ∙ ap (λ t. order_ids t ++ ih.0) logged
                ∙ ap (λ t. t ++ ih.0) (order_ids-append w.log e)
                ∙ append_assoc (order_ids w.log) (e.order.id ∷ []) ih.0,
            (fresh, subst (λ k. Consecutive k ih.0) next ih.2),
          ))
  ]
