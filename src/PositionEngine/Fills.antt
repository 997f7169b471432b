-- ===== src/PositionEngine/Fills.antt =====
-- What `onOrder` and `onFill` do, on every branch.
use quant_core_engine.Prelude.{
  ◌≡◌, refl, ◌⊎◌, inl, inr, true, false, Option, none, some, List, [], ◌∷◌, ◌++◌, append_assoc,
  ◌==◌, nat_eq, string_eq, if◌then◌else◌, Bool-cases,
}
use quant_core_engine.Double.{Double, ◌<?◌}
use quant_core_engine.Domain.{OrderId, Position}
use quant_core_engine.Events.{
  OrderEvent, ExecutionReportEvent, Event, position_update, risk_violation, Host, Logged, logging,
}
use quant_core_engine.Table.{find, insert, erase, find-insert, find-erase_self}
use quant_core_engine.PositionEngine.{
  PositionEngine, OrderInfo, is_filled, order_info, filled_position, update_of, violation_of,
  on_order, on_fill, fill_known,
}

abbrev pub World : Type 0 → Type 0
World F = Logged (PositionEngine F) F

module _ {F : Type 0} where
  abbrev pub cached : World F → OrderId → Option OrderInfo
  cached w id = find id w.0.order_cache

  -- An order is remembered under its id, and changes neither the positions nor the log.
  pub order_cached :
      (event : OrderEvent F) (w : World F) (id : OrderId)
      → let after = on_order logging event w in
        (cached after id ≡ (if event.order.id == id then some (order_info event) else cached w id))
        × (after.0.positions ≡ w.0.positions)
        × (after.1 ≡ w.1)
  unfolding on_order
  order_cached event w id =
      (find-insert event.order.id id (order_info event) w.0.order_cache, refl, refl)

module _ {F : Type 0} ⦃d : Double F⦄ where
  -- A report that is no fill, or whose order is not known, changes nothing and publishes nothing.
  pub fill_skipped :
      (event : ExecutionReportEvent F) (w : World F)
      → (is_filled event.status ≡ false) ⊎ (cached w event.order_id ≡ none)
      → on_fill logging event w ≡ w
  unfolding on_fill
  fill_skipped event w (inl e) = rw (e, on_fill) refl
  fill_skipped event w (inr e) = elim (Bool-cases (is_filled event.status)) [
    | inl f ↦ rw (f, on_fill) (rw (e, on_fill) refl)
    | inr f ↦ rw (f, on_fill) refl
  ]

  -- The events that a fill gives rise to: the new position, and a violation below the floor.
  unfoldable pub fill_events :
      ExecutionReportEvent F → OrderInfo → PositionEngine F → List (Event F)
  fill_events event info s =
      let pos = filled_position event info s in
      position_update (update_of event pos)
      ∷ (if pos.realized_pnl <? s.limits.max_drawdown
          then risk_violation (violation_of event info s.limits pos) ∷ []
          else [])

  -- A fill of a known order stores the new position under its symbol, forgets the order, and publishes
  -- the position and, if the profit is below the floor, a violation.
  pub fill_taken :
      (event : ExecutionReportEvent F) (w : World F) (info : OrderInfo)
      → is_filled event.status ≡ true
      → cached w event.order_id ≡ some info
      → on_fill logging event w ≡ (
        record w.0 {
          positions = insert info.symbol (filled_position event info w.0) w.0.positions;
          order_cache = erase event.order_id w.0.order_cache;
        },
        w.1 ++ fill_events event info w.0,
      )
  unfolding on_fill fill_events
  fill_taken event w info f e =
      elim (Bool-cases ((filled_position event info w.0).realized_pnl <? w.0.limits.max_drawdown)) [
        | inl under ↦ rw (f, on_fill) (rw (e, on_fill) (rw under (simp append_assoc refl)))
        | inr above ↦ rw (f, on_fill) (rw (e, on_fill) (rw above refl))
      ]

  -- An order is filled once: after a fill of a known order, a second report of the same order changes
  -- nothing and publishes nothing, whatever it says.
  pub fill_once :
      (first second : ExecutionReportEvent F) (w : World F) (info : OrderInfo)
      → is_filled first.status ≡ true
      → cached w first.order_id ≡ some info
      → second.order_id ≡ first.order_id
      → let after = on_fill logging first w in on_fill logging second after ≡ after
  fill_once first second w info f e same = fill_skipped second (on_fill logging first w) (
      inr (rw (fill_taken first w info f e, same) (find-erase_self first.order_id w.0.order_cache)))

module _ {F W : Type 0} ⦃d : Double F⦄ (h : Host (PositionEngine F) W F) where
  -- A fill of a known order in any host, while the profit is above the floor: the position is stored
  -- before it is published, and the order is forgotten after.
  pub fill_within :
      (event : ExecutionReportEvent F) (info : OrderInfo) (pos : Position F) (w : W)
      → is_filled event.status ≡ true
      → find event.order_id (h.get w).order_cache ≡ some info
      → filled_position event info (h.get w) ≡ pos
      → (pos.realized_pnl <? (h.get w).limits.max_drawdown) ≡ false
      → let s = h.get w in
        let stored = h.put (record s { positions = insert info.symbol pos s.positions }) w in
        let updated = h.publish (position_update (update_of event pos)) stored in
        let left = h.get updated in
        on_fill h event w
        ≡ h.put (record left { order_cache = erase event.order_id left.order_cache }) updated
  unfolding on_fill fill_known
  fill_within event info pos w f k p above =
      rw (f, on_fill) (rw (k, on_fill) (rw (p, fill_known) (rw above refl)))

  -- A fill of a known order in any host, when the profit is below the floor: the violation goes out
  -- after the position.
  pub fill_beyond :
      (event : ExecutionReportEvent F) (info : OrderInfo) (pos : Position F) (w : W)
      → is_filled event.status ≡ true
      → find event.order_id (h.get w).order_cache ≡ some info
      → filled_position event info (h.get w) ≡ pos
      → (pos.realized_pnl <? (h.get w).limits.max_drawdown) ≡ true
      → let s = h.get w in
        let stored = h.put (record s { positions = insert info.symbol pos s.positions }) w in
        let updated = h.publish (position_update (update_of event pos)) stored in
        let warned = h.publish (risk_violation (violation_of event info s.limits pos)) updated in
        let left = h.get warned in
        on_fill h event w
        ≡ h.put (record left { order_cache = erase event.order_id left.order_cache }) warned
  unfolding on_fill fill_known
  fill_beyond event info pos w f k p under =
      rw (f, on_fill) (rw (k, on_fill) (rw (p, fill_known) (rw under refl)))
