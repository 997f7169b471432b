-- ===== src/TradingEngine/Collision.antt =====
-- The first order id after a start with a reconciler.
use quant_core_engine.Prelude.{ℕ, ◌≡◌, refl, ap, ◌∙◌, true, false, some, List, [], ◌∷◌, nat_eq}
use quant_core_engine.Double.{Double}
use quant_core_engine.Domain.{Order, Position}
use quant_core_engine.Events.{Timestamp, SignalEvent, signal}
use quant_core_engine.Table.{find, insert, find-insert_self}
use quant_core_engine.OrderIdGenerator.{new_generator}
use quant_core_engine.RiskEngine.{exceeds_limit, order_of, order_event_of}
use quant_core_engine.TradingEngine.World.{TradingEngine, publish, depth, risk}
use quant_core_engine.TradingEngine.Wiring.{
  Reconciled, hydrate_positions, hydrate_orders, reconcile, create_position_engine,
  create_order_tracker, wire, start, new_engine,
}
use quant_core_engine.TradingEngine.Stages.{start-wired, publish_signal}

module _ {F : Type 0} where
  order_id_gen-hydrate_positions :
      (ps : List (Position F)) (w : TradingEngine F)
      → (hydrate_positions ps w).order_id_gen ≡ w.order_id_gen
  unfolding hydrate_positions
  order_id_gen-hydrate_positions [] w = refl
  order_id_gen-hydrate_positions (p ∷ ps) w = order_id_gen-hydrate_positions ps _

  order_id_gen-hydrate_orders :
      (os : List (Order F)) (w : TradingEngine F)
      → (hydrate_orders os w).order_id_gen ≡ w.order_id_gen
  unfolding hydrate_orders
  order_id_gen-hydrate_orders [] w = refl
  order_id_gen-hydrate_orders (o ∷ os) w = order_id_gen-hydrate_orders os _

module _ {F : Type 0} ⦃d : Double F⦄ where
  order_id_gen-reconcile :
      (r : Reconciled F)
      → (reconcile
          (some r)
          (create_position_engine (create_order_tracker (new_engine {F = F})))).order_id_gen
        ≡ new_generator
  unfolding reconcile create_position_engine create_order_tracker new_engine
  order_id_gen-reconcile r =
      order_id_gen-hydrate_orders r.orders _ ∙ order_id_gen-hydrate_positions r.positions _

  order_id_gen-start :
      (r : Reconciled F) → (start true (some r) (new_engine {F = F})).order_id_gen ≡ new_generator
  unfolding start new_engine wire
  order_id_gen-start r = order_id_gen-reconcile r

  halt_flag-start :
      (r : Reconciled F) → (start true (some r) (new_engine {F = F})).risk_engine.halt_flag ≡ false
  unfolding start new_engine wire
  halt_flag-start r = refl

  -- Whatever the reconciler reports, also an open order of id 1, after a start with IPC the first signal
  -- that the limit allows becomes an order of id 1, which then stands in the tracker under that id.
  pub first_order_id :
      (ticks_per_ms : ℕ) (now : Timestamp) (r : Reconciled F) (e : SignalEvent F)
      → let w = start true (some r) (new_engine {F = F}) in
        exceeds_limit w.risk_engine.limits w.position_engine e ≡ false
        → find 1 (publish ticks_per_ms now depth risk (signal e) w).order_tracker.active_orders
          ≡ some (order_of 1 e)
  unfolding order_event_of
  first_order_id ticks_per_ms now r e under =
      let w = start true (some r) (new_engine {F = F}) in
      let next = ap (λ g. g.next) (order_id_gen-start r) in
      let published =
        ap (publish ticks_per_ms now depth risk (signal e)) (start-wired (some r))
        ∙ publish_signal ticks_per_ms now e w (halt_flag-start r) under in
      ap (λ v. find 1 v.order_tracker.active_orders) published
      ∙ ap (λ n. find 1 (insert n (order_of n e) w.order_tracker.active_orders)) next
      ∙ find-insert_self 1 (order_of 1 e) w.order_tracker.active_orders
