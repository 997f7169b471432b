-- ===== src/TradingEngine/Reconciler.antt =====
-- core/app/include/quant/risk/i_reconciler.hpp: what a reconciler reports, and the state in which
-- `start` leaves the books and the orders after it.
use quant_core_engine.Prelude.{
  ◌≡◌, refl, ap, ◌∙◌, inr, nat_eq, Bool, true, false, none, some, List, [], ◌∷◌, All,
}
use quant_core_engine.Double.{Double, lit}
use quant_core_engine.Domain.{OrderId, Order, Position}
use quant_core_engine.Table.{find}
use quant_core_engine.OrderTracker.{is_terminal}
use quant_core_engine.OrderTracker.Invariant.{IsConsistent, hydrate_order-IsConsistent}
use quant_core_engine.Events.{ExecutionReportEvent, Event, logging}
use quant_core_engine.PositionEngine.{OrderInfo, on_fill, hydrate_position}
use quant_core_engine.PositionEngine.Fills.{fill_skipped}
use quant_core_engine.PositionEngine.Invariant.{IsNamed, hydrate_position-IsNamed}
use quant_core_engine.TradingEngine.World.{TradingEngine}
use quant_core_engine.TradingEngine.Wiring.{
  Reconciled, hydrate_positions, hydrate_orders, reconcile, create_position_engine,
  create_order_tracker, wire, start, new_engine,
}

-- What `MockReconciler` reports: 100 shares of AAPL at 150, and no open order.
unfoldable pub mock_reconciler : {F : Type 0} ⦃d : Double F⦄ → Reconciled F
mock_reconciler = record {
  positions =
      record {
        symbol = "AAPL";
        net_quantity = lit 100;
        average_price = lit 150;
        realized_pnl = lit 0;
      }
      ∷ [];
  orders = [];
}

none-ne-some : {A : Type 0} {a : A} → none ≡ some a → ⊥
none-ne-some e = cc

module _ {F : Type 0} where
  abbrev pub IsOpen : Order F → Type 0
  IsOpen o = is_terminal o.status ≡ false

  -- The orders are open and under their ids, and the positions under their symbols.
  abbrev pub IsReady : TradingEngine F → Type 0
  IsReady w = IsConsistent w.order_tracker × IsNamed w.position_engine

  hydrate_positions-IsReady :
      (ps : List (Position F)) (w : TradingEngine F) → IsReady w → IsReady (hydrate_positions ps w)
  unfolding hydrate_positions
  hydrate_positions-IsReady [] w v = v
  hydrate_positions-IsReady (p ∷ ps) w v =
      hydrate_positions-IsReady ps _ (v.0, hydrate_position-IsNamed w.position_engine p v.1)

  hydrate_orders-IsReady :
      (os : List (Order F)) (w : TradingEngine F)
      → All IsOpen os
      → IsReady w
      → IsReady (hydrate_orders os w)
  unfolding hydrate_orders
  hydrate_orders-IsReady [] w a v = v
  hydrate_orders-IsReady (o ∷ os) w a v =
      hydrate_orders-IsReady os _ a.1 (hydrate_order-IsConsistent w.order_tracker o a.0 v.0, v.1)

  empty-IsReady :
      (w : TradingEngine F)
      → w.order_tracker.active_orders ≡ []
      → w.position_engine.positions ≡ []
      → IsReady w
  unfolding find
  empty-IsReady w os ps =
      (λ id o e. absurd (none-ne-some (rw os at e)), λ k p e. absurd (none-ne-some (rw ps at e)))

module _ {F : Type 0} ⦃d : Double F⦄ where
  reconcile-IsReady :
      (r : Reconciled F)
      → All IsOpen r.orders
      → IsReady (reconcile (some r) (create_position_engine (create_order_tracker new_engine)))
  unfolding reconcile create_position_engine create_order_tracker
  reconcile-IsReady r a =
      let tracking = create_position_engine (create_order_tracker (new_engine {F = F})) in
      hydrate_orders-IsReady r.orders (hydrate_positions r.positions tracking) a
        (hydrate_positions-IsReady r.positions tracking (empty-IsReady tracking refl refl))

  -- If the reconciler reports open orders only, then after `start`, with and without IPC, every tracked
  -- order is open and under its own id, and every position is under its own symbol.
  pub start-IsReady :
      (ipc : Bool) (r : Reconciled F)
      → All IsOpen r.orders
      → IsReady (start ipc (some r) new_engine)
  unfolding start new_engine wire
  start-IsReady true r a = reconcile-IsReady r a
  start-IsReady false r a = reconcile-IsReady r a

module _ {F : Type 0} where
  abbrev order_cache_of : TradingEngine F → List (OrderId × OrderInfo)
  order_cache_of w = w.position_engine.order_cache

  order_cache-hydrate_positions :
      (ps : List (Position F)) (w : TradingEngine F)
      → order_cache_of (hydrate_positions ps w) ≡ order_cache_of w
  unfolding hydrate_positions hydrate_position
  order_cache-hydrate_positions [] w = refl
  order_cache-hydrate_positions (p ∷ ps) w = order_cache-hydrate_positions ps _

  order_cache-hydrate_orders :
      (os : List (Order F)) (w : TradingEngine F)
      → order_cache_of (hydrate_orders os w) ≡ order_cache_of w
  unfolding hydrate_orders
  order_cache-hydrate_orders [] w = refl
  order_cache-hydrate_orders (o ∷ os) w = order_cache-hydrate_orders os _

module _ {F : Type 0} ⦃d : Double F⦄ where
  order_cache-reconcile :
      (r : Reconciled F)
      → order_cache_of
          (reconcile (some r) (create_position_engine (create_order_tracker new_engine)))
        ≡ []
  unfolding reconcile create_position_engine create_order_tracker
  order_cache-reconcile r =
      order_cache-hydrate_orders r.orders _ ∙ order_cache-hydrate_positions r.positions _

  order_cache-start :
      (ipc : Bool) (r : Reconciled F) → order_cache_of (start ipc (some r) new_engine) ≡ []
  unfolding start new_engine wire
  order_cache-start true r = order_cache-reconcile r
  order_cache-start false r = order_cache-reconcile r

  -- After a start with a reconciler the position engine drops every fill: it knows none of the
  -- reconciled orders, so no position changes and no update goes out.
  pub unbooked_fill :
      (ipc : Bool) (r : Reconciled F) (event : ExecutionReportEvent F) (log : List (Event F))
      → let books = (start ipc (some r) (new_engine {F = F})).position_engine in
        on_fill logging event (books, log) ≡ (books, log)
  unfolding find
  unbooked_fill ipc r event log =
      fill_skipped event ((start ipc (some r) new_engine).position_engine, log)
        (inr (ap (find event.order_id) (order_cache-start ipc r)))
