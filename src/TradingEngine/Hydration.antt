-- ===== src/TradingEngine/Hydration.antt =====
-- core/app/include/quant/risk/i_reconciler.hpp: the order in which a reconciler reports what it found
-- is left open, and `start` hydrates the engine in that order.
use quant_core_engine.Prelude.{
  ◌==◌, ℕ, String, ◌≡◌, refl, ap, ◌∙◌, Bool, true, false, some, List, [], ◌∷◌, nat_eq, string_eq,
}
use mathlib.Core.List.{Permᴰ}
use quant_core_engine.Double.{Double}
use quant_core_engine.Domain.{OrderId, Order, Position}
use quant_core_engine.Table.Unordered.{AreDistinct, insert_all, insert_all-perm}
use quant_core_engine.MarketDataGateway.{JsonReader}
use quant_core_engine.OrderTracker.{OrderTracker, hydrate_order}
use quant_core_engine.PositionEngine.{PositionEngine, hydrate_position}
use quant_core_engine.TradingEngine.World.{
  TradingEngine, strategy, risk, routing, forward_signal, forward_order, forward_report,
}
use quant_core_engine.TradingEngine.Wiring.{
  Reconciled, hydrate_positions, hydrate_orders, reconcile, bridge, create_position_engine,
  create_order_tracker, create_order_routing, create_strategy, create_risk_engine, create_ipc, wire,
  start, new_engine,
}
use quant_core_engine.TradingEngine.Schedule.{Input, reply, handle_all}
use quant_core_engine.TradingEngine.Commands.{execute_command-reply}
use quant_core_engine.TradingEngine.Unordered.{IsAlike, handle_all-IsAlike}

module _ {F : Type 0} where
  abbrev pub symbol_of : Position F → String
  symbol_of pos = pos.symbol

  abbrev pub id_of : Order F → OrderId
  id_of order = order.id

  -- The tables after a report.
  abbrev with_positions : List (Position F) → PositionEngine F → PositionEngine F
  with_positions ps s = record s { positions = insert_all symbol_of ps s.positions }

  abbrev with_orders : List (Order F) → OrderTracker F → OrderTracker F
  with_orders os t = record t { active_orders = insert_all id_of os t.active_orders }

  hydrate_positions-with_positions :
      (ps : List (Position F)) (w : TradingEngine F)
      → hydrate_positions ps w ≡ record w { position_engine = with_positions ps w.position_engine }
  unfolding hydrate_positions insert_all hydrate_position
  hydrate_positions-with_positions [] w = refl
  hydrate_positions-with_positions (p ∷ ps) w = hydrate_positions-with_positions ps _

  hydrate_orders-with_orders :
      (os : List (Order F)) (w : TradingEngine F)
      → hydrate_orders os w ≡ record w { order_tracker = with_orders os w.order_tracker }
  unfolding hydrate_orders insert_all hydrate_order
  hydrate_orders-with_orders [] w = refl
  hydrate_orders-with_orders (o ∷ os) w = hydrate_orders-with_orders os _

module _ {F : Type 0} ⦃d : Double F⦄ where
  abbrev tracking : TradingEngine F
  tracking = create_position_engine (create_order_tracker new_engine)

  -- What `reconcile` leaves is what `start` leaves, with and without IPC.
  reconciled :
      (r : Reconciled F)
      → reconcile (some r) tracking ≡ record tracking {
        position_engine = with_positions r.positions tracking.position_engine;
        order_tracker = with_orders r.orders tracking.order_tracker;
      }
  unfolding reconcile
  reconciled r =
      ap (hydrate_orders r.orders) (hydrate_positions-with_positions r.positions tracking)
      ∙ hydrate_orders-with_orders r.orders _

  abbrev filled : Reconciled F → TradingEngine F
  filled r = record tracking {
    position_engine = with_positions r.positions tracking.position_engine;
    order_tracker = with_orders r.orders tracking.order_tracker;
  }

  -- What `start` does after it has hydrated the engine.
  finished : Bool → TradingEngine F → TradingEngine F
  finished ipc hydrated =
      let routed = create_order_routing (bridge strategy forward_signal hydrated) in
      let bridged = bridge routing forward_report (bridge risk forward_order routed) in
      record (create_ipc ipc (create_risk_engine (create_strategy bridged))) { running = true }

  start-finished :
      (ipc : Bool) (r : Reconciled F) → start ipc (some r) new_engine ≡ finished ipc (filled r)
  unfolding start new_engine wire finished
  start-finished true r = ap (finished true) (reconciled r)
  start-finished false r = ap (finished false) (reconciled r)

  finished-IsAlike :
      (ipc : Bool) (r s : Reconciled F)
      → Permᴰ r.positions s.positions
      → Permᴰ r.orders s.orders
      → AreDistinct symbol_of r.positions
      → AreDistinct id_of r.orders
      → IsAlike (finished ipc (filled r)) (finished ipc (filled s))
  unfolding finished bridge create_order_routing create_strategy create_risk_engine create_ipc
  finished-IsAlike true r s ps os dp do' = (
    refl,
    insert_all-perm id_of _ _ os do' (λ id. refl),
    insert_all-perm symbol_of _ _ ps dp (λ k. refl),
    λ id. refl,
  )
  finished-IsAlike false r s ps os dp do' = (
    refl,
    insert_all-perm id_of _ _ os do' (λ id. refl),
    insert_all-perm symbol_of _ _ ps dp (λ k. refl),
    λ id. refl,
  )

module _ {J F : Type 0} ⦃d : Double F⦄ (ticks_per_ms : ℕ) (reader : JsonReader J F) where
  -- If a reconciler reports each symbol and each order id at most once, the order of its two lists
  -- does not matter: after a start, with or without IPC, and whatever reaches the engine, it has the
  -- same on every queue and the same state but for its tables, and these answer every lookup alike. It
  -- gives the same reply to every command but STATUS, which lists the positions in the table's order.
  pub start-reordered :
      (ipc : Bool) (r s : Reconciled F) (is : List (Input F))
      → Permᴰ r.positions s.positions
      → Permᴰ r.orders s.orders
      → AreDistinct symbol_of r.positions
      → AreDistinct id_of r.orders
      → let v = handle_all ticks_per_ms reader is (start ipc (some r) new_engine) in
        let w = handle_all ticks_per_ms reader is (start ipc (some s) new_engine) in
        IsAlike v w × ((cmd : String) → (cmd == "STATUS") ≡ false → reply cmd v ≡ reply cmd w)
  unfolding reply
  start-reordered ipc r s is ps os distinct_ps distinct_os = (
    handle_all-IsAlike ticks_per_ms reader is _ _ (
        rw (start-finished ipc r, start-finished ipc s)
          (finished-IsAlike ipc r s ps os distinct_ps distinct_os)),
    λ cmd other. execute_command-reply cmd _ _ other,
  )
