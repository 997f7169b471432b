-- ===== src/TradingEngine/InOrder.antt =====
-- The order lifecycle and the books in the whole engine, over every schedule of what reaches it.
use quant_core_engine.Prelude.{
  ℕ, refl, Bool, true, false, some, List, [], ◌∷◌, All, nat_eq, string_eq,
}
use quant_core_engine.Double.{Double}
use quant_core_engine.Events.{
  Timestamp, MarketDataEvent, SignalEvent, ExecutionReportEvent, Event, market_data, signal,
  order_event, order_update, execution_report, position_update, risk_violation,
}
use quant_core_engine.PositionEngine.{OrderInfo, is_filled, filled_position}
use quant_core_engine.PositionEngine
use quant_core_engine.PositionEngine.Invariant.{insert-IsNamed, symbol-filled_position}
use quant_core_engine.RiskEngine.{exceeds_limit, order_event_of}
use quant_core_engine.RiskEngine
use quant_core_engine.Execution
use quant_core_engine.DummyStrategy
use quant_core_engine.MarketDataGateway.{JsonReader}
use quant_core_engine.TradingEngine.World.{TradingEngine, position_host, risk_host}
use quant_core_engine.Domain.{Order, Position}
use quant_core_engine.OrderTracker.Invariant.{IsLawful}
use quant_core_engine.TradingEngine.Reconciler.{IsReady, IsOpen, start-IsReady}
use quant_core_engine.TradingEngine.Wiring.{
  Reconciled, hydrate_positions, hydrate_orders, reconcile, start, wire, new_engine,
  create_position_engine, create_order_tracker,
}
use quant_core_engine.TradingEngine.Queued.{pushing-IsInOrder, telling-IsInOrder, popping-IsInOrder}
use quant_core_engine.TradingEngine.Schedule.{
  Input, turned, received, pushed, commanded, handle_all,
}
use quant_core_engine.TradingEngine.Handlers.{store, fill-kept, signal-kept, tick-kept}
use quant_core_engine.TradingEngine.Induction.{IsInvariant, Admits, handle_all-kept}
use quant_core_engine.TradingEngine.Sound.{
  IsSound, IsQueued, IsInOrder, tracker_order-IsInOrder, tracker_report-IsInOrder,
}

module _ {F : Type 0} ⦃d : Double F⦄ (p : Event F → TradingEngine F → TradingEngine F)
    (k : (e : Event F) (w : TradingEngine F) → IsSound e → IsInOrder w → IsInOrder (p e w)) where
  store-IsInOrder :
      (e : ExecutionReportEvent F) (info : OrderInfo) (w : TradingEngine F)
      → IsInOrder w
      → IsInOrder (store e info w)
  store-IsInOrder e info w ((consistent, named), queued) =
      let pe = w.position_engine in
      (
        (
          consistent,
          insert-IsNamed pe info.symbol (filled_position e info pe)
              (symbol-filled_position e info pe named) named,
        ),
        queued,
      )

  position_fill-IsInOrder :
      (e : ExecutionReportEvent F) (w : TradingEngine F)
      → IsInOrder w
      → IsInOrder (PositionEngine.on_fill (position_host p) e w)
  position_fill-IsInOrder e w h =
      fill-kept IsInOrder p e w (store-IsInOrder e) (λ id v i. i) (λ u v. k _ v tt)
        (λ r v. k _ v tt) h

  risk_signal-IsInOrder :
      (now : Timestamp) (e : SignalEvent F) (w : TradingEngine F)
      → IsInOrder w
      → IsInOrder (RiskEngine.on_signal (risk_host p) now e w)
  unfolding order_event_of
  risk_signal-IsInOrder now e w h =
      signal-kept IsInOrder p IsInOrder (λ v i. i) now e w (λ o. k _ _ refl) h

  strategy_tick-IsInOrder :
      (now : Timestamp) (e : MarketDataEvent F) (w : TradingEngine F)
      → IsInOrder w
      → IsInOrder (DummyStrategy.on_market_data p now e w)
  strategy_tick-IsInOrder now e w h =
      tick-kept IsInOrder p IsInOrder (λ v i. i) now e w (k _ w tt) h

module _ {F : Type 0} ⦃d : Double F⦄ (ticks_per_ms : ℕ) where
  order-IsInvariant : IsInvariant {F = F} ticks_per_ms IsSound IsInOrder
  unfolding PositionEngine.on_order Execution.mock_on_order
  order-IsInvariant = record {
    tracker_order = λ p e w k q h. tracker_order-IsInOrder p e w k q h;
    tracker_report = λ p e w k t q h. tracker_report-IsInOrder p e w t h;
    position_order = λ p e w q h. h;
    position_fill = λ p e w k q h. position_fill-IsInOrder p k e w h;
    risk_signal = λ p now e w k q h. risk_signal-IsInOrder p k now e w h;
    strategy_tick = λ p now e w k q h. strategy_tick-IsInOrder p k now e w h;
    execution_order = λ p e w k q h. k _ _ tt (k _ _ tt h);
    halting = λ w h. h;
    pushing = pushing-IsInOrder;
    telling = telling-IsInOrder;
    popping = popping-IsInOrder;
    ticking = λ c w h. h;
  }

-- What is pushed from outside is sound.
abbrev pub IsAdmitted : {F : Type 0} → Input F → Type 0
IsAdmitted (pushed e) = IsSound e
IsAdmitted _ = Unit

module _ {F : Type 0} where
  hydrate_positions-IsQueued :
      (ps : List (Position F)) (w : TradingEngine F)
      → IsQueued w
      → IsQueued (hydrate_positions ps w)
  unfolding hydrate_positions
  hydrate_positions-IsQueued [] w q = q
  hydrate_positions-IsQueued (p ∷ ps) w q = hydrate_positions-IsQueued ps _ q

  hydrate_orders-IsQueued :
      (os : List (Order F)) (w : TradingEngine F) → IsQueued w → IsQueued (hydrate_orders os w)
  unfolding hydrate_orders
  hydrate_orders-IsQueued [] w q = q
  hydrate_orders-IsQueued (o ∷ os) w q = hydrate_orders-IsQueued os _ q

  sound-IsLawful : (es : List (Event F)) → All IsSound es → All IsLawful es
  sound-IsLawful [] a = tt
  sound-IsLawful (market_data e ∷ es) a = (tt, sound-IsLawful es a.1)
  sound-IsLawful (signal e ∷ es) a = (tt, sound-IsLawful es a.1)
  sound-IsLawful (order_event e ∷ es) a = (tt, sound-IsLawful es a.1)
  sound-IsLawful (order_update e ∷ es) a = (a.0, sound-IsLawful es a.1)
  sound-IsLawful (execution_report e ∷ es) a = (tt, sound-IsLawful es a.1)
  sound-IsLawful (position_update e ∷ es) a = (tt, sound-IsLawful es a.1)
  sound-IsLawful (risk_violation e ∷ es) a = (tt, sound-IsLawful es a.1)
  sound-IsLawful (_ ∷ es) a = (tt, sound-IsLawful es a.1)

module _ {F : Type 0} ⦃d : Double F⦄ where
  reconcile-IsQueued :
      (r : Reconciled F)
      → IsQueued (reconcile (some r) (create_position_engine (create_order_tracker new_engine)))
  unfolding reconcile create_position_engine create_order_tracker new_engine
  reconcile-IsQueued r =
      hydrate_orders-IsQueued r.orders _ (hydrate_positions-IsQueued r.positions _ (tt, tt, tt, tt))

  start-IsQueued : (ipc : Bool) (r : Reconciled F) → IsQueued (start ipc (some r) new_engine)
  unfolding start new_engine wire
  start-IsQueued true r = let (s, k, o, t) = reconcile-IsQueued r in (s, k, tt, t)
  start-IsQueued false r = let (s, k, o, t) = reconcile-IsQueued r in (s, k, tt, t)

module _ {J F : Type 0} ⦃d : Double F⦄ (ticks_per_ms : ℕ) (reader : JsonReader J F) where
  admitted :
      (is : List (Input F))
      → All IsAdmitted is
      → All (Admits ticks_per_ms IsSound IsInOrder (order-IsInvariant ticks_per_ms) reader) is
  admitted [] a = tt
  admitted (turned l now ∷ is) a = (tt, admitted is a.1)
  admitted (received payload ∷ is) a = ((λ tick e. tt), admitted is a.1)
  admitted (pushed e ∷ is) a = (a.0, admitted is a.1)
  admitted (commanded cmd ∷ is) a = (tt, admitted is a.1)

  -- If the reconciler reports open orders only, and the events pushed from outside place orders as new
  -- and tell of steps of the lifecycle, then after a start, with or without IPC, and any schedule of
  -- turns of the loops, messages of the feed, pushed events and commands, every tracked order is open
  -- and under its own id, every position is under its own symbol, and the order updates queued for
  -- telemetry show no step outside the lifecycle.
  pub handle_all-IsReady :
      (ipc : Bool) (r : Reconciled F) (is : List (Input F))
      → All IsOpen r.orders
      → All IsAdmitted is
      → let end = handle_all ticks_per_ms reader is (start ipc (some r) new_engine) in
        IsReady end × All IsLawful end.telemetry_queue.items
  handle_all-IsReady ipc r is open_orders a =
      let (ready, (_, _, _, told)) =
        handle_all-kept ticks_per_ms IsSound IsInOrder (order-IsInvariant ticks_per_ms) reader is
          (start ipc (some r) new_engine) (admitted is a)
          (start-IsReady ipc r open_orders, start-IsQueued ipc r) in
      (ready, sound-IsLawful _ told)
