-- ===== src/TradingEngine/Halt.antt =====
-- The kill switch in the whole engine: what a halt means for the loops at work, whoever is subscribed
-- where.
use quant_core_engine.Prelude.{ℕ, ◌≡◌, refl, true, List, [], ◌∷◌, nat_eq, string_eq}
use quant_core_engine.Double.{Double}
use quant_core_engine.Events.{
  Timestamp, MarketDataEvent, SignalEvent, OrderEvent, ExecutionReportEvent, RiskViolationEvent,
  Event, risk_violation,
}
use quant_core_engine.OrderIdGenerator.{OrderIdGenerator}
use quant_core_engine.EventBus.{SubscriptionId}
use quant_core_engine.EventBus
use quant_core_engine.OrderTracker.{transition_status, is_terminal, propose}
use quant_core_engine.OrderTracker
use quant_core_engine.PositionEngine.{is_filled, filled_position}
use quant_core_engine.PositionEngine
use quant_core_engine.RiskEngine
use quant_core_engine.Execution
use quant_core_engine.DummyStrategy
use quant_core_engine.ThreadSafeQueue.{Queue}
use quant_core_engine.TradingEngine.World.{
  Loop, strategy, risk, routing, TradingEngine, tracker_host, position_host, risk_host, publish,
  depth,
}
use quant_core_engine.TradingEngine.Stages.{wired}
use quant_core_engine.MarketDataGateway.{JsonReader}
use quant_core_engine.Prelude.{All}
use quant_core_engine.TradingEngine.Schedule.{
  Input, turned, received, pushed, commanded, handle_all,
}
use quant_core_engine.TradingEngine.Handlers.{report-kept, fill-kept, tick-kept}
use quant_core_engine.TradingEngine.Induction.{IsInvariant, Admits, run-kept, handle_all-kept}
use quant_core_engine.TradingEngine.Turns.{set_queue, run}

-- Trading is halted, and the id generator stands at `g`.
abbrev pub IsHaltedAt : {F : Type 0} → OrderIdGenerator → TradingEngine F → Type 0
IsHaltedAt g w = (w.risk_engine.halt_flag ≡ true) × (w.order_id_gen ≡ g)

-- Nothing is asked of the events.
abbrev pub AnyEvent : {F : Type 0} → Event F → Type 0
AnyEvent e = Unit

module _ {F : Type 0} (g : OrderIdGenerator) where
  set_queue-IsHaltedAt :
      (l : Loop) (q : Queue (Event F)) (w : TradingEngine F)
      → IsHaltedAt g w
      → IsHaltedAt g (set_queue l q w)
  set_queue-IsHaltedAt strategy q w h = h
  set_queue-IsHaltedAt risk q w h = h
  set_queue-IsHaltedAt routing q w h = h

module _ {F : Type 0} (g : OrderIdGenerator) (p : Event F → TradingEngine F → TradingEngine F)
    (k : (e : Event F) (w : TradingEngine F) → IsHaltedAt g w → IsHaltedAt g (p e w)) where
  tracker_order-IsHaltedAt :
      (e : OrderEvent F) (w : TradingEngine F)
      → IsHaltedAt g w
      → IsHaltedAt g (OrderTracker.on_order (tracker_host p) e w)
  unfolding OrderTracker.on_order
  tracker_order-IsHaltedAt e w h = k _ _ h

  tracker_report-IsHaltedAt :
      (e : ExecutionReportEvent F) (w : TradingEngine F)
      → IsHaltedAt g w
      → IsHaltedAt g (OrderTracker.on_execution_report (tracker_host p) e w)
  tracker_report-IsHaltedAt e w h =
      report-kept (IsHaltedAt g) p e w (λ orders v k. k) (λ u v. k _ v) h

module _ {F : Type 0} ⦃d : Double F⦄ (g : OrderIdGenerator)
    (p : Event F → TradingEngine F → TradingEngine F)
    (k : (e : Event F) (w : TradingEngine F) → IsHaltedAt g w → IsHaltedAt g (p e w)) where
  position_fill-IsHaltedAt :
      (e : ExecutionReportEvent F) (w : TradingEngine F)
      → IsHaltedAt g w
      → IsHaltedAt g (PositionEngine.on_fill (position_host p) e w)
  position_fill-IsHaltedAt e w h =
      fill-kept (IsHaltedAt g) p e w (λ info v k. k) (λ id v k. k) (λ u v. k _ v) (λ r v. k _ v) h

  risk_signal-IsHaltedAt :
      (now : Timestamp) (e : SignalEvent F) (w : TradingEngine F)
      → IsHaltedAt g w
      → IsHaltedAt g (RiskEngine.on_signal (risk_host p) now e w)
  unfolding RiskEngine.on_signal
  risk_signal-IsHaltedAt now e w h = rw (h.0, RiskEngine.on_signal) (refl, h.1)

  market_data-IsHaltedAt :
      (now : Timestamp) (e : MarketDataEvent F) (w : TradingEngine F)
      → IsHaltedAt g w
      → IsHaltedAt g (DummyStrategy.on_market_data p now e w)
  market_data-IsHaltedAt now e w h =
      tick-kept (IsHaltedAt g) p (IsHaltedAt g) (λ v k. k) now e w (k _ w) h

module _ {F : Type 0} ⦃d : Double F⦄ (ticks_per_ms : ℕ) (g : OrderIdGenerator) where
  halt-IsInvariant : IsInvariant {F = F} ticks_per_ms AnyEvent (IsHaltedAt g)
  unfolding PositionEngine.on_order Execution.mock_on_order
  halt-IsInvariant = record {
    tracker_order = λ p e w k q h. tracker_order-IsHaltedAt g p (λ e w. k e w tt) e w h;
    tracker_report = λ p e w k t q h. tracker_report-IsHaltedAt g p (λ e w. k e w tt) e w h;
    position_order = λ p e w q h. h;
    position_fill = λ p e w k q h. position_fill-IsHaltedAt g p (λ e w. k e w tt) e w h;
    risk_signal = λ p now e w k q h. risk_signal-IsHaltedAt g p (λ e w. k e w tt) now e w h;
    strategy_tick = λ p now e w k q h. market_data-IsHaltedAt g p (λ e w. k e w tt) now e w h;
    execution_order = λ p e w k q h. k _ _ tt (k _ _ tt h);
    halting = λ w h. (refl, h.1);
    pushing = λ l e w q h. set_queue-IsHaltedAt g l _ w h;
    telling = λ e w q h. h;
    popping = λ l w e rest s h. (tt, set_queue-IsHaltedAt g l rest w h);
    ticking = λ c w h. h;
  }

  -- Once trading is halted, it stays so, and no order id is drawn, over any sequence of turns of the
  -- three loops, whatever is queued and whoever is subscribed where.
  pub run-IsHaltedAt :
      (turns : List (Loop × Timestamp)) (w : TradingEngine F)
      → IsHaltedAt g w
      → IsHaltedAt g (run ticks_per_ms turns w)
  run-IsHaltedAt turns w h =
      run-kept ticks_per_ms AnyEvent (IsHaltedAt g) halt-IsInvariant turns w h

  Admits-All :
      {J : Type 0} (reader : JsonReader J F) (is : List (Input F))
      → All (Admits ticks_per_ms AnyEvent (IsHaltedAt g) halt-IsInvariant reader) is
  Admits-All reader [] = tt
  Admits-All reader (turned l now ∷ is) = (tt, Admits-All reader is)
  Admits-All reader (received payload ∷ is) = ((λ tick e. tt), Admits-All reader is)
  Admits-All reader (pushed e ∷ is) = (tt, Admits-All reader is)
  Admits-All reader (commanded cmd ∷ is) = (tt, Admits-All reader is)

  -- Once trading is halted, no message of the feed, pushed event, command or turn of a loop lifts the
  -- halt or has an order id drawn, in any order of these, whatever is queued and whoever is subscribed.
  pub handle_all-IsHaltedAt :
      {J : Type 0} (reader : JsonReader J F) (is : List (Input F)) (w : TradingEngine F)
      → IsHaltedAt g w
      → IsHaltedAt g (handle_all ticks_per_ms reader is w)
  handle_all-IsHaltedAt reader is w h =
      handle_all-kept ticks_per_ms AnyEvent (IsHaltedAt g) halt-IsInvariant reader is w
        (Admits-All reader is) h

module _ {F : Type 0} ⦃d : Double F⦄ (ticks_per_ms : ℕ) (now : Timestamp) where
  violation-IsHaltedAt :
      (v : RiskViolationEvent F) (w : TradingEngine F)
      → IsHaltedAt w.order_id_gen (publish ticks_per_ms now depth risk (risk_violation v) (wired w))
  unfolding publish EventBus.publish RiskEngine.on_risk_violation
  violation-IsHaltedAt v w = (refl, refl)

  -- After a violation on the risk bus of an engine with the buses of a start with IPC, trading is
  -- halted, and no order id is drawn, over any sequence of turns of the three loops.
  pub run-violated :
      (v : RiskViolationEvent F) (turns : List (Loop × Timestamp)) (w : TradingEngine F)
      → let after = publish ticks_per_ms now depth risk (risk_violation v) (wired w) in
        let end = run ticks_per_ms turns after in
        (end.risk_engine.halt_flag ≡ true) × (end.order_id_gen ≡ w.order_id_gen)
  run-violated v turns w =
      run-IsHaltedAt ticks_per_ms w.order_id_gen turns _ (violation-IsHaltedAt v w)

  -- After a violation on the risk bus of an engine with the buses of a start with IPC, trading is
  -- halted, and no order id is drawn, whatever messages of the feed, pushed events, commands and turns
  -- of the three loops come after, in any order.
  pub handle_all-violated :
      {J : Type 0} (reader : JsonReader J F) (v : RiskViolationEvent F) (is : List (Input F))
      (w : TradingEngine F)
      → let after = publish ticks_per_ms now depth risk (risk_violation v) (wired w) in
        let end = handle_all ticks_per_ms reader is after in
        (end.risk_engine.halt_flag ≡ true) × (end.order_id_gen ≡ w.order_id_gen)
  handle_all-violated reader v is w =
      handle_all-IsHaltedAt ticks_per_ms w.order_id_gen reader is _ (violation-IsHaltedAt v w)
