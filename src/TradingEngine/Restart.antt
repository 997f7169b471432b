-- ===== src/TradingEngine/Restart.antt =====
-- What is subscribed after `start`, and after the engine was stopped and started again.
use quant_core_engine.Prelude.{
  ℕ, ◌≡◌, refl, ap, ◌∙◌, Bool, true, false, Option, none, some, List, [], ◌∷◌, if◌then◌else◌,
}
use quant_core_engine.Double.{Double, lit, ◌≤?◌}
use quant_core_engine.Domain.{Order, Position}
use quant_core_engine.Events.{Timestamp, MarketDataEvent, Event, signal}
use quant_core_engine.EventBus.{Bus, SubscriptionId, subscribe, unsubscribe, new_bus, remove_id}
use quant_core_engine.EventBus
use quant_core_engine.ThreadSafeQueue.{push, try_pop}
use quant_core_engine.DummyStrategy.{on_market_data, signal_of}
use quant_core_engine.TradingEngine.World.{
  strategy, Callback, strategy_on_market_data, forward_signal, TradingEngine, publish,
}
use quant_core_engine.TradingEngine.Wiring.{
  Reconciled, start, stop, new_engine, wire, create_position_engine, create_order_tracker,
  shut_down, reconcile, hydrate_positions, hydrate_orders,
}
use quant_core_engine.TradingEngine.Turns.{push_market_data, turn}

-- What the strategy side of the engine holds.
record Side (F : Type 0) : Type 0 where
  bus : Bus Callback
  sub_id : SubscriptionId
  strategy_items : List (Event F)
  risk_items : List (Event F)
  running : Bool

module _ {F : Type 0} where
  abbrev side : TradingEngine F → Side F
  side w = record {
    bus = w.strategy_bus;
    sub_id = w.strategy_sub_id;
    strategy_items = w.strategy_queue.items;
    risk_items = w.risk_queue.items;
    running = w.running;
  }

  side-hydrate_positions :
      (ps : List (Position F)) (w : TradingEngine F) → side (hydrate_positions ps w) ≡ side w
  unfolding hydrate_positions
  side-hydrate_positions [] w = refl
  side-hydrate_positions (p ∷ ps) w = side-hydrate_positions ps _

  side-hydrate_orders :
      (os : List (Order F)) (w : TradingEngine F) → side (hydrate_orders os w) ≡ side w
  unfolding hydrate_orders
  side-hydrate_orders [] w = refl
  side-hydrate_orders (o ∷ os) w = side-hydrate_orders os _

  side-reconcile : (r : Option (Reconciled F)) (w : TradingEngine F) → side (reconcile r w) ≡ side w
  unfolding reconcile
  side-reconcile none w = refl
  side-reconcile (some r) w = side-hydrate_orders r.orders _ ∙ side-hydrate_positions r.positions w

module _ {F : Type 0} ⦃d : Double F⦄ where
  -- The two subscriptions that `start` makes on the strategy bus.
  started : Side F → Side F
  started s =
      let (forward, b) = subscribe forward_signal s.bus in
      let (own, b') = subscribe strategy_on_market_data b in
      record s { bus = b'; sub_id = own; running = true }

  side-wire :
      (ipc : Bool) (r : Option (Reconciled F)) (w : TradingEngine F)
      → side (wire ipc r w) ≡ started (side w)
  unfolding wire started
  side-wire true r w =
      ap started (side-reconcile r (create_position_engine (create_order_tracker w)))
  side-wire false r w =
      ap started (side-reconcile r (create_position_engine (create_order_tracker w)))

  side-start :
      (ipc : Bool) (r : Option (Reconciled F)) (w : TradingEngine F)
      → w.running ≡ false
      → side (start ipc r w) ≡ started (side w)
  unfolding start
  side-start ipc r w h = ap (λ b. side (if b then w else wire ipc r w)) h ∙ side-wire ipc r w

  -- `stop` takes the strategy off its bus, and leaves the bridge.
  stopped : Side F → Side F
  stopped s = record s { bus = unsubscribe s.sub_id s.bus; running = false }

  side-stop : (w : TradingEngine F) → w.running ≡ true → side (stop w) ≡ stopped (side w)
  unfolding stop stopped shut_down
  side-stop w h = ap (λ b. side (if b then shut_down w else w)) h

  abbrev pub restarted : Bool → Option (Reconciled F) → Option (Reconciled F) → TradingEngine F
  restarted ipc r r' = start ipc r' (stop (start ipc r new_engine))

  side-started :
      (ipc : Bool) (r : Option (Reconciled F))
      → side (start ipc r new_engine) ≡ started (side new_engine)
  unfolding new_engine
  side-started ipc r = side-start ipc r new_engine refl

  side-stopped :
      (ipc : Bool) (r : Option (Reconciled F))
      → side (stop (start ipc r new_engine)) ≡ stopped (started (side new_engine))
  unfolding started
  side-stopped ipc r =
      side-stop (start ipc r new_engine) (ap (λ (s : Side F). s.running) (side-started ipc r))
      ∙ ap stopped (side-started ipc r)

  side-restarted :
      (ipc : Bool) (r r' : Option (Reconciled F))
      → side (restarted ipc r r') ≡ started (stopped (started (side new_engine)))
  unfolding stopped
  side-restarted ipc r r' =
      side-start ipc r' (stop (start ipc r new_engine))
        (ap (λ (s : Side F). s.running) (side-stopped ipc r))
      ∙ ap started (side-stopped ipc r)

  module _ (ticks_per_ms : ℕ) (now : Timestamp) (e : MarketDataEvent F) where
    abbrev pub after_tick : TradingEngine F → List (Event F)
    after_tick w = (turn ticks_per_ms strategy now (push_market_data e w)).risk_queue.items

    rebuilt : TradingEngine F → Side F → TradingEngine F
    rebuilt w s = record w {
      strategy_bus = s.bus;
      strategy_queue = record { items = s.strategy_items };
      risk_queue = record { items = s.risk_items };
      strategy_sub_id = s.sub_id;
      running = s.running;
    }

    tick_of_side :
        (w : TradingEngine F) (s : Side F) → side w ≡ s → after_tick w ≡ after_tick (rebuilt w s)
    unfolding rebuilt
    tick_of_side w s p = ap (λ t. after_tick (rebuilt w t)) p

    tick_started :
        (w : TradingEngine F)
        → (e.price ≤? lit 0) ≡ false
        → after_tick (rebuilt w (started (side new_engine))) ≡ signal (signal_of now e) ∷ []
    unfolding turn push_market_data publish started new_engine subscribe push try_pop on_market_data
        EventBus.publish rebuilt
    tick_started w high = rw (high, after_tick, on_market_data) refl

    tick_restarted :
        (w : TradingEngine F)
        → (e.price ≤? lit 0) ≡ false
        → after_tick (rebuilt w (started (stopped (started (side new_engine)))))
          ≡ signal (signal_of now e) ∷ signal (signal_of now e) ∷ []
    unfolding turn push_market_data publish started stopped new_engine subscribe unsubscribe push
        try_pop on_market_data EventBus.publish rebuilt
    tick_restarted w high = rw (high, after_tick, on_market_data) refl

    -- After the first start, a tick with a positive price puts one signal on the risk loop's queue,
    -- with and without IPC, and whatever was reconciled.
    pub tick-start :
        (ipc : Bool) (r : Option (Reconciled F))
        → (e.price ≤? lit 0) ≡ false
        → after_tick (start ipc r new_engine) ≡ signal (signal_of now e) ∷ []
    tick-start ipc r high =
        tick_of_side _ _ (side-started ipc r) ∙ tick_started (start ipc r new_engine) high

    -- After `start`, `stop` and `start`, a tick with a positive price puts the same signal on the
    -- risk loop's queue twice, with and without IPC, and whatever was reconciled.
    pub tick-restarted :
        (ipc : Bool) (r r' : Option (Reconciled F))
        → (e.price ≤? lit 0) ≡ false
        → after_tick (restarted ipc r r') ≡ signal (signal_of now e) ∷ signal (signal_of now e) ∷ []
    tick-restarted ipc r r' high =
        tick_of_side _ _ (side-restarted ipc r r') ∙ tick_restarted (restarted ipc r r') high
