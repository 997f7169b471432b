-- ===== src/RiskEngine/Limits.antt =====
-- The pre-trade check of the risk engine, and the orders that pass it.
use quant_core_engine.Prelude.{
  ◌≡◌, refl, ◌⊎◌, Bool, true, false, ◌||◌, List, [], ◌∷◌, ◌++◌, arith, if◌then◌else◌,
}
use quant_core_engine.Double.{Double}
use quant_core_engine.Events.{Timestamp, SignalEvent, Event, order_event}
use quant_core_engine.OrderIdGenerator.{OrderIdGenerator, next_id}
use quant_core_engine.PositionEngine.{PositionEngine}
use quant_core_engine.RiskEngine.{RiskEngine, on_signal, exceeds_limit, order_event_of}
use quant_core_engine.RiskEngine.Desk.{Desk, desk}

module _ {F : Type 0} ⦃d : Double F⦄ where
  -- While trading is halted, or if the limit would be passed, a signal changes nothing: no order
  -- goes out and no id is drawn.
  pub signal_refused :
      (now : Timestamp) (e : SignalEvent F) (w : Desk F)
      → (w.engine.halt_flag ≡ true) ⊎ (exceeds_limit w.engine.limits w.positions e ≡ true)
      → on_signal desk now e w ≡ w
  unfolding on_signal
  signal_refused now e w h = ground arith

  -- While trading is not halted, a signal that passes the check becomes one order, which bears the next
  -- id, and nothing else changes.
  pub signal_passed :
      (now : Timestamp) (e : SignalEvent F) (w : Desk F)
      → w.engine.halt_flag ≡ false
      → exceeds_limit w.engine.limits w.positions e ≡ false
      → on_signal desk now e w ≡ record w {
        ids = (next_id w.ids).1;
        log = w.log ++ order_event (order_event_of now w.ids.next e) ∷ [];
      }
  unfolding on_signal next_id
  signal_passed now e w h l = rw (h, l) refl

  unfoldable pub signal_all : List (Timestamp × SignalEvent F) → Desk F → Desk F
  signal_all [] w = w
  signal_all ((now, e) ∷ signals) w = signal_all signals (on_signal desk now e w)

  -- The signals that an engine takes on, each looked at for itself against one set of positions.
  abbrev pub taken :
      RiskEngine F
      → PositionEngine F
      → List (Timestamp × SignalEvent F)
      → List (Timestamp × SignalEvent F)
  taken s positions [] = []
  taken s positions ((now, e) ∷ signals) =
      let rest = taken s positions signals in
      if s.halt_flag || exceeds_limit s.limits positions e then rest else (now, e) ∷ rest

  -- One order for each signal, with the ids in a row, and the generator after them.
  abbrev pub orders_of : OrderIdGenerator → List (Timestamp × SignalEvent F) → List (Event F)
  orders_of g [] = []
  orders_of g ((now, e) ∷ signals) =
      order_event (order_event_of now g.next e) ∷ orders_of (next_id g).1 signals

  abbrev pub drawn : OrderIdGenerator → List (Timestamp × SignalEvent F) → OrderIdGenerator
  drawn g [] = g
  drawn g (s ∷ signals) = drawn (next_id g).1 signals

  abbrev pub placed : List (Timestamp × SignalEvent F) → Desk F → Desk F
  placed signals w = record w { ids = drawn w.ids signals; log = w.log ++ orders_of w.ids signals }

  abbrev refuses : SignalEvent F → Desk F → Bool
  refuses e w = w.engine.halt_flag || exceeds_limit w.engine.limits w.positions e
