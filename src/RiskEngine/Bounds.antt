-- ===== src/RiskEngine/Bounds.antt =====
-- The risk engine and the position engine together, when each order is filled before the next signal
-- is looked at: what the limit per symbol then bounds.
use quant_core_engine.Prelude.{
  String, ◌≡◌, refl, sym, ap, ◌∙◌, true, false, Option, none, some, List, [], ◌∷◌, nat_eq,
  string_eq, inl, inr, Bool-cases, get_or, ==_self, ◌==◌, if◌then◌else◌,
}
use mathlib.Core.Path.{subst}
use quant_core_engine.Double.{Double, lit, ◌+◌, abs, ◌≤?◌}
use quant_core_engine.Double.Exact.{IsExact}
use quant_core_engine.Double.Ordered.{IsOrdered}
use quant_core_engine.Domain.{OrderId, Position, Side, buy, sell, RiskLimits, new_position}
use quant_core_engine.Events.{Timestamp, SignalEvent, OrderEvent, Event, order_event, logging}
use quant_core_engine.Table.{find}
use quant_core_engine.OrderIdGenerator.{next_id}
use quant_core_engine.PositionEngine.{PositionEngine, position, is_filled, order_info}
use quant_core_engine.PositionEngine.Ledger.{
  placed, reported, handle_all, moved, net_of, ledger-handle_all,
}
use quant_core_engine.Execution.{fill_report}
use quant_core_engine.RiskEngine.{
  RiskHost, on_signal, exceeds_limit, current_quantity, order_event_of,
}
use quant_core_engine.RiskEngine.Desk.{Desk}

module _ {F : Type 0} ⦃d : Double F⦄ where
  -- The books after an order and its fill.
  unfoldable pub settled : Timestamp → OrderEvent F → PositionEngine F → PositionEngine F
  settled now o s = (handle_all logging (placed o ∷ reported (fill_report now o) ∷ []) (s, [])).0

  unfoldable pub publish_settled : Timestamp → Event F → Desk F → Desk F
  publish_settled now (order_event o) w = record w { positions = settled now o w.positions }
  publish_settled now e w = w

  -- A desk on which what is published as an order is filled at once.
  abbrev pub settling : Timestamp → RiskHost (Desk F) F
  settling now = record {
    host = record {
      get = λ w. w.engine;
      put = λ s w. record w { engine = s };
      publish = publish_settled now;
    };
    draw_id = λ w. ((next_id w.ids).0, record w { ids = (next_id w.ids).1 });
    positions = λ w. w.positions;
  }

  unfoldable pub trade_all : List (Timestamp × SignalEvent F) → Desk F → Desk F
  trade_all [] w = w
  trade_all ((now, e) ∷ signals) w = trade_all signals (on_signal (settling now) now e w)

  -- No symbol's net quantity is further from zero than the limit.
  abbrev pub IsWithin : F → PositionEngine F → Type 0
  IsWithin limit s = (symbol : String) → (abs (net_of s symbol) ≤? limit) ≡ true

  module _ (x : IsExact F) (y : IsOrdered F) where
    net_of-settled :
        (now : Timestamp) (o : OrderEvent F) (s : PositionEngine F) (symbol : String)
        → net_of (settled now o s) symbol ≡ (
            if o.order.symbol == symbol
            then moved o.order.side (net_of s symbol) o.order.quantity
            else net_of s symbol)
    unfolding settled is_filled fill_report order_info
    net_of-settled now o s symbol =
        ap (λ l. l.net symbol)
          (ledger-handle_all x (placed o ∷ reported (fill_report now o) ∷ []) (s, []))
        ∙ rw (==_self o.order.id) refl

    current_quantity-found :
        (found : Option (Position F))
        → current_quantity found ≡ abs (get_or new_position found).net_quantity
    unfolding current_quantity
    current_quantity-found none = sym x.abs-zero
    current_quantity-found (some p) = refl

    moved_bound : (side : Side) (net : F) → (abs (moved side net (lit 1)) ≤? abs net + lit 1) ≡ true
    moved_bound buy net = y.abs-add-one net
    moved_bound sell net = y.abs-sub-one net

    settled-IsWithin :
        (now : Timestamp) (id : OrderId) (e : SignalEvent F) (limits : RiskLimits F)
        (s : PositionEngine F)
        → exceeds_limit limits s e ≡ false
        → IsWithin limits.max_position_per_symbol s
        → IsWithin limits.max_position_per_symbol (settled now (order_event_of now id e) s)
    unfolding exceeds_limit order_event_of position
    settled-IsWithin now id e limits s under v symbol = elim (Bool-cases (e.symbol == symbol)) [
      | inr other ↦ rw (net_of-settled now (order_event_of now id e) s symbol) (rw other (v symbol))
      | inl same ↦
          (let allowed =
              subst (λ q. (q + lit 1 ≤? limits.max_position_per_symbol) ≡ true)
                (current_quantity-found (find e.symbol s.positions)) (y.le_of_not_lt _ _ under) in
            rw (net_of-settled now (order_event_of now id e) s symbol) (
              rw same (
                y.le_trans _ _ _ (moved_bound e.side (net_of s symbol)) (
                  subst (λ k. (abs (net_of s k) + lit 1 ≤? limits.max_position_per_symbol) ≡ true)
                    ((string_eq.beq_iff e.symbol symbol).0 same) allowed))))
    ]

    signal-IsWithin :
        (now : Timestamp) (e : SignalEvent F) (w : Desk F)
        → IsWithin w.engine.limits.max_position_per_symbol w.positions
        → let after = on_signal (settling now) now e w in
          IsWithin w.engine.limits.max_position_per_symbol after.positions
          × (after.engine ≡ w.engine)
    unfolding on_signal publish_settled next_id
    signal-IsWithin now e w v = elim (Bool-cases w.engine.halt_flag) [
      | inl halted ↦ rw (halted, on_signal) (v, refl)
      | inr open_now ↦ elim (Bool-cases (exceeds_limit w.engine.limits w.positions e)) [
        | inl over ↦ rw (open_now, on_signal) (rw over (v, refl))
        | inr under ↦
            rw (open_now, on_signal)
              (rw under
                (settled-IsWithin now w.ids.next e w.engine.limits w.positions under v, refl))
      ]
    ]

    -- In exact arithmetic, if every order is filled before the next signal is looked at, no sequence of
    -- signals takes the net quantity of any symbol further from zero than the limit, if none is at first.
    pub trade_all-IsWithin :
        (signals : List (Timestamp × SignalEvent F)) (w : Desk F)
        → IsWithin w.engine.limits.max_position_per_symbol w.positions
        → IsWithin w.engine.limits.max_position_per_symbol (trade_all signals w).positions
    unfolding trade_all
    trade_all-IsWithin [] w v = v
    trade_all-IsWithin ((now, e) ∷ signals) w v =
        let (within, same) = signal-IsWithin now e w v in
        let after = on_signal (settling now) now e w in
        subst (λ g. IsWithin g.limits.max_position_per_symbol (trade_all signals after).positions)
          same
          (trade_all-IsWithin signals after (
            subst (λ g. IsWithin g.limits.max_position_per_symbol after.positions) (sym same)
              within))
