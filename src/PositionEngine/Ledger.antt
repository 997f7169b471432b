-- ===== src/PositionEngine/Ledger.antt =====
-- What the position engine promises, with the tables left out: which orders are still to be filled,
-- and the net quantity of each symbol.
use quant_core_engine.Prelude.{
  String, ◌≡◌, refl, sym, ap, ◌∙◌, inl, inr, true, Option, none, some, List, [], ◌∷◌, arith, ◌==◌,
  nat_eq, string_eq, if◌then◌else◌, get_or, Bool-cases, Option-cases,
}
use mathlib.Core.Path.{fun_ext}
use quant_core_engine.Double.{Double, ◌+◌, ◌-◌}
use quant_core_engine.Double.Exact.{IsExact}
use quant_core_engine.Domain.{OrderId, Side, buy, sell, new_position}
use quant_core_engine.Events.{OrderEvent, ExecutionReportEvent, Host, logging}
use quant_core_engine.Table.{find, insert, find-insert, find-erase}
use quant_core_engine.PositionEngine.{
  PositionEngine, OrderInfo, is_filled, order_info, filled_position, position_for, signed_quantity,
  on_order, on_fill,
}
use quant_core_engine.PositionEngine.Accounting.{net_quantity-apply_fill}
use quant_core_engine.PositionEngine.Fills.{World, cached, order_cached, fill_skipped, fill_taken}

pub data Input (F : Type 0) : Type 0 where
  placed : OrderEvent F → Input F
  reported : ExecutionReportEvent F → Input F

pub record Ledger (F : Type 0) : Type 0 where
  pub awaiting : OrderId → Option OrderInfo
  pub net : String → F

module _ {F : Type 0} ⦃d : Double F⦄ where
  module _ {W : Type 0} (h : Host (PositionEngine F) W F) where
    unfoldable pub handle : Input F → W → W
    handle (placed e) w = on_order h e w
    handle (reported e) w = on_fill h e w

    unfoldable pub handle_all : List (Input F) → W → W
    handle_all [] w = w
    handle_all (i ∷ is) w = handle_all is (handle i w)

  -- What a fill of a buy or of a sell order leaves of a net quantity.
  abbrev pub moved : Side → F → F → F
  moved buy net quantity = net + quantity
  moved sell net quantity = net - quantity

  -- An order waits for its fill; a fill of a waiting order moves its symbol, and ends the wait.
  abbrev pub settle : ExecutionReportEvent F → Ledger F → Option OrderInfo → Ledger F
  settle e l none = l
  settle e l (some info) = record {
    awaiting = λ id. if e.order_id == id then none else l.awaiting id;
    net = λ symbol.
        if info.symbol == symbol
        then moved info.side (l.net symbol) e.filled_quantity
        else l.net symbol;
  }

  abbrev pub record_input : Input F → Ledger F → Ledger F
  record_input (placed e) l = record l {
    awaiting = λ id. if e.order.id == id then some (order_info e) else l.awaiting id;
  }
  record_input (reported e) l = if is_filled e.status then settle e l (l.awaiting e.order_id) else l

  abbrev pub record_all : List (Input F) → Ledger F → Ledger F
  record_all [] l = l
  record_all (i ∷ is) l = record_all is (record_input i l)

  abbrev pub net_of : PositionEngine F → String → F
  net_of s symbol = (get_or new_position (find symbol s.positions)).net_quantity

  abbrev pub ledger : World F → Ledger F
  ledger w = record { awaiting = cached w; net = net_of w.0 }

  net_quantity-position_for :
      (s : PositionEngine F) (symbol : String)
      → (position_for symbol s).net_quantity ≡ net_of s symbol
  unfolding position_for
  net_quantity-position_for s symbol = ground arith

  ledger-on_order :
      (e : OrderEvent F) (w : World F)
      → ledger (on_order logging e w) ≡ record_input (placed e) (ledger w)
  ledger-on_order e w = λ i. record {
    awaiting = fun_ext (λ id. (order_cached e w id).0) i;
    net = λ symbol. (get_or new_position (find symbol ((order_cached e w 0).1 i))).net_quantity;
  }

  module _ (x : IsExact F) where
    add-signed_quantity :
        (side : Side) (net quantity : F)
        → net + signed_quantity side quantity ≡ moved side net quantity
    unfolding signed_quantity
    add-signed_quantity buy net quantity = refl
    add-signed_quantity sell net quantity = sym (x.sub-eq-add-neg net quantity)

    net_quantity-filled_position :
        (e : ExecutionReportEvent F) (info : OrderInfo) (s : PositionEngine F)
        → (filled_position e info s).net_quantity
          ≡ moved info.side (net_of s info.symbol) e.filled_quantity
    unfolding filled_position
    net_quantity-filled_position e info s =
        net_quantity-apply_fill x (position_for info.symbol s) _ e.fill_price
        ∙ ap (λ t. t + signed_quantity info.side e.filled_quantity)
            (net_quantity-position_for s info.symbol)
        ∙ add-signed_quantity info.side (net_of s info.symbol) e.filled_quantity

    net_of-fill :
        (e : ExecutionReportEvent F) (info : OrderInfo) (s : PositionEngine F) (symbol : String)
        → let pos = filled_position e info s in
          (get_or new_position (find symbol (insert info.symbol pos s.positions))).net_quantity ≡ (
            if info.symbol == symbol
            then moved info.side (net_of s symbol) e.filled_quantity
            else net_of s symbol)
    net_of-fill e info s symbol = ground (
      arith,
      find-insert info.symbol symbol (filled_position e info s) s.positions,
      net_quantity-filled_position e info s,
      string_eq.beq_iff info.symbol symbol,
    )

    ledger-fill :
        (e : ExecutionReportEvent F) (w : World F) (info : OrderInfo)
        → is_filled e.status ≡ true
        → cached w e.order_id ≡ some info
        → ledger (on_fill logging e w) ≡ settle e (ledger w) (some info)
    ledger-fill e w info f k = ap ledger (fill_taken e w info f k) ∙ λ i. record {
      awaiting = fun_ext (λ id. find-erase e.order_id id w.0.order_cache) i;
      net = fun_ext (net_of-fill e info w.0) i;
    }

    -- Each handler does to the ledger what the specification says.
    ledger-handle :
        (i : Input F) (w : World F) → ledger (handle logging i w) ≡ record_input i (ledger w)
    unfolding handle
    ledger-handle (placed e) w = ledger-on_order e w
    ledger-handle (reported e) w = elim (Bool-cases (is_filled e.status)) [
      | inr other ↦ rw other (ap ledger (fill_skipped e w (inl other)))
      | inl filled ↦ elim (Option-cases (cached w e.order_id)) [
        | inl unknown ↦ rw (filled, unknown) (ap ledger (fill_skipped e w (inr unknown)))
        | inr (info, known) ↦ rw (filled, known) (ledger-fill e w info filled known)
      ]
    ]

    -- Over any sequence of orders and reports, in exact arithmetic, the engine implements the ledger:
    -- the orders that it waits for and the net quantity of each symbol are those that the ledger
    -- records.
    pub ledger-handle_all :
        (is : List (Input F)) (w : World F)
        → ledger (handle_all logging is w) ≡ record_all is (ledger w)
    unfolding handle_all
    ledger-handle_all [] w = refl
    ledger-handle_all (i ∷ is) w =
        ledger-handle_all is (handle logging i w) ∙ ap (record_all is) (ledger-handle i w)
