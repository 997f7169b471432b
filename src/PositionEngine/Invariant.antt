-- ===== src/PositionEngine/Invariant.antt =====
-- What holds of the positions after any sequence of orders and reports.
use quant_core_engine.Prelude.{
  String, ◌≡◌, refl, ◌∙◌, ◌⊎◌, inl, inr, true, some, arith, nat_eq, string_eq, Option-cases,
  Bool-cases,
}
use quant_core_engine.Double.{Double}
use quant_core_engine.Domain.{Position}
use quant_core_engine.Events.{ExecutionReportEvent, logging}
use quant_core_engine.Table.{find, insert, find-insert}
use quant_core_engine.PositionEngine.{
  PositionEngine, OrderInfo, is_filled, filled_position, position_for, hydrate_position, on_fill,
}
use quant_core_engine.PositionEngine.ApplyFill.{
  apply_fill, increase, decrease, reverse_through_zero,
}
use quant_core_engine.PositionEngine.Fills.{World, cached, fill_skipped, fill_taken}

module _ {F : Type 0} where
  -- Every position stands under its own symbol.
  abbrev pub IsNamed : PositionEngine F → Type 0
  IsNamed s = (k : String) (p : Position F) → find k s.positions ≡ some p → p.symbol ≡ k

  pub insert-IsNamed :
      (s : PositionEngine F) (symbol : String) (pos : Position F)
      → pos.symbol ≡ symbol
      → IsNamed s
      → (k : String) (p : Position F) → find k (insert symbol pos s.positions) ≡ some p
      → p.symbol ≡ k
  insert-IsNamed s symbol pos named v k p e =
      ground (arith, v k p, find-insert symbol k pos s.positions, string_eq.beq_iff symbol k)

  -- Warm-up keeps the positions under their symbols.
  pub hydrate_position-IsNamed :
      (s : PositionEngine F) (pos : Position F) → IsNamed s → IsNamed (hydrate_position pos s)
  unfolding hydrate_position
  hydrate_position-IsNamed s pos v = insert-IsNamed s pos.symbol pos refl v

module _ {F : Type 0} ⦃d : Double F⦄ where
  symbol-apply_fill : (pos : Position F) (q p : F) → (apply_fill pos q p).symbol ≡ pos.symbol
  unfolding apply_fill increase decrease reverse_through_zero
  symbol-apply_fill pos q p = ground arith

  symbol-position_for :
      (symbol : String) (s : PositionEngine F) → IsNamed s → (position_for symbol s).symbol ≡ symbol
  unfolding position_for
  symbol-position_for symbol s v = elim (Option-cases (find symbol s.positions)) [
    | inl e ↦ rw (e, position_for) refl
    | inr (p, e) ↦ rw (e, position_for) (ground (arith, v symbol p e))
  ]

  pub symbol-filled_position :
      (event : ExecutionReportEvent F) (info : OrderInfo) (s : PositionEngine F)
      → IsNamed s
      → (filled_position event info s).symbol ≡ info.symbol
  unfolding filled_position
  symbol-filled_position event info s v =
      symbol-apply_fill (position_for info.symbol s) _ event.fill_price
      ∙ symbol-position_for info.symbol s v

  -- A report is skipped, or it fills a known order.
  pub fill_cases :
      (event : ExecutionReportEvent F) (w : World F)
      → (on_fill logging event w ≡ w)
        ⊎ ((info : OrderInfo) × (is_filled event.status ≡ true)
            × (cached w event.order_id ≡ some info))
  fill_cases event w = elim (Bool-cases (is_filled event.status)) [
    | inr f ↦ inl (fill_skipped event w (inl f))
    | inl f ↦ elim (Option-cases (cached w event.order_id)) [
      | inl e ↦ inl (fill_skipped event w (inr e))
      | inr (info, e) ↦ inr (info, f, e)
    ]
  ]

  -- If every position stands under its own symbol, it does so after a report of any kind.
  pub on_fill-IsNamed :
      (event : ExecutionReportEvent F) (w : World F)
      → IsNamed w.0
      → IsNamed (on_fill logging event w).0
  on_fill-IsNamed event w v = elim (fill_cases event w) [
    | inl e ↦ rw e v
    | inr (info, f, e) ↦ rw (fill_taken event w info f e) (
        insert-IsNamed w.0 info.symbol (filled_position event info w.0)
          (symbol-filled_position event info w.0 v) v)
  ]
