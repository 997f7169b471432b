-- ===== src/PositionEngine/History.antt =====
-- A symbol's whole history of fills, in exact arithmetic: what the books say at its end.
use quant_core_engine.Prelude.{◌≡◌, refl, sym, ap, ◌∙◌, List, [], ◌∷◌}
use quant_core_engine.Double.{Double, lit, ◌+◌, ◌-◌, ◌*◌, neg}
use quant_core_engine.Double.Exact.{IsExact, zero-add, zero-mul, neg-zero, neg-neg}
use quant_core_engine.Domain.{Position, new_position}
use quant_core_engine.PositionEngine.ApplyFill.{apply_fill}
use quant_core_engine.PositionEngine.Accounting.{
  cost, IsExactAverage, net_quantity-apply_fill, cost-apply_fill,
}

module _ {F : Type 0} ⦃d : Double F⦄ where
  -- Signed quantities with their prices, oldest first.
  unfoldable pub apply_fills : Position F → List (F × F) → Position F
  apply_fills pos [] = pos
  apply_fills pos ((q, p) ∷ fills) = apply_fills (apply_fill pos q p) fills

  -- What the fills add up to, and what they are worth.
  abbrev pub quantity_of : List (F × F) → F
  quantity_of [] = lit 0
  quantity_of ((q, p) ∷ fills) = q + quantity_of fills

  abbrev pub value_of : List (F × F) → F
  value_of [] = lit 0
  value_of ((q, p) ∷ fills) = q * p + value_of fills

  abbrev pub IsExactHistory : Position F → List (F × F) → Type 0
  IsExactHistory pos [] = Unit
  IsExactHistory pos ((q, p) ∷ fills) =
      IsExactAverage pos q p × IsExactHistory (apply_fill pos q p) fills

  module _ (x : IsExact F) where
    -- In exact arithmetic, any sequence of fills adds the sum of their signed quantities to the net
    -- quantity, through every close and reversal.
    pub net_quantity-apply_fills :
        (pos : Position F) (fills : List (F × F))
        → (apply_fills pos fills).net_quantity ≡ pos.net_quantity + quantity_of fills
    unfolding apply_fills
    net_quantity-apply_fills pos [] = sym (x.add-zero pos.net_quantity)
    net_quantity-apply_fills pos ((q, p) ∷ fills) =
        net_quantity-apply_fills (apply_fill pos q p) fills
        ∙ ap (λ t. t + quantity_of fills) (net_quantity-apply_fill x pos q p)
        ∙ x.add_assoc pos.net_quantity q (quantity_of fills)

    -- In exact arithmetic, any sequence of fills adds what they are worth to the cost, if each
    -- average was exact.
    pub cost-apply_fills :
        (pos : Position F) (fills : List (F × F))
        → IsExactHistory pos fills
        → cost (apply_fills pos fills) ≡ cost pos + value_of fills
    unfolding apply_fills
    cost-apply_fills pos [] h = sym (x.add-zero (cost pos))
    cost-apply_fills pos ((q, p) ∷ fills) h =
        cost-apply_fills (apply_fill pos q p) fills h.1
        ∙ ap (λ t. t + value_of fills) (cost-apply_fill x pos q p h.0)
        ∙ x.add_assoc (cost pos) (q * p) (value_of fills)

    cost-flat : (pos : Position F) → pos.net_quantity ≡ lit 0 → cost pos ≡ neg pos.realized_pnl
    cost-flat pos e =
        ap (λ t. t * pos.average_price - pos.realized_pnl) e
        ∙ ap (λ t. t - pos.realized_pnl) (zero-mul x pos.average_price)
        ∙ x.sub-eq-add-neg (lit 0) pos.realized_pnl
        ∙ zero-add x (neg pos.realized_pnl)

    -- In exact arithmetic, a symbol that starts without a position and ends flat has earned what
    -- its sales brought in beyond what its purchases cost, if each average was exact.
    pub realized_pnl-flat :
        (fills : List (F × F))
        → IsExactHistory new_position fills
        → quantity_of fills ≡ lit 0
        → (apply_fills new_position fills).realized_pnl ≡ neg (value_of fills)
    realized_pnl-flat fills h flat =
        let end = apply_fills new_position fills in
        let ended = net_quantity-apply_fills new_position fills ∙ zero-add x _ ∙ flat in
        let opened = cost-flat new_position refl ∙ neg-zero x in
        let earned =
          sym (cost-flat end ended)
          ∙ cost-apply_fills new_position fills h
          ∙ ap (λ t. t + value_of fills) opened
          ∙ zero-add x (value_of fills) in
        sym (neg-neg x end.realized_pnl) ∙ ap neg earned
