-- ===== src/PositionEngine/Accounting.antt =====
-- The money that `applyFill` accounts for, in exact arithmetic. The cost of a position is its
-- quantity at its average price, less the profit taken so far.
use quant_core_engine.Prelude.{◌≡◌, refl, sym, ap, ◌∙◌, inl, inr, true, false, arith, Bool-cases}
use quant_core_engine.Double.{Double, lit, ◌+◌, ◌-◌, ◌*◌, ◌/◌, neg, abs, ◌<?◌, ◌≤?◌, ◌==◌}
use quant_core_engine.Double.Exact.{
  IsExact, zero-add, neg-zero, neg-neg, neg-mul, mul-neg-one, add-mul, mul-sub, sub_swap, zero-mul,
  one-mul, sub_turn, neg-neg_sub, sub-neg, add_sub_right_comm,
}
use quant_core_engine.Domain.{Position}
use quant_core_engine.PositionEngine.ApplyFill.{
  same_direction, direction_sign, increase, decrease, reverse_through_zero, apply_fill,
}

module _ {F : Type 0} ⦃d : Double F⦄ where
  abbrev pub cost : Position F → F
  cost pos = pos.net_quantity * pos.average_price - pos.realized_pnl

  -- The division of a weighted average loses nothing.
  abbrev pub IsExactAverage : Position F → F → F → Type 0
  IsExactAverage pos q p =
      same_direction pos.net_quantity q ≡ true
      → (pos.net_quantity + q)
          * ((pos.net_quantity * pos.average_price + q * p) / (pos.net_quantity + q))
        ≡ pos.net_quantity * pos.average_price + q * p

  module _ (x : IsExact F) where
    -- The four ways through `applyFill`, with what the tests on them say.
    apply_fill_cases :
        (P : Position F → Type 0) (pos : Position F) (q p : F)
        → ((pos.net_quantity == lit 0) ≡ true
            → P (record pos { net_quantity = q; average_price = p }))
        → (same_direction pos.net_quantity q ≡ true → P (increase pos q p))
        → ((pos.net_quantity == lit 0) ≡ false
            → same_direction pos.net_quantity q ≡ false
            → P (decrease pos q p))
        → ((pos.net_quantity == lit 0) ≡ false
            → same_direction pos.net_quantity q ≡ false
            → (abs q ≤? abs pos.net_quantity) ≡ false
            → P (reverse_through_zero pos q p))
        → P (apply_fill pos q p)
    unfolding apply_fill
    apply_fill_cases P pos q p f i c r = elim (Bool-cases (pos.net_quantity == lit 0)) [
      | inl flat ↦ rw flat (f flat)
      | inr held ↦ elim (Bool-cases (same_direction pos.net_quantity q)) [
        | inl same ↦ rw (held, same) (i same)
        | inr other ↦ elim (Bool-cases (abs q ≤? abs pos.net_quantity)) [
          | inl less ↦ rw (held, other, less) (c held other)
          | inr more ↦ rw (held, other, more) (r held other more)
        ]
      ]
    ]

    not-lt_of_lt : (a : F) → (a <? lit 0) ≡ true → (lit 0 <? a) ≡ false
    not-lt_of_lt a h = elim (Bool-cases (lit 0 <? a)) [
      | inl up ↦ absurd (ground (arith, x.lt_asymm a up))
      | inr down ↦ down
    ]

    neg-mul-neg-one : (a b : F) → neg a * b * neg (lit 1) ≡ a * b
    neg-mul-neg-one a b = mul-neg-one x (neg a * b) ∙ ap neg (neg-mul x a b) ∙ neg-neg x (a * b)

    -- |a| * sign(a) = a.
    abs-mul-direction_sign : (a b : F) → (a == lit 0) ≡ false → abs a * b * direction_sign a ≡ a * b
    unfolding direction_sign
    abs-mul-direction_sign a b h = elim (x.lt_total a h) [
      | inl up ↦ rw (up, x.abs_of_pos a up) (x.mul-one (a * b))
      | inr down ↦ rw (not-lt_of_lt a down, x.abs_of_neg a down) (neg-mul-neg-one a b)
    ]

    -- What a fill against the position closes is the opposite of the fill.
    abs-mul-opposite :
        (c q b : F)
        → (c == lit 0) ≡ false
        → same_direction c q ≡ false
        → abs q * b * direction_sign c ≡ neg (q * b)
    unfolding direction_sign same_direction
    abs-mul-opposite c q b h s = elim (Bool-cases (q == lit 0)) [
      | inl none_filled ↦ (zero_filled ((x.eq_iff q (lit 0)).0 none_filled))
      | inr some_filled ↦ elim (x.lt_total c h) [
        | inl up ↦ elim (x.lt_total q some_filled) [
          | inl fill_up ↦ absurd (ground arith)
          | inr fill_down ↦
              rw (up, x.abs_of_neg q fill_down) (x.mul-one (neg q * b) ∙ neg-mul x q b)
        ]
        | inr down ↦ elim (x.lt_total q some_filled) [
          | inl fill_up ↦ rw (not-lt_of_lt c down, x.abs_of_pos q fill_up) (mul-neg-one x (q * b))
          | inr fill_down ↦ absurd (ground (arith, not-lt_of_lt c down))
        ]
      ]
    ]
      where
        zero_filled : q ≡ lit 0 → abs q * b * direction_sign c ≡ neg (q * b)
        zero_filled e =
            rw (e, x.abs-zero, zero-mul x b, zero-mul x (direction_sign c)) (sym (neg-zero x))

    -- A fill that is larger than the position leaves what the two add up to.
    turned-net :
        (c q : F)
        → (c == lit 0) ≡ false
        → same_direction c q ≡ false
        → (abs q ≤? abs c) ≡ false
        → direction_sign q * (abs q - abs c) ≡ c + q
    unfolding direction_sign same_direction
    turned-net c q h s m = elim (Bool-cases (q == lit 0)) [
      | inl none_filled ↦
          absurd (ground (arith, (x.eq_iff q (lit 0)).0, x.abs-zero, x.zero-le-abs c))
      | inr some_filled ↦ elim (x.lt_total c h) [
        | inl up ↦ elim (x.lt_total q some_filled) [
          | inl fill_up ↦ absurd (ground arith)
          | inr fill_down ↦
              rw (not-lt_of_lt q fill_down, x.abs_of_neg q fill_down, x.abs_of_pos c up)
                (x.mul_comm (neg (lit 1)) (neg q - c)
                  ∙ mul-neg-one x (neg q - c)
                  ∙ neg-neg_sub x c q)
        ]
        | inr down ↦ elim (x.lt_total q some_filled) [
          | inl fill_up ↦
              rw (fill_up, x.abs_of_pos q fill_up, x.abs_of_neg c down)
                (one-mul x (q - neg c) ∙ sub-neg x c q)
          | inr fill_down ↦ absurd (ground (arith, not-lt_of_lt c down))
        ]
      ]
    ]

    -- In exact arithmetic every fill moves the net quantity by exactly its signed quantity.
    pub net_quantity-apply_fill :
        (pos : Position F) (q p : F) → (apply_fill pos q p).net_quantity ≡ pos.net_quantity + q
    unfolding increase decrease reverse_through_zero
    net_quantity-apply_fill pos q p =
        apply_fill_cases (λ r. r.net_quantity ≡ pos.net_quantity + q) pos q p
          (λ flat. sym (zero-add x q) ∙ ap (λ t. t + q) (sym ((x.eq_iff _ _).0 flat))) (λ s. refl)
          (λ h s. refl) (λ h s m. turned-net pos.net_quantity q h s m)

    module _ (pos : Position F) (q p : F) where
      open pos use {net_quantity as c, average_price as avg, realized_pnl as pnl}

      cost-opened : (c == lit 0) ≡ true → q * p - pnl ≡ cost pos + q * p
      cost-opened flat =
          ap (λ t. t - pnl) (sym (zero-add x (q * p)))
          ∙ add_sub_right_comm x (lit 0) (q * p) pnl
          ∙ ap (λ t. t - pnl + q * p)
              (sym (zero-mul x avg) ∙ ap (λ t. t * avg) (sym ((x.eq_iff _ _).0 flat)))

      cost-increase :
          IsExactAverage pos q p
          → same_direction c q ≡ true
          → cost (increase pos q p) ≡ cost pos + q * p
      unfolding increase
      cost-increase exact s =
          ap (λ t. t - pnl) (exact s) ∙ add_sub_right_comm x (c * avg) (q * p) pnl

      cost-decrease :
          (c == lit 0) ≡ false
          → same_direction c q ≡ false
          → cost (decrease pos q p) ≡ cost pos + q * p
      unfolding decrease
      cost-decrease h s =
          ap (λ t. (c + q) * avg - (pnl + t))
            (abs-mul-opposite c q (p - avg) h s ∙ ap neg (mul-sub x q p avg))
          ∙ ap (λ t. t - (pnl + neg (q * p + neg (q * avg)))) (add-mul x c q avg)
          ∙ sub_swap x (c * avg) (q * avg) pnl (q * p)

      cost-reverse_through_zero :
          (c == lit 0) ≡ false
          → same_direction c q ≡ false
          → (abs q ≤? abs c) ≡ false
          → cost (reverse_through_zero pos q p) ≡ cost pos + q * p
      unfolding reverse_through_zero
      cost-reverse_through_zero h s m =
          ap (λ t. direction_sign q * (abs q - abs c) * p - (pnl + t))
            (abs-mul-direction_sign c (p - avg) h ∙ mul-sub x c p avg)
          ∙ ap (λ t. t * p - (pnl + (c * p + neg (c * avg)))) (turned-net c q h s m)
          ∙ ap (λ t. t - (pnl + (c * p + neg (c * avg)))) (add-mul x c q p)
          ∙ sub_turn x (c * avg) (c * p) pnl (q * p)

      -- In exact arithmetic, a fill whose average is exact adds what it is worth to the cost: the
      -- books neither make nor lose money, whether it opens, increases, decreases or reverses the
      -- position.
      pub cost-apply_fill : IsExactAverage pos q p → cost (apply_fill pos q p) ≡ cost pos + q * p
      cost-apply_fill exact =
          apply_fill_cases (λ r. cost r ≡ cost pos + q * p) pos q p cost-opened
            (cost-increase exact) cost-decrease cost-reverse_through_zero
