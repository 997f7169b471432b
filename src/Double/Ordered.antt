-- ===== src/Double/Ordered.antt =====
-- The laws of the order and of the absolute value in exact arithmetic, for the limits that the code
-- compares with.
use quant_core_engine.Prelude.{◌≡◌, arith, true, false}
use quant_core_engine.Prelude.Int.{ℤ, pos, ◌+ℤ◌, ◌-ℤ◌, abs_ℤ, neg_ℤ, ltb_ℤ, leb_ℤ}
use quant_core_engine.Double.{Double, lit, ◌+◌, ◌-◌, abs, ◌<?◌, ◌≤?◌}
use quant_core_engine.Double.Whole.{whole}

pub record IsOrdered (F : Type 0) ⦃d : Double F⦄ : Type 0 where
  pub le_of_not_lt : (a b : F) → (b <? a) ≡ false → (a ≤? b) ≡ true
  pub le_trans : (a b c : F) → (a ≤? b) ≡ true → (b ≤? c) ≡ true → (a ≤? c) ≡ true
  pub abs-add-one : (a : F) → (abs (a + lit 1) ≤? abs a + lit 1) ≡ true
  pub abs-sub-one : (a : F) → (abs (a - lit 1) ≤? abs a + lit 1) ≡ true

le_of_not_lt_ℤ : (a b : ℤ) → ltb_ℤ b a ≡ false → leb_ℤ a b ≡ true
le_of_not_lt_ℤ a b h = ground arith

le_trans_ℤ : (a b c : ℤ) → leb_ℤ a b ≡ true → leb_ℤ b c ≡ true → leb_ℤ a c ≡ true
le_trans_ℤ a b c h k = ground arith

abs-add-one_ℤ : (a : ℤ) → leb_ℤ (abs_ℤ (a +ℤ pos 1)) (abs_ℤ a +ℤ pos 1) ≡ true
unfolding abs_ℤ ◌+ℤ◌
abs-add-one_ℤ a = ground arith

abs-sub-one_ℤ : (a : ℤ) → leb_ℤ (abs_ℤ (a -ℤ pos 1)) (abs_ℤ a +ℤ pos 1) ≡ true
unfolding abs_ℤ ◌+ℤ◌ ◌-ℤ◌ neg_ℤ
abs-sub-one_ℤ a = ground arith

pub whole-IsOrdered : IsOrdered ℤ
whole-IsOrdered = record {
  le_of_not_lt = le_of_not_lt_ℤ;
  le_trans = le_trans_ℤ;
  abs-add-one = abs-add-one_ℤ;
  abs-sub-one = abs-sub-one_ℤ;
}
