-- ===== src/Double/Whole.antt =====
-- Exact arithmetic exists: whole numbers, with division towards zero.
use quant_core_engine.Prelude.{◌≡◌, arith, ◌⊎◌, true, false}
use quant_core_engine.Prelude.Int.{
  ℤ, pos, ◌+ℤ◌, ◌-ℤ◌, ◌*ℤ◌, neg_ℤ, abs_ℤ, div_ℤ, ltb_ℤ, leb_ℤ, eqb_ℤ, +ℤ_comm, +ℤ_assoc, +ℤ-zero,
  +ℤ-neg_ℤ, -ℤ-eq-+ℤ, *ℤ_comm, *ℤ-one, *ℤ-+ℤ, eqb_ℤ_iff,
}
use quant_core_engine.Double.{Double}
use quant_core_engine.Double.Exact.{IsExact}

instance abbrev pub whole : Double ℤ
whole = record {
  lit = pos;
  add = ◌+ℤ◌;
  sub = ◌-ℤ◌;
  mul = ◌*ℤ◌;
  div = div_ℤ;
  neg = neg_ℤ;
  abs = abs_ℤ;
  lt = ltb_ℤ;
  le = leb_ℤ;
  eq = eqb_ℤ;
}

lt_total_ℤ : (a : ℤ) → eqb_ℤ a (pos 0) ≡ false → (ltb_ℤ (pos 0) a ≡ true) ⊎ (ltb_ℤ a (pos 0) ≡ true)
lt_total_ℤ a h = ground arith

lt_asymm_ℤ : (a : ℤ) → ltb_ℤ (pos 0) a ≡ true → ltb_ℤ a (pos 0) ≡ false
lt_asymm_ℤ a h = ground arith

abs_of_pos_ℤ : (a : ℤ) → ltb_ℤ (pos 0) a ≡ true → abs_ℤ a ≡ a
unfolding abs_ℤ
abs_of_pos_ℤ a h = ground arith

abs_of_neg_ℤ : (a : ℤ) → ltb_ℤ a (pos 0) ≡ true → abs_ℤ a ≡ neg_ℤ a
unfolding abs_ℤ neg_ℤ
abs_of_neg_ℤ a h = ground arith

abs-zero_ℤ : abs_ℤ (pos 0) ≡ pos 0
unfolding abs_ℤ
abs-zero_ℤ = ground arith

zero-le-abs_ℤ : (a : ℤ) → leb_ℤ (pos 0) (abs_ℤ a) ≡ true
unfolding abs_ℤ
zero-le-abs_ℤ a = ground arith

pub whole-IsExact : IsExact ℤ
whole-IsExact = record {
  add_comm = +ℤ_comm;
  add_assoc = +ℤ_assoc;
  add-zero = +ℤ-zero;
  add-neg = +ℤ-neg_ℤ;
  sub-eq-add-neg = -ℤ-eq-+ℤ;
  mul_comm = *ℤ_comm;
  mul-one = *ℤ-one;
  mul-add = *ℤ-+ℤ;
  eq_iff = eqb_ℤ_iff;
  lt_total = lt_total_ℤ;
  lt_asymm = lt_asymm_ℤ;
  abs_of_pos = abs_of_pos_ℤ;
  abs_of_neg = abs_of_neg_ℤ;
  abs-zero = abs-zero_ℤ;
  zero-le-abs = zero-le-abs_ℤ;
}
