-- ===== src/Double.antt =====
-- The type `double` and the operations of it that the code uses, as an interface. There are no
-- floating-point numbers here: each definition takes the type and its operations, so that it reads
-- as the code does, for IEEE arithmetic as for exact arithmetic.
pub mod Exact
pub mod Ordered
pub mod Whole
use Prim.Native.Nat.{ℕ}
use mathlib.Core.Bool.{Bool}

pub record Double (F : Type 0) : Type 0 where
  -- The literals 0.0, 1.0, 100.0 and so on.
  pub lit : ℕ → F
  pub add : F → F → F
  pub sub : F → F → F
  pub mul : F → F → F
  pub div : F → F → F
  pub neg : F → F
  pub abs : F → F
  pub lt : F → F → Bool
  pub le : F → F → Bool
  pub eq : F → F → Bool

infixl 65 ◌+◌ ◌-◌
infixl 70 ◌*◌ ◌/◌
infix 50 ◌<?◌ ◌≤?◌ ◌==◌
module _ {F : Type 0} ⦃d : Double F⦄ where
  abbrev pub lit : ℕ → F
  lit = d.lit

  abbrev pub ◌+◌ : F → F → F
  ◌+◌ = d.add

  abbrev pub ◌-◌ : F → F → F
  ◌-◌ = d.sub

  abbrev pub ◌*◌ : F → F → F
  ◌*◌ = d.mul

  abbrev pub ◌/◌ : F → F → F
  ◌/◌ = d.div

  abbrev pub neg : F → F
  neg = d.neg

  abbrev pub abs : F → F
  abs = d.abs

  abbrev pub ◌<?◌ : F → F → Bool
  ◌<?◌ = d.lt

  abbrev pub ◌≤?◌ : F → F → Bool
  ◌≤?◌ = d.le

  abbrev pub ◌==◌ : F → F → Bool
  ◌==◌ = d.eq
