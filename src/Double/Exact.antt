-- ===== src/Double/Exact.antt =====
-- The laws of exact arithmetic, for the statements about money that rounding would blur. They hold
-- of the real numbers, and of a double as long as no operation rounds and no NaN is met.
-- Nothing is assumed of `/` here.
use quant_core_engine.Prelude.{◌≡◌, refl, sym, ap, ◌∙◌, ◌≡⟨◌⟩◌, ◌∎, ◌⊎◌, ◌↔◌, true, false}
use quant_core_engine.Double.{Double, lit, ◌+◌, ◌-◌, ◌*◌, neg, abs, ◌<?◌, ◌≤?◌, ◌==◌}

pub record IsExact (F : Type 0) ⦃d : Double F⦄ : Type 0 where
  pub add_comm : (a b : F) → a + b ≡ b + a
  pub add_assoc : (a b c : F) → a + b + c ≡ a + (b + c)
  pub add-zero : (a : F) → a + lit 0 ≡ a
  pub add-neg : (a : F) → a + neg a ≡ lit 0
  pub sub-eq-add-neg : (a b : F) → a - b ≡ a + neg b
  pub mul_comm : (a b : F) → a * b ≡ b * a
  pub mul-one : (a : F) → a * lit 1 ≡ a
  pub mul-add : (a b c : F) → a * (b + c) ≡ a * b + a * c
  pub eq_iff : (a b : F) → ((a == b) ≡ true) ↔ (a ≡ b)
  pub lt_total : (a : F) → (a == lit 0) ≡ false → ((lit 0 <? a) ≡ true) ⊎ ((a <? lit 0) ≡ true)
  pub lt_asymm : (a : F) → (lit 0 <? a) ≡ true → (a <? lit 0) ≡ false
  pub abs_of_pos : (a : F) → (lit 0 <? a) ≡ true → abs a ≡ a
  pub abs_of_neg : (a : F) → (a <? lit 0) ≡ true → abs a ≡ neg a
  pub abs-zero : ◌≡◌ {A = F} (abs (lit 0)) (lit 0)
  pub zero-le-abs : (a : F) → (lit 0 ≤? abs a) ≡ true

module _ {F : Type 0} ⦃d : Double F⦄ (x : IsExact F) where
  open x use {add_comm, add_assoc, add-zero, add-neg, sub-eq-add-neg, mul_comm, mul-one, mul-add}

  pub zero-add : (a : F) → lit 0 + a ≡ a
  zero-add a = add_comm (lit 0) a ∙ add-zero a

  pub neg-add : (a : F) → neg a + a ≡ lit 0
  neg-add a = add_comm (neg a) a ∙ add-neg a

  pub neg_add_cancel : (a b : F) → neg a + (a + b) ≡ b
  neg_add_cancel a b = rw (← add_assoc (neg a) a b, neg-add a) (zero-add b)

  pub add_left_cancel : (a b c : F) → a + b ≡ a + c → b ≡ c
  add_left_cancel a b c h = sym (neg_add_cancel a b) ∙ ap (λ t. neg a + t) h ∙ neg_add_cancel a c

  -- What is added to `a` to give 0 is its opposite.
  pub eq-neg_of_add : (a b : F) → a + b ≡ lit 0 → b ≡ neg a
  eq-neg_of_add a b h = add_left_cancel a b (neg a) (h ∙ sym (add-neg a))

  pub neg-neg : (a : F) → neg (neg a) ≡ a
  neg-neg a = sym (eq-neg_of_add (neg a) a (neg-add a))

  pub neg-zero : ◌≡◌ {A = F} (neg (lit 0)) (lit 0)
  neg-zero = sym (eq-neg_of_add (lit 0) (lit 0) (add-zero (lit 0)))

  pub add_left_comm : (a b c : F) → a + (b + c) ≡ b + (a + c)
  add_left_comm a b c = sym (add_assoc a b c) ∙ ap (λ t. t + c) (add_comm a b) ∙ add_assoc b a c

  pub add_add_comm : (a b c e : F) → a + b + (c + e) ≡ a + c + (b + e)
  add_add_comm a b c e =
      rw (add_assoc a b (c + e), add_assoc a c (b + e)) (ap (λ t. a + t) (add_left_comm b c e))

  pub neg-add_distrib : (a b : F) → neg (a + b) ≡ neg a + neg b
  neg-add_distrib a b = sym (
      eq-neg_of_add (a + b) (neg a + neg b)
        (rw (add_add_comm a b (neg a) (neg b), add-neg a, add-neg b) (add-zero (lit 0))))

  pub mul-zero : (a : F) → a * lit 0 ≡ lit 0
  mul-zero a = add_left_cancel (a * lit 0) (a * lit 0) (lit 0) (
      sym (mul-add a (lit 0) (lit 0))
      ∙ ap (λ t. a * t) (add-zero (lit 0))
      ∙ sym (add-zero (a * lit 0)))

  pub mul-neg : (a b : F) → a * neg b ≡ neg (a * b)
  mul-neg a b =
      eq-neg_of_add (a * b) (a * neg b)
        (sym (mul-add a b (neg b)) ∙ ap (λ t. a * t) (add-neg b) ∙ mul-zero a)

  pub neg-mul : (a b : F) → neg a * b ≡ neg (a * b)
  neg-mul a b = mul_comm (neg a) b ∙ mul-neg b a ∙ ap neg (mul_comm b a)

  pub mul-neg-one : (a : F) → a * neg (lit 1) ≡ neg a
  mul-neg-one a = mul-neg a (lit 1) ∙ ap neg (mul-one a)

  pub add-mul : (a b c : F) → (a + b) * c ≡ a * c + b * c
  add-mul a b c =
      mul_comm (a + b) c
      ∙ mul-add c a b
      ∙ ap (λ t. t + c * b) (mul_comm c a)
      ∙ ap (λ t. a * c + t) (mul_comm c b)

  pub mul-sub : (a b c : F) → a * (b - c) ≡ a * b + neg (a * c)
  mul-sub a b c = rw (sub-eq-add-neg b c, mul-add a b (neg c), mul-neg a c)

  -- Cost less profit, when a part worth `b` at cost is sold for `y`.
  pub sub_swap : (a b p y : F) → a + b - (p + neg (y + neg b)) ≡ a - p + y
  sub_swap a b p y =
      a + b - (p + neg (y + neg b))
      ≡⟨ rw
          (
            sub-eq-add-neg (a + b) (p + neg (y + neg b)),
            neg-add_distrib p (neg (y + neg b)),
            neg-neg (y + neg b),
          )
          refl ⟩
        a + b + (neg p + (y + neg b))
      ≡⟨ rw
          (
            add_comm y (neg b),
            ← add_assoc (neg p) (neg b) y,
            add_comm (neg p) (neg b),
            add_assoc (neg b) (neg p) y,
          )
          refl ⟩
        a + b + (neg b + (neg p + y))
      ≡⟨ rw
          (
            add_assoc a b (neg b + (neg p + y)),
            ← add_assoc b (neg b) (neg p + y),
            add-neg b,
            zero-add (neg p + y),
          )
          refl ⟩
        a + (neg p + y)
      ≡⟨ rw (sub-eq-add-neg a p) (sym (add_assoc a (neg p) y)) ⟩ a - p + y ∎

  pub zero-mul : (a : F) → lit 0 * a ≡ lit 0
  zero-mul a = mul_comm (lit 0) a ∙ mul-zero a

  pub one-mul : (a : F) → lit 1 * a ≡ a
  one-mul a = mul_comm (lit 1) a ∙ mul-one a

  pub add_sub_right_comm : (a b p : F) → a + b - p ≡ a - p + b
  add_sub_right_comm a b p =
      rw
        (
          sub-eq-add-neg (a + b) p,
          sub-eq-add-neg a p,
          add_assoc a b (neg p),
          add_comm b (neg p),
          add_assoc a (neg p) b,
        )
        refl

  pub add-neg_swap : (a b : F) → b + neg a ≡ neg (a + neg b)
  add-neg_swap a b = rw (neg-add_distrib a (neg b), neg-neg b) (add_comm b (neg a))

  -- The same when the position is turned: `a` was its cost, and `b` is what closing it brings.
  pub sub_turn : (a b p y : F) → b + y - (p + (b + neg a)) ≡ a - p + y
  sub_turn a b p y =
      rw (add-neg_swap a b, add_comm b y)
        (sub_swap y b p a
          ∙ ap (λ t. t + a) (sub-eq-add-neg y p)
          ∙ ap (λ t. t + a) (add_comm y (neg p))
          ∙ add_comm (neg p + y) a
          ∙ sym (add_assoc a (neg p) y)
          ∙ ap (λ t. t + y) (sym (sub-eq-add-neg a p)))

  pub neg-neg_sub : (a b : F) → neg (neg b - a) ≡ a + b
  neg-neg_sub a b =
      rw (sub-eq-add-neg (neg b) a, neg-add_distrib (neg b) (neg a), neg-neg b, neg-neg a)
        (add_comm b a)

  pub sub-neg : (a b : F) → b - neg a ≡ a + b
  sub-neg a b = rw (sub-eq-add-neg b (neg a), neg-neg a) (add_comm b a)
