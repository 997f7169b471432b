-- ===== src/OrderIdGenerator.antt =====
-- core/app/include/quant/concurrent/order_id_generator.hpp: the atomic counter behind order ids.
-- `fetch_add` on std::uint64_t wraps at 2^64.
use quant_core_engine.Prelude.{ℕ, suc, zero, ◌+◌, ◌%◌, ◌<◌, ◌≡◌, refl, List, [], ◌∷◌, arith}
use quant_core_engine.Domain.{OrderId}

abbrev pub u64_mod : ℕ
u64_mod = 18446744073709551616

pub record OrderIdGenerator : Type 0 where
  pub next : ℕ

abbrev pub new_generator : OrderIdGenerator
new_generator = record { next = 1 }

unfoldable pub next_id : OrderIdGenerator → OrderId × OrderIdGenerator
next_id g = (g.next, record { next = (g.next + 1) % u64_mod })

pub next-next_id : (g : OrderIdGenerator) → g.next + 1 < u64_mod → (next_id g).1.next ≡ suc g.next
unfolding next_id
next-next_id g h = omega arith

-- The ids of `n` calls, whichever threads make them: `fetch_add` puts the calls in an order.
unfoldable pub take_ids : ℕ → OrderIdGenerator → List OrderId × OrderIdGenerator
unfolding next_id
take_ids zero g = ([], g)
take_ids (suc n) g = let (id, g') = next_id g in let (ids, g'') = take_ids n g' in (id ∷ ids, g'')

-- The ids from `first` on, one after the other.
abbrev pub Consecutive : ℕ → List OrderId → Type 0
Consecutive first [] = Unit
Consecutive first (id ∷ ids) = (id ≡ first) × Consecutive (suc first) ids

-- Before 2^64 ids are used up, calls return consecutive ids, so each is new and larger than all
-- before it.
pub take_ids-Consecutive :
    (n : ℕ) (g : OrderIdGenerator) → g.next + n < u64_mod → Consecutive g.next (take_ids n g).0
unfolding take_ids
take_ids-Consecutive zero g h = tt
take_ids-Consecutive (suc n) g h =
    let step : (g.next + 1) % u64_mod ≡ suc g.next = omega arith in
    (refl, rw step (take_ids-Consecutive n (record { next = suc g.next }) (omega arith)))
