-- ===== src/EventBus.antt =====
-- core/app/src/event/event_bus.cpp and include/quant/eventbus/event_bus.hpp. A callback is a value
-- of `C` that names what it runs, so that a world can hold its own buses. Each of the operations on
-- the subscriber list runs under the bus's mutex, so it is one step.
pub mod Subscriptions
pub mod Delivery
pub mod Destruction
use quant_core_engine.Prelude.{
  ℕ, ◌+◌, ◌%◌, Bool, true, false, List, [], ◌∷◌, ◌++◌, Option, none, some, ◌==◌, nat_eq,
  if◌then◌else◌,
}

abbrev pub SubscriptionId : Type 0
SubscriptionId = ℕ

abbrev pub size_mod : ℕ
size_mod = 18446744073709551616

pub record Bus (C : Type 0) : Type 0 where
  pub next_id : SubscriptionId
  pub subscribers : List (SubscriptionId × C)

module _ {C : Type 0} where
  abbrev pub new_bus : Bus C
  new_bus = record { next_id = 0; subscribers = [] }

  -- `next_id_++` on a std::size_t.
  unfoldable pub subscribe : C → Bus C → SubscriptionId × Bus C
  subscribe callback b =
      let id = b.next_id in
      (
        id,
        record {
          next_id = (b.next_id + 1) % size_mod;
          subscribers = b.subscribers ++ (id, callback) ∷ [];
        },
      )

  -- `std::remove_if` with the test on the id, then `erase`.
  unfoldable pub remove_id : SubscriptionId → List (SubscriptionId × C) → List (SubscriptionId × C)
  remove_id id [] = []
  remove_id id ((j, c) ∷ subs) = if j == id then remove_id id subs else (j, c) ∷ remove_id id subs

  unfoldable pub unsubscribe : SubscriptionId → Bus C → Bus C
  unfolding remove_id
  unsubscribe id b = record b { subscribers = remove_id id b.subscribers }

-- The wrapper of the typed `subscribe`: `get_if` on the variant, and the callback if it matches.
unfoldable pub typed {ℓ} : {E A W : Type ℓ} → (E → Option A) → (A → W → W) → E → W → W
typed get_if callback event w = elim (get_if event) [ none ↦ w | some a ↦ callback a w ]

module _ {C E W : Type 0} (bus : W → Bus C) (invoke : C → E → W → W) where
  unfoldable pub deliver : List (SubscriptionId × C) → E → W → W
  deliver [] event w = w
  deliver ((id, callback) ∷ copy) event w = deliver copy event (invoke callback event w)

  -- The list is copied under the lock; the callbacks run after it is released.
  unfoldable pub publish : E → W → W
  unfolding deliver
  publish event w = deliver (bus w).subscribers event w
