-- ===== src/EventBus/Destruction.antt =====
-- `EventBus::publish` in its two parts, the copy under the lock and the calls after it, with
-- destructors of other threads between them: each cancels its subscription, and its object is gone.
use quant_core_engine.Prelude.{◌≡◌, refl, Bool, false, ◌||◌, List, [], ◌∷◌, nat_eq, ◌==◌, arith}
use quant_core_engine.EventBus.{Bus, SubscriptionId, unsubscribe, remove_id}

-- A bus, the rest of the copy of the publish that is under way, the subscriptions whose objects are
-- destroyed, and whether one of these objects was called.
pub record Delivery (C : Type 0) : Type 0 where
  pub bus : Bus C
  pub copy : List (SubscriptionId × C)
  pub destroyed : List SubscriptionId
  pub dangling : Bool

abbrev pub is_in : SubscriptionId → List SubscriptionId → Bool
is_in id [] = false
is_in id (j ∷ ids) = (j == id) || is_in id ids

module _ {C : Type 0} where
  unfoldable pub copy_list : Delivery C → Delivery C
  copy_list s = record s { copy = s.bus.subscribers }

  -- A destructor: the subscription goes off the bus, and the object is gone.
  unfoldable pub destroy : SubscriptionId → Delivery C → Delivery C
  destroy id s = record s { bus = unsubscribe id s.bus; destroyed = id ∷ s.destroyed }

  unfoldable pub destroy_all : List SubscriptionId → Delivery C → Delivery C
  destroy_all [] s = s
  destroy_all (id ∷ ids) s = destroy_all ids (destroy id s)

  -- The calls, to the end of the copy.
  unfoldable pub call_rest : List (SubscriptionId × C) → Delivery C → Delivery C
  call_rest [] s = record s { copy = [] }
  call_rest ((id, callback) ∷ rest) s =
      call_rest rest (record s { dangling = is_in id s.destroyed || s.dangling })

  unfoldable pub call_copy : Delivery C → Delivery C
  call_copy s = call_rest s.copy s

  abbrev pub ready : Bus C → Delivery C
  ready b = record { bus = b; copy = []; destroyed = []; dangling = false }

  -- Whether one of these subscriptions is on the list.
  abbrev pub any_in : List SubscriptionId → List (SubscriptionId × C) → Bool
  any_in ids [] = false
  any_in ids ((id, callback) ∷ rest) = is_in id ids || any_in ids rest

module _ {C : Type 0} where
  is_in-destroy_all :
      (j : SubscriptionId) (ids : List SubscriptionId) (s : Delivery C)
      → is_in j (destroy_all ids s).destroyed ≡ (is_in j ids || is_in j s.destroyed)
  unfolding destroy_all destroy
  is_in-destroy_all j [] s = refl
  is_in-destroy_all j (id ∷ ids) s = ground (arith, is_in-destroy_all j ids (destroy id s))

  destroy_all-copy :
      (ids : List SubscriptionId) (s : Delivery C) → (destroy_all ids s).copy ≡ s.copy
  unfolding destroy_all destroy
  destroy_all-copy [] s = refl
  destroy_all-copy (id ∷ ids) s = destroy_all-copy ids (destroy id s)

  destroy_all-dangling :
      (ids : List SubscriptionId) (s : Delivery C) → (destroy_all ids s).dangling ≡ s.dangling
  unfolding destroy_all destroy
  destroy_all-dangling [] s = refl
  destroy_all-dangling (id ∷ ids) s = destroy_all-dangling ids (destroy id s)

  call_rest-dangling :
      (rest : List (SubscriptionId × C)) (s : Delivery C)
      → (call_rest rest s).dangling ≡ (any_in s.destroyed rest || s.dangling)
  unfolding call_rest
  call_rest-dangling [] s = refl
  call_rest-dangling ((id, callback) ∷ rest) s =
      ground (
        arith,
        call_rest-dangling rest (record s { dangling = is_in id s.destroyed || s.dangling }),
      )

  any_in-agree :
      (gone ids : List SubscriptionId)
      → ((j : SubscriptionId) → is_in j gone ≡ is_in j ids)
      → (rest : List (SubscriptionId × C)) → any_in gone rest ≡ any_in ids rest
  any_in-agree gone ids h [] = refl
  any_in-agree gone ids h ((id, callback) ∷ rest) =
      ground (arith, h id, any_in-agree gone ids h rest)

  any_in-remove_id :
      (id : SubscriptionId) (ids : List SubscriptionId) (subs : List (SubscriptionId × C))
      → any_in ids subs ≡ false
      → any_in (id ∷ ids) (remove_id id subs) ≡ false
  unfolding remove_id
  any_in-remove_id id ids [] h = refl
  any_in-remove_id id ids ((j, c) ∷ subs) h = ground (arith, any_in-remove_id id ids subs)

  any_in-destroy_all :
      (ids : List SubscriptionId) (s : Delivery C)
      → any_in s.destroyed s.bus.subscribers ≡ false
      → any_in (destroy_all ids s).destroyed (destroy_all ids s).bus.subscribers ≡ false
  unfolding destroy_all destroy unsubscribe
  any_in-destroy_all [] s h = h
  any_in-destroy_all (id ∷ ids) s h =
      any_in-destroy_all ids (destroy id s) (any_in-remove_id id s.destroyed s.bus.subscribers h)

  any_in-none : (rest : List (SubscriptionId × C)) → any_in [] rest ≡ false
  any_in-none [] = refl
  any_in-none ((id, callback) ∷ rest) = any_in-none rest

  -- When the objects of some subscriptions are destroyed after `publish` has copied the list and
  -- before it calls the copy, a callback of a destroyed object is called exactly when one of these
  -- subscriptions was on the list; when they are destroyed before the copy is taken, none is called.
  pub call_copy-dangling :
      (b : Bus C) (ids : List SubscriptionId)
      → ((call_copy (destroy_all ids (copy_list (ready b)))).dangling ≡ any_in ids b.subscribers)
        × ((call_copy (copy_list (destroy_all ids (ready b)))).dangling ≡ false)
  unfolding call_copy copy_list
  call_copy-dangling b ids =
      let late = destroy_all ids (copy_list (ready b)) in
      let early = copy_list (destroy_all ids (ready b)) in
      let is_late =
        any_in-agree late.destroyed ids
          (λ j. ground (arith, is_in-destroy_all j ids (copy_list (ready b)))) in
      let empty = any_in-destroy_all ids (ready b) (any_in-none b.subscribers) in
      (
        ground (
          arith,
          call_rest-dangling late.copy late,
          is_late late.copy,
          destroy_all-copy ids (copy_list (ready b)),
          destroy_all-dangling ids (copy_list (ready b)),
        ),
        ground
            (arith, call_rest-dangling early.copy early, empty, destroy_all-dangling ids (ready b)),
      )
