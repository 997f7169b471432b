-- ===== src/EventBus/Subscriptions.antt =====
-- Subscription ids: how `subscribe` hands them out, and what `unsubscribe` takes out.
use quant_core_engine.Prelude.{
  ℕ, suc, ◌+◌, ◌%◌, ◌≤◌, ◌<◌, ◌≡◌, refl, ap, List, [], ◌∷◌, ◌++◌, arith, nat_eq, length, sym, All,
  All-append,
}
use quant_core_engine.EventBus.{
  Bus, SubscriptionId, size_mod, new_bus, subscribe, unsubscribe, remove_id,
}

module _ {C : Type 0} where
  -- The ids fall short of the next one, and rise along the list.
  abbrev pub Rising : ℕ → List (SubscriptionId × C) → Type 0
  Rising low [] = Unit
  Rising low ((id, c) ∷ subs) = (low ≤ id) × Rising (suc id) subs

  abbrev pub Below : ℕ → List (SubscriptionId × C) → Type 0
  Below bound = All (λ s. s.0 < bound)

  pub record IsOrdered (b : Bus C) : Type 0 where
    pub below : Below b.next_id b.subscribers
    pub rising : Rising 0 b.subscribers

  Rising-lower :
      (l m : ℕ) (subs : List (SubscriptionId × C)) → l ≤ m → Rising m subs → Rising l subs
  Rising-lower l m [] h r = tt
  Rising-lower l m ((id, c) ∷ subs) h r = (omega arith, r.1)

  Below-raise : (m n : ℕ) (subs : List (SubscriptionId × C)) → m ≤ n → Below m subs → Below n subs
  Below-raise m n [] h r = tt
  Below-raise m n ((id, c) ∷ subs) h r = (omega arith, Below-raise m n subs h r.1)

  Rising-append :
      (low n : ℕ) (c : C) (subs : List (SubscriptionId × C))
      → low ≤ n
      → Below n subs
      → Rising low subs
      → Rising low (subs ++ (n, c) ∷ [])
  Rising-append low n c [] h b r = (h, tt)
  Rising-append low n c ((id, k) ∷ subs) h b r = (r.0, Rising-append (suc id) n c subs b.0 b.1 r.1)

  -- On a bus whose ids rise and are below the next one, a new subscription keeps them so, as long
  -- as the 64-bit counter does not wrap.
  pub subscribe-IsOrdered :
      (c : C) (b : Bus C) → b.next_id + 1 < size_mod → IsOrdered b → IsOrdered (subscribe c b).1
  unfolding subscribe
  subscribe-IsOrdered c b h v = record {
    below =
        let step : (b.next_id + 1) % size_mod ≡ suc b.next_id = omega arith in
        rw step (
          All-append (λ s. s.0 < suc b.next_id) b.subscribers ((b.next_id, c) ∷ [])
            (Below-raise b.next_id (suc b.next_id) b.subscribers (omega arith) v.below)
            (omega arith, tt));
    rising = Rising-append 0 b.next_id c b.subscribers (omega arith) v.below v.rising;
  }

  remove_id-Below :
      (id n : ℕ) (subs : List (SubscriptionId × C)) → Below n subs → Below n (remove_id id subs)
  unfolding remove_id
  remove_id-Below id n [] b = tt
  remove_id-Below id n ((j, c) ∷ subs) b = ground (arith, remove_id-Below id n subs b.1)

  remove_id-Rising :
      (id low : ℕ) (subs : List (SubscriptionId × C))
      → Rising low subs
      → Rising low (remove_id id subs)
  unfolding remove_id
  remove_id-Rising id low [] r = tt
  remove_id-Rising id low ((j, c) ∷ subs) r =
      ground
        (arith, remove_id-Rising id (suc j) subs r.1, Rising-lower low (suc j) (remove_id id subs))

  -- Cancelling any id keeps the ids rising and below the next one.
  pub unsubscribe-IsOrdered : (id : ℕ) (b : Bus C) → IsOrdered b → IsOrdered (unsubscribe id b)
  unfolding unsubscribe
  unsubscribe-IsOrdered id b v = record {
    below = remove_id-Below id b.next_id b.subscribers v.below;
    rising = remove_id-Rising id 0 b.subscribers v.rising;
  }

  remove_id-absent :
      (id : ℕ) (subs : List (SubscriptionId × C)) → Below id subs → remove_id id subs ≡ subs
  unfolding remove_id
  remove_id-absent id [] b = refl
  remove_id-absent id ((j, c) ∷ subs) b = ground (arith, remove_id-absent id subs b.1)

  remove_id-above :
      (id low : ℕ) (subs : List (SubscriptionId × C))
      → id < low
      → Rising low subs
      → remove_id id subs ≡ subs
  unfolding remove_id
  remove_id-above id low [] h r = refl
  remove_id-above id low ((j, c) ∷ subs) h r =
      ground (arith, remove_id-above id (suc j) subs (omega arith) r.1)

  Rising-apart :
      (low id : ℕ) (c : C) (older newer : List (SubscriptionId × C))
      → Rising low (older ++ (id, c) ∷ newer)
      → low ≤ id
  Rising-apart low id c [] newer r = r.0
  Rising-apart low id c ((j, k) ∷ older) newer r =
      let higher = Rising-apart (suc j) id c older newer r.1 in let first = r.0 in omega arith

  -- Rising ids are different, so an id takes out one subscription.
  remove_id-middle :
      (low id : ℕ) (c : C) (older newer : List (SubscriptionId × C))
      → Rising low (older ++ (id, c) ∷ newer)
      → remove_id id (older ++ (id, c) ∷ newer) ≡ older ++ newer
  unfolding remove_id
  remove_id-middle low id c [] newer r =
      ground (arith, remove_id-above id (suc id) newer (omega arith) r.1)
  remove_id-middle low id c ((j, k) ∷ older) newer r = ground (
    arith,
    remove_id-middle (suc j) id c older newer r.1,
    Rising-apart (suc j) id c older newer r.1,
  )

  remove_id-last :
      (id : ℕ) (c : C) (subs : List (SubscriptionId × C))
      → Below id subs
      → remove_id id (subs ++ (id, c) ∷ []) ≡ subs
  unfolding remove_id
  remove_id-last id c [] b = ground arith
  remove_id-last id c ((j, k) ∷ subs) b = ground (arith, remove_id-last id c subs b.1)

  -- On a bus whose ids rise and are below the next one, cancelling the subscription just made
  -- restores the subscribers.
  unsubscribe-subscribe :
      (c : C) (b : Bus C)
      → IsOrdered b
      → let (id, after) = subscribe c b in (unsubscribe id after).subscribers ≡ b.subscribers
  unfolding subscribe unsubscribe
  unsubscribe-subscribe c b v = remove_id-last b.next_id c b.subscribers v.below

  -- Cancelling an id a second time changes nothing.
  pub unsubscribe_twice :
      (id : ℕ) (b : Bus C) → unsubscribe id (unsubscribe id b) ≡ unsubscribe id b
  unfolding unsubscribe
  unsubscribe_twice id b = ap (λ t. record b { subscribers = t }) (remove_twice id b.subscribers)
    where
      remove_twice :
          (id : ℕ) (subs : List (SubscriptionId × C))
          → remove_id id (remove_id id subs) ≡ remove_id id subs
      remove_twice id [] = refl
      remove_twice id ((j, c) ∷ subs) = ground (arith, remove_twice id subs)

-- A call of the bus, from its construction on.
pub data Edit (C : Type 0) : Type 0 where
  subscribes : C → Edit C
  unsubscribes : SubscriptionId → Edit C

module _ {C : Type 0} where
  unfoldable pub edit_all : List (Edit C) → Bus C → Bus C
  edit_all [] b = b
  edit_all (subscribes c ∷ edits) b = edit_all edits (subscribe c b).1
  edit_all (unsubscribes id ∷ edits) b = edit_all edits (unsubscribe id b)

  edit_all-IsOrdered :
      (edits : List (Edit C)) (b : Bus C)
      → b.next_id + length edits < size_mod
      → IsOrdered b
      → IsOrdered (edit_all edits b)
  unfolding edit_all subscribe unsubscribe
  edit_all-IsOrdered [] b h v = v
  edit_all-IsOrdered (subscribes c ∷ edits) b h v =
      edit_all-IsOrdered edits (subscribe c b).1 (next_small c b edits h)
        (subscribe-IsOrdered c b (omega arith) v)
    where
      next_small :
          (c : C) (b : Bus C) (edits : List (Edit C))
          → b.next_id + suc (length edits) < size_mod
          → (subscribe c b).1.next_id + length edits < size_mod
      next_small c b edits h =
          let step : (b.next_id + 1) % size_mod ≡ suc b.next_id = omega arith in
          rw step (omega arith)
  edit_all-IsOrdered (unsubscribes id ∷ edits) b h v =
      edit_all-IsOrdered edits (unsubscribe id b) (omega arith) (unsubscribe-IsOrdered id b v)

  -- After any fewer than 2^64 calls of subscribe and unsubscribe on a new bus, with any ids: cancelling
  -- a subscription that is there takes out that one and leaves the others in their order; so cancelling
  -- the subscription just made restores the list.
  pub unsubscribe-edit_all :
      (edits : List (Edit C))
      → length edits < size_mod
      → let b = edit_all edits new_bus in
        ((id : SubscriptionId) (c : C) (older newer : List (SubscriptionId × C))
          → b.subscribers ≡ older ++ (id, c) ∷ newer
          → (unsubscribe id b).subscribers ≡ older ++ newer)
        × ((c : C)
            → let (id, after) = subscribe c b in (unsubscribe id after).subscribers ≡ b.subscribers)
  unfolding subscribe unsubscribe
  unsubscribe-edit_all edits h =
      let v = edit_all-IsOrdered edits new_bus (omega arith) (record { below = tt; rising = tt }) in
      let b = edit_all edits new_bus in
      (
        λ id c older newer e. rw e (remove_id-middle 0 id c older newer (rw (sym e) v.rising)),
        λ c. unsubscribe-subscribe c b v,
      )
