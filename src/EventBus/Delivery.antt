-- ===== src/EventBus/Delivery.antt =====
-- `publish`: who is called, and in which order, whatever the callbacks do to the bus.
use quant_core_engine.Prelude.{◌≡◌, ◌∙◌, List, [], ◌∷◌, ◌++◌, map, append_assoc, append-nil, sym}
use quant_core_engine.EventBus.{Bus, SubscriptionId, deliver, publish}

-- A bus with a record of the calls made; a callback may change the bus, and nothing else is seen.
pub record Traced (C E : Type 0) : Type 0 where
  pub bus : Bus C
  pub calls : List (C × E)

module _ {C E : Type 0} (effect : C → E → Bus C → Bus C) where
  abbrev pub call : C → E → Traced C E → Traced C E
  call c e w = record { bus = effect c e w.bus; calls = w.calls ++ (c, e) ∷ [] }

  calls-deliver :
      (copy : List (SubscriptionId × C)) (e : E) (w : Traced C E)
      → (deliver (λ t. t.bus) call copy e w).calls ≡ w.calls ++ map (λ s. (s.1, e)) copy
  unfolding deliver
  calls-deliver [] e w = sym (append-nil w.calls)
  calls-deliver ((id, c) ∷ copy) e w =
      calls-deliver copy e (call c e w)
      ∙ append_assoc w.calls ((c, e) ∷ []) (map (λ s. (s.1, e)) copy)

  -- A publish calls exactly those who were subscribed when it began, once each, in the order of their
  -- subscription, even if the callbacks subscribe or cancel.
  pub calls-publish :
      (e : E) (w : Traced C E)
      → (publish (λ t. t.bus) call e w).calls ≡ w.calls ++ map (λ s. (s.1, e)) w.bus.subscribers
  unfolding publish
  calls-publish e w = calls-deliver w.bus.subscribers e w
