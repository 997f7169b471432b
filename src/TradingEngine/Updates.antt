-- ===== src/TradingEngine/Updates.antt =====
-- What an order update does on any bus of the engine, whoever is subscribed: telemetry hears of it.
use quant_core_engine.Prelude.{
  ℕ, zero, suc, ◌≡◌, All, All-append, refl, sym, ap, ◌∙◌, List, [], ◌∷◌, ◌++◌, append_assoc,
  append-nil,
}
use quant_core_engine.Double.{Double}
use quant_core_engine.Events.{Timestamp, OrderUpdateEvent, Event, order_update}
use quant_core_engine.ThreadSafeQueue.{push}
use quant_core_engine.EventBus.{SubscriptionId}
use quant_core_engine.EventBus
use quant_core_engine.TradingEngine.World.{
  Loop, Callback, telemetry_order, TradingEngine, bus_of, invoke, publish,
}

abbrev pub with_telemetry : {F : Type 0} → List (Event F) → TradingEngine F → TradingEngine F
with_telemetry es w = record w {
  telemetry_queue = record { items = w.telemetry_queue.items ++ es };
}

-- The engine after an update is the engine before, with some more copies of it for telemetry.
abbrev pub IsTold : {F : Type 0} → OrderUpdateEvent F → TradingEngine F → TradingEngine F → Type 0
IsTold {F} u w w' =
    (es : List (Event F)) × All (λ e. e ≡ order_update u) es × (w' ≡ with_telemetry es w)

module _ {F : Type 0} (u : OrderUpdateEvent F) where
  nothing-IsTold : (w : TradingEngine F) → IsTold u w w
  nothing-IsTold w = (
    [],
    tt,
    ap (λ es. record w { telemetry_queue = record { items = es } })
        (sym (append-nil w.telemetry_queue.items)),
  )

  IsTold-IsTold : (w w1 w2 : TradingEngine F) → IsTold u w w1 → IsTold u w1 w2 → IsTold u w w2
  IsTold-IsTold w w1 w2 (es, a, p) (fs, b, q) = (
    es ++ fs,
    All-append (λ e. e ≡ order_update u) es fs a b,
    q
        ∙ ap (with_telemetry fs) p
        ∙ ap (λ gs. record w { telemetry_queue = record { items = gs } })
            (append_assoc w.telemetry_queue.items es fs),
  )

module _ {F : Type 0} ⦃d : Double F⦄ (ticks_per_ms : ℕ) (now : Timestamp)
    (u : OrderUpdateEvent F) where
  invoke-IsTold :
      (p : Loop → Event F → TradingEngine F → TradingEngine F) (c : Callback) (w : TradingEngine F)
      → IsTold u w (invoke ticks_per_ms now p c (order_update u) w)
  unfolding invoke push
  invoke-IsTold p telemetry_order w = (order_update u ∷ [], (refl, tt), refl)
  invoke-IsTold p _ w = nothing-IsTold u w

  deliver-IsTold :
      (p : Loop → Event F → TradingEngine F → TradingEngine F) (l : Loop)
      (copy : List (SubscriptionId × Callback)) (w : TradingEngine F)
      → IsTold u w (EventBus.deliver (bus_of l) (invoke ticks_per_ms now p) copy (order_update u) w)
  unfolding EventBus.deliver
  deliver-IsTold p l [] w = nothing-IsTold u w
  deliver-IsTold p l ((id, c) ∷ copy) w =
      IsTold-IsTold u w _ _ (invoke-IsTold p c w) (deliver-IsTold p l copy _)

  -- An order update that is published on a bus of the engine, whoever is subscribed there, puts copies
  -- of itself on the telemetry queue and changes nothing else.
  pub publish-IsTold :
      (fuel : ℕ) (l : Loop) (w : TradingEngine F)
      → IsTold u w (publish ticks_per_ms now fuel l (order_update u) w)
  unfolding publish EventBus.publish
  publish-IsTold zero l w = nothing-IsTold u w
  publish-IsTold (suc fuel) l w =
      deliver-IsTold (publish ticks_per_ms now fuel) l (bus_of l w).subscribers w
