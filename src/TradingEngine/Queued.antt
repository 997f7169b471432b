-- ===== src/TradingEngine/Queued.antt =====
-- The queues of the engine under pushes and pops of sound events.
use quant_core_engine.Prelude.{◌≡◌, ap, some, List, [], ◌∷◌, All, All-append, nat_eq, string_eq}
use mathlib.Core.Path.{subst}
use quant_core_engine.Events.{Event}
use quant_core_engine.ThreadSafeQueue.{Queue, push, try_pop}
use quant_core_engine.TradingEngine.World.{
  Loop, strategy, risk, routing, TradingEngine, push_telemetry,
}
use quant_core_engine.TradingEngine.Turns.{queue_of, set_queue}
use quant_core_engine.TradingEngine.Induction.{push_on}
use quant_core_engine.TradingEngine.Sound.{IsSound, IsInOrder}

module _ {F : Type 0} where
  front : (x e : Event F) → some x ≡ some e → x ≡ e
  front x e p = cc

  try_pop-front :
      (q : Queue (Event F)) (e : Event F) (rest : Queue (Event F))
      → try_pop q ≡ (some e, rest)
      → All IsSound q.items
      → IsSound e × All IsSound rest.items
  unfolding try_pop
  try_pop-front q e rest = on_items q.items
    where
      on_items :
          (xs : List (Event F))
          → try_pop (record { items = xs }) ≡ (some e, rest)
          → All IsSound xs
          → IsSound e × All IsSound rest.items
      on_items [] p a = cc
      on_items (x ∷ xs) p a = (
        subst IsSound (front x e (ap (λ r. r.0) p)) a.0,
        subst (All IsSound) (ap (λ r. r.1.items) p) a.1,
      )

  pub pushing-IsInOrder :
      (l : Loop) (e : Event F) (w : TradingEngine F)
      → IsSound e
      → IsInOrder w
      → IsInOrder (push_on l e w)
  unfolding push
  pushing-IsInOrder strategy e w q (ready, (s, r, o, t)) =
      (ready, (All-append IsSound w.strategy_queue.items (e ∷ []) s (q, tt), r, o, t))
  pushing-IsInOrder risk e w q (ready, (s, r, o, t)) =
      (ready, (s, All-append IsSound w.risk_queue.items (e ∷ []) r (q, tt), o, t))
  pushing-IsInOrder routing e w q (ready, (s, r, o, t)) =
      (ready, (s, r, All-append IsSound w.routing_queue.items (e ∷ []) o (q, tt), t))

  pub telling-IsInOrder :
      (e : Event F) (w : TradingEngine F) → IsSound e → IsInOrder w → IsInOrder (push_telemetry e w)
  unfolding push
  telling-IsInOrder e w q (ready, (s, r, o, t)) =
      (ready, (s, r, o, All-append IsSound w.telemetry_queue.items (e ∷ []) t (q, tt)))

  pub popping-IsInOrder :
      (l : Loop) (w : TradingEngine F) (e : Event F) (rest : Queue (Event F))
      → try_pop (queue_of l w) ≡ (some e, rest)
      → IsInOrder w
      → IsSound e × IsInOrder (set_queue l rest w)
  popping-IsInOrder strategy w e rest p (ready, (s, r, o, t)) =
      let (q, left) = try_pop-front w.strategy_queue e rest p s in (q, (ready, (left, r, o, t)))
  popping-IsInOrder risk w e rest p (ready, (s, r, o, t)) =
      let (q, left) = try_pop-front w.risk_queue e rest p r in (q, (ready, (s, left, o, t)))
  popping-IsInOrder routing w e rest p (ready, (s, r, o, t)) =
      let (q, left) = try_pop-front w.routing_queue e rest p o in (q, (ready, (s, r, left, t)))
