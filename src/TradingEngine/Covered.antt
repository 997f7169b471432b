-- ===== src/TradingEngine/Covered.antt =====
-- While the pointers are there that the subscribed callbacks use, a process does in a turn of a loop
-- what the engine without pointers does.
use quant_core_engine.Prelude.{
  ℕ, ◌≡◌, refl, sym, ap, ◌∙◌, Bool, true, false, Option, none, some, All, if◌then◌else◌,
}
use mathlib.Core.Path.{subst}
use quant_core_engine.Double.{Double}
use quant_core_engine.Events.{Timestamp, Event}
use quant_core_engine.EventBus.{Bus}
use quant_core_engine.ThreadSafeQueue.{Queue, try_pop}
use quant_core_engine.TradingEngine.World.{
  Loop, strategy, risk, routing, Callback, TradingEngine, bus_of, push_risk, push_routing,
  push_telemetry, invoke_in, publish, depth,
}
use quant_core_engine.TradingEngine.Stages.{Buses, buses}
use quant_core_engine.TradingEngine.Turns.{queue_of, set_queue, publish_popped, turn}
use quant_core_engine.TradingEngine.Process.{
  Process, process_host, push_order, push_update, invoke_alive, publish_in, publish_taken,
  thread_of, turn_in,
}
use quant_core_engine.TradingEngine.Simulation.{callbacks, Allowed, IsSimulation, same_tables}
use quant_core_engine.TradingEngine.Simulation.Publishing.{publish-simulated}

pub if_not : {A : Type 0} (b : Bool) (a c : A) → b ≡ false → (if b then a else c) ≡ c
if_not false a c e = refl
if_not true a c e = cc

pub if_so : {A : Type 0} (b : Bool) (a c : A) → b ≡ true → (if b then a else c) ≡ a
if_so true a c e = refl
if_so false a c e = cc

module _ {F : Type 0} where
  -- The pointers and threads of `q`, with another engine.
  abbrev pub carry : Process F → TradingEngine F → Process F
  carry q w = record q { engine = w }

  -- Each callback on the bus has the pointer that it uses.
  abbrev pub Covers : Process F → Bus Callback → Type 0
  Covers q b =
      All (λ s. Allowed (q.order_routing_thread ≡ true) (q.ipc_server ≡ true) s.1) b.subscribers

  abbrev pub IsCovered : Process F → Buses → Type 0
  IsCovered q b = Covers q b.strategy_bus × Covers q b.risk_bus × Covers q b.routing_bus

  thread-carry :
      (l : Loop) (q : Process F) (w : TradingEngine F) → thread_of l (carry q w) ≡ thread_of l q
  thread-carry strategy q w = refl
  thread-carry risk q w = refl
  thread-carry routing q w = refl

  module _ (q : Process F) (b : Buses) where
    abbrev Carried : Process F → TradingEngine F → Type 0
    Carried p w = (p ≡ carry q w) × (buses w ≡ b)

    covered_bus :
        (l : Loop) (w : TradingEngine F) → IsCovered q b → buses w ≡ b → Covers q (bus_of l w)
    covered_bus strategy w c e = subst (λ (x : Buses). Covers q x.strategy_bus) (sym e) c.0
    covered_bus risk w c e = subst (λ (x : Buses). Covers q x.risk_bus) (sym e) c.1
    covered_bus routing w c e = subst (λ (x : Buses). Covers q x.routing_bus) (sym e) c.2

    carried_route :
        q.order_routing_thread ≡ true
        → (e : Event F) (w : TradingEngine F)
        → push_order e (carry q w) ≡ carry q (push_routing e w)
    unfolding push_order
    carried_route o e w = if_so q.order_routing_thread _ _ o

    carried_tell :
        q.ipc_server ≡ true
        → (e : Event F) (w : TradingEngine F)
        → push_update e (carry q w) ≡ carry q (push_telemetry e w)
    unfolding push_update
    carried_tell o e w = if_so q.ipc_server _ _ o

    simulation :
        IsCovered q b
        → IsSimulation process_host (q.order_routing_thread ≡ true) (q.ipc_server ≡ true) Carried
    simulation c = record {
      tables =
          same_tables process_host Carried
            (λ v w r. ap (λ (p : Process F). p.engine.order_tracker) r.0)
            (λ v w r. ap (λ (p : Process F). p.engine.position_engine) r.0)
            (λ s v w r. (
              ap (λ (p : Process F). record p { engine = record p.engine { order_tracker = s } })
                  r.0,
              r.1,
            ))
            (λ s v w r. (
              ap (λ (p : Process F). record p { engine = record p.engine { position_engine = s } })
                  r.0,
              r.1,
            ));
      risks = λ v w r. ap (λ (p : Process F). p.engine.risk_engine) r.0;
      ids = λ v w r. ap (λ (p : Process F). p.engine.order_id_gen) r.0;
      clock = λ v w r. ap (λ (p : Process F). p.engine.sim_clock) r.0;
      buses = λ l v w r. ap (λ (p : Process F). callbacks (bus_of l p.engine)) r.0;
      subscribed = λ l v w r. covered_bus l w c r.1;
      put_risks = λ s v w r. (
        ap (λ (p : Process F). record p { engine = record p.engine { risk_engine = s } }) r.0,
        r.1,
      );
      put_ids = λ s v w r. (
        ap (λ (p : Process F). record p { engine = record p.engine { order_id_gen = s } }) r.0,
        r.1,
      );
      pushing =
          λ e v w r. (ap (λ (p : Process F). record p { engine = push_risk e p.engine }) r.0, r.1);
      routing_it = λ o e v w r. (ap (push_order e) r.0 ∙ carried_route o e w, r.1);
      telling = λ o e v w r. (ap (push_update e) r.0 ∙ carried_tell o e w, r.1);
    }

  module _ ⦃d : Double F⦄ (ticks_per_ms : ℕ) (now : Timestamp) (q : Process F) (b : Buses)
      (f : q.faulted ≡ false) (c : IsCovered q b) where
    alive :
        (publish : Loop → Event F → Process F → Process F) (call : Callback) (e : Event F)
        (p : Process F) (w : TradingEngine F)
        → Carried q b p w
        → invoke_alive ticks_per_ms now publish call e p
          ≡ invoke_in ticks_per_ms now process_host publish call e p
    unfolding invoke_alive
    alive publish call e p w r = if_not p.faulted _ _ (ap (λ (p : Process F). p.faulted) r.0 ∙ f)

    taken-Carried :
        (l : Loop) (taken : Option (Event F) × Queue (Event F)) (w : TradingEngine F)
        → buses w ≡ b
        → Carried q b
            (publish_taken ticks_per_ms now l taken (carry q w))
            (publish_popped ticks_per_ms l now taken w)
    unfolding publish_taken publish_popped publish_in
    taken-Carried l (none, rest) w e = (refl, e)
    taken-Carried l (some x, rest) w e =
        publish-simulated process_host (q.order_routing_thread ≡ true) (q.ipc_server ≡ true)
          (Carried q b) (simulation q b c) ticks_per_ms now (invoke_alive ticks_per_ms now) alive
          (publish_in ticks_per_ms now) (λ l x v. refl) (λ fuel l x v. refl) depth l x
          (record (carry q w) { engine = set_queue l rest w }) (set_queue l rest w) (refl, after l)
      where
        after : (l : Loop) → buses (set_queue l rest w) ≡ b
        after strategy = e
        after risk = e
        after routing = e

    -- A turn of a loop whose thread is there.
    pub turn-carried :
        (l : Loop) (w : TradingEngine F)
        → thread_of l q ≡ true
        → buses w ≡ b
        → (turn_in ticks_per_ms l now (carry q w) ≡ carry q (turn ticks_per_ms l now w))
          × (buses (turn ticks_per_ms l now w) ≡ b)
    unfolding turn_in turn
    turn-carried l w t e =
        let (same, kept) = taken-Carried l (try_pop (queue_of l w)) w e in
        (
          if_not q.faulted _ _ f
              ∙ if_so (thread_of l (carry q w)) _ _ (thread-carry l q w ∙ t)
              ∙ same,
          kept,
        )

    -- Nothing happens where the thread is not there.
    pub turn-waits :
        (l : Loop) (w : TradingEngine F)
        → thread_of l q ≡ false
        → turn_in ticks_per_ms l now (carry q w) ≡ carry q w
    unfolding turn_in
    turn-waits l w t =
        if_not q.faulted _ _ f ∙ if_not (thread_of l (carry q w)) _ _ (thread-carry l q w ∙ t)
