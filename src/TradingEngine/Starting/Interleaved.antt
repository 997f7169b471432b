-- ===== src/TradingEngine/Starting/Interleaved.antt =====
-- A first start is safe whatever comes between its steps: a bridge is made after the pointer that it
-- uses.
use quant_core_engine.Prelude.{
  ℕ, ◌≡◌, refl, sym, ap, ◌∙◌, Bool, true, false, Option, List, [], ◌∷◌, ◌++◌, All, All-append, inl,
  inr, Bool-cases,
}
use mathlib.Core.Path.{subst}
use quant_core_engine.Double.{Double}
use quant_core_engine.EventBus.{SubscriptionId, subscribe}
use quant_core_engine.TradingEngine.World.{
  Callback, tracker_on_order, tracker_on_report, position_on_order, position_on_fill,
  risk_on_signal, risk_on_violation, strategy_on_market_data, forward_signal, forward_report,
  forward_order, telemetry_order, telemetry_position, telemetry_violation, TradingEngine,
  push_strategy,
}
use quant_core_engine.TradingEngine.Wiring.{Reconciled, wire}
use quant_core_engine.TradingEngine.Stages.{buses, with_buses, buses-reconcile}
use quant_core_engine.TradingEngine.Turns.{turn, push_event}
use quant_core_engine.TradingEngine.Process.{Process, thread_of, turn_in}
use quant_core_engine.TradingEngine.Simulation.{Allowed}
use quant_core_engine.TradingEngine.Covered.{carry, IsCovered, if_not, turn-carried, turn-waits}
use quant_core_engine.TradingEngine.Starting.{
  StartStep, make_tracker, make_positions, hydrate, start_strategy_loop, start_risk_loop,
  bridge_signals, make_routing, bridge_orders, bridge_reports, make_strategy, make_risk,
  make_ipc_server, bridge_order_updates, bridge_position_updates, bridge_violations, set_running,
  StartAct, turns, pushes, starts, start_steps, at_rest, steps_of, begin, begin_all, launched,
  begin_all-launched, act, act_all,
}

module _ {F : Type 0} where
  -- Each bridge comes after the pointer that it uses, if the two pointers are as given at first.
  abbrev Fits : Bool → Bool → List (StartStep F) → Type 0
  Fits routed told [] = Unit
  Fits routed told (make_routing ∷ steps) = Fits true told steps
  Fits routed told (make_ipc_server ∷ steps) = Fits routed true steps
  Fits routed told (bridge_orders ∷ steps) = (routed ≡ true) × Fits routed told steps
  Fits routed told (bridge_order_updates ∷ steps) = (told ≡ true) × Fits routed told steps
  Fits routed told (bridge_position_updates ∷ steps) = (told ≡ true) × Fits routed told steps
  Fits routed told (bridge_violations ∷ steps) = (told ≡ true) × Fits routed told steps
  Fits routed told (_ ∷ steps) = Fits routed told steps

  Fits-start_steps : (ipc : Bool) (r : Option (Reconciled F)) → Fits false false (start_steps ipc r)
  Fits-start_steps true r = (refl, (refl, (refl, (refl, tt))))
  Fits-start_steps false r = (refl, tt)

Allowed-mono :
    (routed told routed' told' : Type 0) (subs : List (SubscriptionId × Callback))
    → (routed → routed')
    → (told → told')
    → All (λ s. Allowed routed told s.1) subs
    → All (λ s. Allowed routed' told' s.1) subs
Allowed-mono routed told routed' told' [] f g a = tt
Allowed-mono routed told routed' told' ((id, c) ∷ subs) f g a =
    (weaker c a.0, Allowed-mono routed told routed' told' subs f g a.1)
  where
    weaker : (c : Callback) → Allowed routed told c → Allowed routed' told' c
    weaker forward_order x = f x
    weaker telemetry_order x = g x
    weaker telemetry_position x = g x
    weaker telemetry_violation x = g x
    weaker _ x = tt

module _ {F : Type 0} ⦃d : Double F⦄ where
  -- What a step does to the pointers, threads and buses does not depend on the rest of the engine.
  begin-carry :
      (s : StartStep F) (q : Process F) (w : TradingEngine F)
      → begin s (carry q w) ≡ carry (begin s q) (begin s (carry q w)).engine
  unfolding begin
  begin-carry make_tracker q w = refl
  begin-carry _ q w = refl

  begin-buses :
      (s : StartStep F) (q : Process F) (w : TradingEngine F)
      → buses w ≡ buses q.engine
      → buses (begin s (carry q w)).engine ≡ buses (begin s q).engine
  unfolding begin subscribe
  begin-buses (hydrate r) q w e = buses-reconcile r w ∙ e ∙ sym (buses-reconcile r q.engine)
  begin-buses s q w e = ap (λ b. buses (begin s (carry q (with_buses b w))).engine) e

  begin-faulted : (s : StartStep F) (q : Process F) → (begin s q).faulted ≡ q.faulted
  unfolding begin
  begin-faulted make_tracker q = refl
  begin-faulted _ q = refl

  -- The callbacks of these subscriptions have what they use.
  abbrev Serves : Process F → List (SubscriptionId × Callback) → Type 0
  Serves q subs = All (λ s. Allowed (q.order_routing_thread ≡ true) (q.ipc_server ≡ true) s.1) subs

  added-Serves :
      (q : Process F) (subs : List (SubscriptionId × Callback)) (id : SubscriptionId) (c : Callback)
      → Serves q subs
      → Allowed (q.order_routing_thread ≡ true) (q.ipc_server ≡ true) c
      → Serves q (subs ++ (id, c) ∷ [])
  added-Serves q subs id c h a =
      All-append (λ s. Allowed (q.order_routing_thread ≡ true) (q.ipc_server ≡ true) s.1) subs
        ((id, c) ∷ []) h (a, tt)

  -- A bus to which a component has subscribed two more callbacks.
  twice_added-Serves :
      (q : Process F) (subs : List (SubscriptionId × Callback)) (id id' : SubscriptionId)
      (c c' : Callback)
      → Serves q subs
      → Allowed (q.order_routing_thread ≡ true) (q.ipc_server ≡ true) c
      → Allowed (q.order_routing_thread ≡ true) (q.ipc_server ≡ true) c'
      → Serves q ((subs ++ (id, c) ∷ []) ++ (id', c') ∷ [])
  twice_added-Serves q subs id id' c c' h a a' =
      added-Serves q (subs ++ (id, c) ∷ []) id' c' (added-Serves q subs id c h a) a'

  -- A step that fits keeps all callbacks covered.
  begin-IsCovered :
      (s : StartStep F) (steps : List (StartStep F)) (q : Process F)
      → Fits q.order_routing_thread q.ipc_server (s ∷ steps)
      → IsCovered q (buses q.engine)
      → IsCovered (begin s q) (buses (begin s q).engine)
        × Fits (begin s q).order_routing_thread (begin s q).ipc_server steps
  unfolding begin subscribe
  begin-IsCovered make_tracker steps q f (a, b, c) =
      ((a, twice_added-Serves q _ _ _ tracker_on_order tracker_on_report b tt tt, c), f)
  begin-IsCovered make_positions steps q f (a, b, c) =
      ((a, twice_added-Serves q _ _ _ position_on_order position_on_fill b tt tt, c), f)
  begin-IsCovered (hydrate r) steps q f h =
      (subst (IsCovered q) (sym (buses-reconcile r q.engine)) h, f)
  begin-IsCovered bridge_signals steps q f (a, b, c) =
      ((added-Serves q _ _ forward_signal a tt, b, c), f)
  begin-IsCovered make_routing steps q f (a, b, c) =
      let now_routed = λ (s : List (SubscriptionId × Callback)).
        Allowed-mono (q.order_routing_thread ≡ true) (q.ipc_server ≡ true) (true ≡ true)
          (q.ipc_server ≡ true) s (λ e. refl) (λ e. e) in
      ((now_routed _ a, now_routed _ b, (tt, tt)), f)
  begin-IsCovered bridge_orders steps q f (a, b, c) =
      ((a, added-Serves q _ _ forward_order b f.0, c), f.1)
  begin-IsCovered bridge_reports steps q f (a, b, c) =
      ((a, b, added-Serves q _ _ forward_report c tt), f)
  begin-IsCovered make_strategy steps q f (a, b, c) =
      ((added-Serves q _ _ strategy_on_market_data a tt, b, c), f)
  begin-IsCovered make_risk steps q f (a, b, c) =
      ((a, twice_added-Serves q _ _ _ risk_on_signal risk_on_violation b tt tt, c), f)
  begin-IsCovered make_ipc_server steps q f (a, b, c) =
      let now_told = λ (s : List (SubscriptionId × Callback)).
        Allowed-mono (q.order_routing_thread ≡ true) (q.ipc_server ≡ true)
          (q.order_routing_thread ≡ true) (true ≡ true) s (λ e. e) (λ e. refl) in
      ((now_told _ a, now_told _ b, now_told _ c), f)
  begin-IsCovered bridge_order_updates steps q f (a, b, c) =
      ((a, added-Serves q _ _ telemetry_order b f.0, c), f.1)
  begin-IsCovered bridge_position_updates steps q f (a, b, c) =
      ((a, added-Serves q _ _ telemetry_position b f.0, c), f.1)
  begin-IsCovered bridge_violations steps q f (a, b, c) =
      ((a, added-Serves q _ _ telemetry_violation b f.0, c), f.1)
  begin-IsCovered start_strategy_loop steps q f h = (h, f)
  begin-IsCovered start_risk_loop steps q f h = (h, f)
  begin-IsCovered set_running steps q f h = (h, f)

module _ {F : Type 0} ⦃d : Double F⦄ (ticks_per_ms : ℕ) where
  -- The pointers, threads and buses are those of the steps alone, and only the rest of the engine is
  -- another.
  abbrev pub Interleaved : List (StartAct F) → Process F → Process F → Type 0
  Interleaved acts p q =
      (w : TradingEngine F) × (act_all ticks_per_ms acts p ≡ carry (begin_all (steps_of acts) q) w)
      × (buses w ≡ buses (begin_all (steps_of acts) q).engine)
      × ((begin_all (steps_of acts) q).faulted ≡ false)

  further :
      (acts : List (StartAct F)) (p p' q : Process F)
      → p' ≡ p
      → Interleaved acts p q
      → Interleaved acts p' q
  further acts p p' q e (w, r, b, f) = (w, ap (act_all ticks_per_ms acts) e ∙ r, b, f)

  interleave :
      (acts : List (StartAct F)) (q : Process F) (w : TradingEngine F)
      → q.faulted ≡ false
      → IsCovered q (buses q.engine)
      → Fits q.order_routing_thread q.ipc_server (steps_of acts)
      → buses w ≡ buses q.engine
      → Interleaved acts (carry q w) q
  unfolding act_all begin_all act push_event
  interleave [] q w f c fits b = (w, refl, b, f)
  interleave (turns l now ∷ acts) q w f c fits b = elim (Bool-cases (thread_of l q)) [
    | inl there ↦
        let (same, kept) = turn-carried ticks_per_ms now q (buses q.engine) f c l w there b in
        further acts (carry q (turn ticks_per_ms l now w)) (turn_in ticks_per_ms l now (carry q w))
          q same (interleave acts q _ f c fits kept)
    | inr gone ↦
        further acts (carry q w) (turn_in ticks_per_ms l now (carry q w)) q
          (turn-waits ticks_per_ms now q (buses q.engine) f c l w gone)
          (interleave acts q w f c fits b)
  ]
  interleave (pushes e ∷ acts) q w f c fits b =
      further acts (carry q (push_strategy e w)) (act ticks_per_ms (pushes e) (carry q w)) q
        (if_not q.faulted _ _ f) (interleave acts q (push_strategy e w) f c fits b)
  interleave (starts s ∷ acts) q w f c fits b =
      let (covered, fits') = begin-IsCovered s (steps_of acts) q fits c in
      further acts (carry (begin s q) (begin s (carry q w)).engine)
        (act ticks_per_ms (starts s) (carry q w)) (begin s q)
        (if_not q.faulted _ _ f ∙ begin-carry s q w)
        (interleave acts (begin s q) (begin s (carry q w)).engine (begin-faulted s q ∙ f) covered
          fits' (begin-buses s q w b))

  -- Nobody is subscribed.
  abbrev pub IsUnsubscribed : TradingEngine F → Type 0
  IsUnsubscribed w =
      (w.strategy_bus.subscribers ≡ [])
      × (w.risk_bus.subscribers ≡ [])
      × (w.routing_bus.subscribers ≡ [])

  unsubscribed-Serves :
      (q : Process F) (subs : List (SubscriptionId × Callback)) → subs ≡ [] → Serves q subs
  unsubscribed-Serves q subs e = subst (Serves q) (sym e) tt

  -- Whatever turns of the loops and pushes of other threads come between the steps of a first start, with
  -- or without IPC and a reconciler, no null pointer is used, and in the end the pointers, threads and
  -- buses are those of a start that nothing came between.
  pub act_all-launched :
      (ipc : Bool) (r : Option (Reconciled F)) (acts : List (StartAct F)) (w : TradingEngine F)
      → IsUnsubscribed w
      → steps_of acts ≡ start_steps ipc r
      → let after = act_all ticks_per_ms acts (at_rest w) in
        (after ≡ record (launched ipc r w) { engine = after.engine })
        × (buses after.engine ≡ buses (wire ipc r w))
  act_all-launched ipc r acts w none_yet all_steps =
      let covered : IsCovered (at_rest w) (buses w) = (
        unsubscribed-Serves (at_rest w) w.strategy_bus.subscribers none_yet.0,
        unsubscribed-Serves (at_rest w) w.risk_bus.subscribers none_yet.1,
        unsubscribed-Serves (at_rest w) w.routing_bus.subscribers none_yet.2,
      ) in
      let fits = subst (Fits false false) (sym all_steps) (Fits-start_steps ipc r) in
      let (w', e, b, f) = interleave acts (at_rest w) w refl covered fits refl in
      let same = ap (λ s. begin_all s (at_rest w)) all_steps ∙ begin_all-launched ipc r w in
      let now_there = ap (λ p. p.engine) e in
      (
        e ∙ ap (λ q. carry q w') same ∙ ap (carry (launched ipc r w)) (sym now_there),
        ap buses now_there ∙ b ∙ ap (λ q. buses q.engine) same,
      )
