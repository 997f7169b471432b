-- ===== src/Main/Program/Watching.antt =====
-- Main's callbacks write, and change nothing of the engine.
use quant_core_engine.Prelude.{
  ℕ, zero, suc, ◌≡◌, refl, sym, ap, ◌∙◌, List, [], ◌∷◌, ◌++◌, append_assoc, append-nil,
}
use quant_core_engine.Double.{Double}
use quant_core_engine.Events.{
  Timestamp, Event, market_data, signal, execution_report, position_update, order_update,
}
use quant_core_engine.EventBus.{Bus, SubscriptionId}
use quant_core_engine.EventBus
use quant_core_engine.TradingEngine.World.{
  Loop, strategy, risk, routing, Callback, TradingEngine, bus_of, push_risk, push_routing,
  push_telemetry, invoke, publish,
}
use quant_core_engine.TradingEngine.Simulation.{callbacks, IsSimulation, same_tables}
use quant_core_engine.TradingEngine.Simulation.Publishing.{invoke_in-simulated}
use quant_core_engine.TradingEngine.Simulation.{All-Allowed}
use quant_core_engine.Main.{Piece}
use quant_core_engine.Main.Program.{
  market_data_watcher, signal_watcher, execution_report_watcher, position_update_watcher,
  order_update_watcher, Listener, Program, listening, write, line_of, print, full_bus, program_host,
  listen, publish_full,
}

module _ {F : Type 0} where
  -- The engine is `w`, and what main has written begins with `before`.
  abbrev Follows : List (List (Piece F)) → Program F → TradingEngine F → Type 0
  Follows before p w =
      (p.engine ≡ w) × ((more : List (List (Piece F))) × (p.lines ≡ before ++ more))

  print-Follows :
      (before lines : List (List (Piece F))) (p : Program F) (w : TradingEngine F)
      → Follows before p w
      → Follows before (print lines p) w
  print-Follows before lines p w (same, (more, e)) =
      (same, (more ++ lines, ap (λ ls. ls ++ lines) e ∙ append_assoc before more lines))

  simulation :
      (before : List (List (Piece F))) → IsSimulation program_host Unit Unit (Follows before)
  simulation before = record {
    tables =
        same_tables program_host (Follows before)
          (λ v w r. ap (λ (w : TradingEngine F). w.order_tracker) r.0)
          (λ v w r. ap (λ (w : TradingEngine F). w.position_engine) r.0)
          (λ s v w r. (ap (λ (w : TradingEngine F). record w { order_tracker = s }) r.0, r.1))
          (λ s v w r. (ap (λ (w : TradingEngine F). record w { position_engine = s }) r.0, r.1));
    risks = λ v w r. ap (λ (w : TradingEngine F). w.risk_engine) r.0;
    ids = λ v w r. ap (λ (w : TradingEngine F). w.order_id_gen) r.0;
    clock = λ v w r. ap (λ (w : TradingEngine F). w.sim_clock) r.0;
    buses = λ l v w r. ap (λ (w : TradingEngine F). callbacks (bus_of l w)) r.0;
    subscribed = λ l v w r. All-Allowed Unit Unit tt tt (bus_of l w).subscribers;
    put_risks = λ s v w r. (ap (λ (w : TradingEngine F). record w { risk_engine = s }) r.0, r.1);
    put_ids = λ s v w r. (ap (λ (w : TradingEngine F). record w { order_id_gen = s }) r.0, r.1);
    pushing = λ e v w r. (ap (push_risk e) r.0, r.1);
    routing_it = λ u e v w r. (ap (push_routing e) r.0, r.1);
    telling = λ u e v w r. (ap (push_telemetry e) r.0, r.1);
  }

module _ {F : Type 0} ⦃d : Double F⦄ (ticks_per_ms : ℕ) (now : Timestamp)
    (before : List (List (Piece F))) where
  listening-Follows :
      (p : Loop → Event F → Program F → Program F)
      (p' : Loop → Event F → TradingEngine F → TradingEngine F)
      (c : (l : Loop) (e : Event F) (v : Program F) (w : TradingEngine F)
        → Follows before v w
        → Follows before (p l e v) (p' l e w))
      (bus : Program F → Bus Listener) (l : Loop) (copy : List (SubscriptionId × Callback))
      (e : Event F) (v : Program F) (w : TradingEngine F)
      → Follows before v w
      → Follows before
          (EventBus.deliver bus (listen ticks_per_ms now p) (listening copy) e v)
          (EventBus.deliver (bus_of l) (invoke ticks_per_ms now p') copy e w)
  unfolding EventBus.deliver listen
  listening-Follows p p' c bus l [] e v w r = r
  listening-Follows p p' c bus l ((id, call) ∷ copy) e v w r =
      let (allowed, _) = All-Allowed Unit Unit tt tt ((id, call) ∷ []) in
      listening-Follows p p' c bus l copy e _ _ (
        invoke_in-simulated program_host Unit Unit (Follows before) (simulation before) ticks_per_ms
          now p p' c call e v w allowed r)

module _ {F : Type 0} where
  -- What main's four callbacks on the risk bus write for one event.
  risk_lines :
      (e : Event F) (p : Program F)
      → let clock = p.engine.sim_clock in
        print (write clock order_update_watcher e) (
          print (write clock position_update_watcher e) (
            print
              (write clock execution_report_watcher e)
              (print (write clock signal_watcher e) p)))
        ≡ print (line_of clock risk e) p
  unfolding write
  risk_lines (order_update e) p = simp append-nil
  risk_lines (position_update e) p = simp append-nil
  risk_lines (execution_report e) p = simp append-nil
  risk_lines (signal e) p = simp append-nil
  risk_lines _ p = simp append-nil

  strategy_lines :
      (e : Event F) (p : Program F)
      → print (write p.engine.sim_clock market_data_watcher e) p
        ≡ print (line_of p.engine.sim_clock strategy e) p
  unfolding write
  strategy_lines (market_data e) p = refl
  strategy_lines _ p = refl

module _ {F : Type 0} ⦃d : Double F⦄ (ticks_per_ms : ℕ) (now : Timestamp) where
  -- Main's callbacks come first, and write the line about the event.
  publish_full-watchers :
      (fuel : ℕ) (l : Loop) (e : Event F) (p : Program F)
      → publish_full ticks_per_ms now (suc fuel) l e p
        ≡ EventBus.deliver
            (full_bus l)
            (listen ticks_per_ms now (publish_full ticks_per_ms now fuel))
            (listening (bus_of l p.engine).subscribers)
            e
            (print (line_of p.engine.sim_clock l e) p)
  unfolding publish_full EventBus.publish EventBus.deliver listen
  publish_full-watchers fuel strategy e p =
      ap
        (EventBus.deliver (full_bus strategy)
          (listen ticks_per_ms now (publish_full ticks_per_ms now fuel))
          (listening p.engine.strategy_bus.subscribers) e)
        (strategy_lines e p)
  publish_full-watchers fuel risk e p =
      ap
        (EventBus.deliver (full_bus risk)
          (listen ticks_per_ms now (publish_full ticks_per_ms now fuel))
          (listening p.engine.risk_bus.subscribers) e)
        (risk_lines e p)
  publish_full-watchers fuel routing e p =
      ap
        (EventBus.deliver (full_bus routing)
          (listen ticks_per_ms now (publish_full ticks_per_ms now fuel))
          (listening p.engine.routing_bus.subscribers) e)
        (ap (λ ls. record p { lines = ls }) (sym (append-nil p.lines)))

  publish_full-Follows :
      (before : List (List (Piece F))) (fuel : ℕ) (l : Loop) (e : Event F) (v : Program F)
      (w : TradingEngine F)
      → Follows before v w
      → Follows before
          (publish_full ticks_per_ms now fuel l e v)
          (publish ticks_per_ms now fuel l e w)
  unfolding publish publish_full EventBus.publish
  publish_full-Follows before zero l e v w r = r
  publish_full-Follows before (suc fuel) l e v w r = rw (publish_full-watchers fuel l e v) (
      rw (ap (bus_of l) r.0) (
        listening-Follows ticks_per_ms now before (publish_full ticks_per_ms now fuel)
          (publish ticks_per_ms now fuel) (publish_full-Follows before fuel) (full_bus l) l
          (bus_of l w).subscribers e _ w
          (print-Follows before (line_of v.engine.sim_clock l e) v w r)))

  -- While an event is published on a bus, main first writes its line about it, and the lines about what
  -- comes of it follow; the engine is the one that publishes the event with no callback of main's.
  pub publish_full-publish :
      (fuel : ℕ) (l : Loop) (e : Event F) (p : Program F)
      → let after = publish_full ticks_per_ms now (suc fuel) l e p in
        (after.engine ≡ publish ticks_per_ms now (suc fuel) l e p.engine)
        × ((more : List (List (Piece F))) × (after.lines
              ≡ (p.lines ++ line_of p.engine.sim_clock l e) ++ more))
  unfolding publish EventBus.publish
  publish_full-publish fuel l e p =
      let before = p.lines ++ line_of p.engine.sim_clock l e in
      rw (publish_full-watchers fuel l e p) (
        listening-Follows ticks_per_ms now before (publish_full ticks_per_ms now fuel)
          (publish ticks_per_ms now fuel) (publish_full-Follows before fuel) (full_bus l) l
          (bus_of l p.engine).subscribers e (print (line_of p.engine.sim_clock l e) p) p.engine
          (refl, ([], sym (append-nil before))))
