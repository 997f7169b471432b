-- ===== src/TradingEngine/Starting/Again.antt =====
-- A second start is not safe: the callbacks of the first one are still on the buses, and the loops run
-- before the IPC server is there.
use quant_core_engine.Prelude.{
  ℕ, ◌≡◌, refl, ap, ◌∙◌, true, false, none, List, [], ◌∷◌, ◌++◌, map, nat_eq,
}
use quant_core_engine.Double.{Double, lit, ◌+◌, ◌<?◌}
use quant_core_engine.Events.{Timestamp, SignalEvent, OrderEvent, Event, signal, order_event}
use quant_core_engine.EventBus.{Bus, subscribe, unsubscribe, remove_id}
use quant_core_engine.EventBus
use quant_core_engine.ThreadSafeQueue.{try_pop}
use quant_core_engine.Table.{find}
use quant_core_engine.OrderTracker
use quant_core_engine.OrderIdGenerator.{next_id}
use quant_core_engine.PositionEngine
use quant_core_engine.RiskEngine
use quant_core_engine.TradingEngine.World.{
  Callback, forward_signal, forward_order, forward_report, telemetry_order, telemetry_position,
  telemetry_violation, tracker_on_order, tracker_on_report, position_on_order, position_on_fill,
  risk_on_signal, risk_on_violation, risk_host_in, depth, risk, TradingEngine,
}
use quant_core_engine.TradingEngine.Wiring.{start, stop, new_engine, wire, shut_down}
use quant_core_engine.TradingEngine.Stages.{Buses, buses, with_buses}
use quant_core_engine.TradingEngine.Process.{
  Process, at_work, process_host, turn_in, publish_taken, publish_in, push_order, push_update,
}
use quant_core_engine.TradingEngine.Covered.{if_not, if_so}
use quant_core_engine.TradingEngine.Stopping.{deliver-faulted}
use quant_core_engine.TradingEngine.Starting.{
  StartAct, turns, pushes, starts, first_steps, at_rest, begin, begin_all, act, act_all,
}

-- What `start` with IPC and then `stop` leave on the buses: the bridges.
abbrev left_buses : Buses
left_buses = record {
  strategy_bus = record { next_id = 2; subscribers = (0, forward_signal) ∷ [] };
  risk_bus = record {
    next_id = 10;
    subscribers =
        (4, forward_order)
        ∷ (7, telemetry_order)
        ∷ (8, telemetry_position)
        ∷ (9, telemetry_violation)
        ∷ [];
  };
  routing_bus = record { next_id = 2; subscribers = (1, forward_report) ∷ [] };
}

buses-stopped :
    (F : Type 0) ⦃d : Double F⦄ → buses (stop (start true none (new_engine {F = F}))) ≡ left_buses
unfolding stop start new_engine wire shut_down subscribe unsubscribe
buses-stopped F = refl

abbrev pub making : {F : Type 0} → List (StartAct F)
making = map starts (first_steps none)

-- The risk bus when the second start has made the risk engine.
abbrev remade_risk : Bus Callback
remade_risk = record {
  next_id = 17;
  subscribers =
      (4, forward_order)
      ∷ (7, telemetry_order)
      ∷ (8, telemetry_position)
      ∷ (9, telemetry_violation)
      ∷ (10, tracker_on_order)
      ∷ (11, tracker_on_report)
      ∷ (12, position_on_order)
      ∷ (13, position_on_fill)
      ∷ (14, forward_order)
      ∷ (15, risk_on_signal)
      ∷ (16, risk_on_violation)
      ∷ [];
}

module _ {F : Type 0} ⦃d : Double F⦄ (ticks_per_ms : ℕ) where
  -- All but the IPC server is there.
  abbrev half_started : TradingEngine F → Process F
  half_started w = record (at_work (record w { risk_bus = remade_risk })) { ipc_server = false }

  order-faults :
      (now : Timestamp) (o : OrderEvent F) (w : TradingEngine F)
      → (publish_in ticks_per_ms now 4 risk (order_event o) (half_started w)).faulted ≡ true
  unfolding publish_in EventBus.publish push_order push_update OrderTracker.on_order
  order-faults now o w = refl

  signal-faults :
      (now : Timestamp) (e : SignalEvent F) (w : TradingEngine F)
      → w.risk_engine.halt_flag ≡ false
      → RiskEngine.exceeds_limit w.risk_engine.limits w.position_engine e ≡ false
      → (RiskEngine.on_signal
          (risk_host_in process_host (publish_in ticks_per_ms now 4 risk))
          now
          e
          (half_started w)).faulted
        ≡ true
  unfolding RiskEngine.on_signal next_id
  signal-faults now e w going under =
      ap (λ (q : Process F). q.faulted)
        (if_not w.risk_engine.halt_flag _ _ going
          ∙ if_not (RiskEngine.exceeds_limit w.risk_engine.limits w.position_engine e) _ _ under)
      ∙ order-faults now (RiskEngine.order_event_of now w.order_id_gen.next e)
          (record w { order_id_gen = (next_id w.order_id_gen).1 })

  publish-faults :
      (now : Timestamp) (e : SignalEvent F) (w : TradingEngine F)
      → w.risk_engine.halt_flag ≡ false
      → RiskEngine.exceeds_limit w.risk_engine.limits w.position_engine e ≡ false
      → (publish_in ticks_per_ms now depth risk (signal e) (half_started w)).faulted ≡ true
  unfolding publish_in EventBus.publish
  publish-faults now e w going under =
      let hit = signal-faults now e w going under in
      ap (λ q. q.faulted)
        (deliver-faulted ticks_per_ms now (publish_in ticks_per_ms now 4) risk
          ((16, risk_on_violation) ∷ []) (signal e) _ hit)
      ∙ hit

  -- The engine when the second start has made the risk engine.
  abbrev remade : TradingEngine F → TradingEngine F
  remade w = (begin_all (first_steps none) (at_rest (with_buses left_buses w))).engine

  remade-half_started :
      (acts : List (StartAct F)) (w : TradingEngine F)
      → act_all ticks_per_ms (making ++ acts) (at_rest (with_buses left_buses w))
        ≡ act_all ticks_per_ms acts (half_started (remade w))
  unfolding act_all act begin_all begin subscribe
  remade-half_started acts w = refl

  remade-under :
      (e : SignalEvent F) (w : TradingEngine F)
      → (lit 1000 <? lit {F = F} 0 + lit 1) ≡ false
      → RiskEngine.exceeds_limit (remade w).risk_engine.limits (remade w).position_engine e ≡ false
  unfolding begin_all begin subscribe RiskEngine.exceeds_limit RiskEngine.current_quantity
      PositionEngine.position find
  remade-under e w under = under

  turn-faults :
      (now : Timestamp) (e : SignalEvent F) (rest : List (Event F)) (w : TradingEngine F)
      → w.risk_queue ≡ record { items = signal e ∷ rest }
      → w.risk_engine.halt_flag ≡ false
      → RiskEngine.exceeds_limit w.risk_engine.limits w.position_engine e ≡ false
      → (turn_in ticks_per_ms risk now (half_started w)).faulted ≡ true
  unfolding turn_in publish_taken try_pop
  turn-faults now e rest w front going under =
      ap (λ q. (turn_in ticks_per_ms risk now (half_started (record w { risk_queue = q }))).faulted)
        front
      ∙ publish-faults now e (record w { risk_queue = record { items = rest } }) going under

  act_all-faulted :
      (acts : List (StartAct F)) (p : Process F)
      → p.faulted ≡ true
      → act_all ticks_per_ms acts p ≡ p
  unfolding act_all act turn_in
  act_all-faulted [] p f = refl
  act_all-faulted (turns l now ∷ acts) p f =
      ap (act_all ticks_per_ms acts) (if_so p.faulted p _ f) ∙ act_all-faulted acts p f
  act_all-faulted (pushes e ∷ acts) p f =
      ap (act_all ticks_per_ms acts) (if_so p.faulted p _ f) ∙ act_all-faulted acts p f
  act_all-faulted (starts s ∷ acts) p f =
      ap (act_all ticks_per_ms acts) (if_so p.faulted p _ f) ∙ act_all-faulted acts p f

  -- The engine was started, with IPC and with nothing to reconcile, and stopped, and a signal is at the
  -- front of the risk loop's queue when it is started again. If the loop takes a turn right after the
  -- step that makes the risk engine, and so before the one that makes the IPC server, the telemetry
  -- callback of the first start uses the null pointer, whatever comes after. The limit must allow a
  -- first unit, as it does with IEEE doubles.
  pub act_all-restarted :
      (now : Timestamp) (e : SignalEvent F) (rest : List (Event F)) (acts : List (StartAct F))
      (w : TradingEngine F)
      → buses w ≡ buses (stop (start true none (new_engine {F = F})))
      → w.risk_queue ≡ record { items = signal e ∷ rest }
      → (lit 1000 <? lit {F = F} 0 + lit 1) ≡ false
      → (act_all ticks_per_ms (making ++ turns risk now ∷ acts) (at_rest w)).faulted ≡ true
  unfolding begin_all begin act_all act
  act_all-restarted now e rest acts w left front under =
      let same = ap (λ b. with_buses b w) (left ∙ buses-stopped F) in
      let hit = turn-faults now e rest (remade w) front refl (remade-under e w under) in
      ap (λ v. (act_all ticks_per_ms (making ++ turns risk now ∷ acts) (at_rest v)).faulted) same
      ∙ ap (λ (q : Process F). q.faulted) (remade-half_started (turns risk now ∷ acts) w)
      ∙ ap (λ (q : Process F). q.faulted) (act_all-faulted acts _ hit)
      ∙ hit
