-- ===== src/TradingEngine/Stopping.antt =====
-- `TradingEngine::stop` while the loops still take turns.
use quant_core_engine.Prelude.{
  ℕ, ◌≡◌, refl, sym, ap, ◌∙◌, Bool, true, false, none, some, List, [], ◌∷◌, inl, inr, Bool-cases,
  nat_eq, if◌then◌else◌,
}
use quant_core_engine.Double.{Double}
use quant_core_engine.Domain.{Order}
use quant_core_engine.Events.{Timestamp, ExecutionReportEvent, Event, execution_report}
use quant_core_engine.Table.{find}
use quant_core_engine.EventBus.{SubscriptionId}
use quant_core_engine.EventBus
use quant_core_engine.ThreadSafeQueue.{Queue, try_pop}
use quant_core_engine.OrderTracker.{transition_status, is_terminal, propose}
use quant_core_engine.OrderTracker
use quant_core_engine.TradingEngine.World.{
  Loop, strategy, risk, routing, Callback, TradingEngine, bus_of, tracker_host_in, depth,
}
use quant_core_engine.TradingEngine.Wiring.{shut_down, unsubscribe_on}
use quant_core_engine.TradingEngine.Stages.{wired, wired_risk}
use quant_core_engine.TradingEngine.Process.{
  Process, StopStep, reset_ipc_server, destroy_risk_engine, destroy_position_engine,
  destroy_order_tracker, destroy_strategy, reset_order_routing, destroy_execution_engine,
  join_routing, stop_strategy_loop, stop_risk_loop, clear_running, stop_steps, Act, turns, stops,
  process_host, push_update, perform, perform_all, at_work, invoke_alive, publish_in, publish_taken,
  turn_in, act, act_all,
}

-- The callbacks of the risk bus after the tracker's.
abbrev after_tracker : List (SubscriptionId × Callback)
after_tracker = elim wired_risk.subscribers [ _ ∷ _ ∷ later ↦ later | _ ↦ [] ]

if_same : {A : Type 0} (b c : Bool) (a : A) → (if b then a else if c then a else a) ≡ a
if_same true c a = refl
if_same false true a = refl
if_same false false a = refl

if_true : {A : Type 0} (b : Bool) (a c : A) → b ≡ true → (if b then a else c) ≡ a
if_true true a c e = refl
if_true false a c e = cc

module _ {F : Type 0} ⦃d : Double F⦄ where
  -- What `stop` leaves, if no loop takes a turn in between.
  abbrev pub stopped : Process F → Process F
  stopped p = record {
    engine = shut_down p.engine;
    order_routing_thread = false;
    ipc_server = false;
    strategy_thread = false;
    risk_thread = false;
    routing_thread = false;
    faulted = p.faulted;
  }

  -- The steps of `stop`, with no turn of a loop between them, do to the engine what `shut_down` does,
  -- and leave no pointer and no thread.
  pub perform_all-stopped : (p : Process F) → perform_all stop_steps p ≡ stopped p
  unfolding perform_all perform shut_down
  perform_all-stopped p = refl

module _ {F : Type 0} where
  try_pop-empty : (q : Queue (Event F)) → q.items ≡ [] → try_pop q ≡ (none, q)
  unfolding try_pop
  try_pop-empty q e =
      ap (λ es. try_pop (record { items = es })) e
      ∙ ap (λ es. (none, record { items = es })) (sym e)

  -- Nothing is queued for a loop, and nothing has faulted.
  abbrev pub IsIdle : Process F → Type 0
  IsIdle p =
      (p.engine.strategy_queue.items ≡ [])
      × (p.engine.risk_queue.items ≡ [])
      × (p.engine.routing_queue.items ≡ [])
      × (p.faulted ≡ false)

  perform-IsIdle : (s : StopStep) (p : Process F) → IsIdle p → IsIdle (perform s p)
  unfolding perform unsubscribe_on
  perform-IsIdle reset_ipc_server p h = h
  perform-IsIdle destroy_risk_engine p h = h
  perform-IsIdle destroy_position_engine p h = h
  perform-IsIdle destroy_order_tracker p h = h
  perform-IsIdle destroy_strategy p h = h
  perform-IsIdle reset_order_routing p h = h
  perform-IsIdle destroy_execution_engine p h = h
  perform-IsIdle join_routing p h = h
  perform-IsIdle stop_strategy_loop p h = h
  perform-IsIdle stop_risk_loop p h = h
  perform-IsIdle clear_running p h = h

  if-IsIdle : (b : Bool) (p q : Process F) → IsIdle p → IsIdle q → IsIdle (if b then p else q)
  if-IsIdle true p q h k = h
  if-IsIdle false p q h k = k

module _ {F : Type 0} ⦃d : Double F⦄ (ticks_per_ms : ℕ) where
  turn_in-idle :
      (l : Loop) (now : Timestamp) (p : Process F) → IsIdle p → turn_in ticks_per_ms l now p ≡ p
  unfolding turn_in publish_taken
  turn_in-idle strategy now p (s, r, o, f) =
      rw (try_pop-empty p.engine.strategy_queue s) (if_same p.faulted p.strategy_thread p)
  turn_in-idle risk now p (s, r, o, f) =
      rw (try_pop-empty p.engine.risk_queue r) (if_same p.faulted p.risk_thread p)
  turn_in-idle routing now p (s, r, o, f) =
      rw (try_pop-empty p.engine.routing_queue o) (if_same p.faulted p.routing_thread p)

  -- If nothing is queued for the loops when `stop` begins, no interleaving of its steps with turns of
  -- the loops uses a null pointer or queues an event.
  pub act_all-IsIdle :
      (acts : List Act) (p : Process F) → IsIdle p → IsIdle (act_all ticks_per_ms acts p)
  unfolding act_all act
  act_all-IsIdle [] p h = h
  act_all-IsIdle (turns l now ∷ acts) p h = act_all-IsIdle acts _ (rw (turn_in-idle l now p h) h)
  act_all-IsIdle (stops s ∷ acts) p h =
      act_all-IsIdle acts _ (if-IsIdle p.faulted p (perform s p) h (perform-IsIdle s p h))

  act_all-faulted :
      (acts : List Act) (p : Process F) → p.faulted ≡ true → act_all ticks_per_ms acts p ≡ p
  unfolding act_all act turn_in
  act_all-faulted [] p f = refl
  act_all-faulted (turns l now ∷ acts) p f =
      ap (act_all ticks_per_ms acts) (if_true p.faulted p _ f) ∙ act_all-faulted acts p f
  act_all-faulted (stops s ∷ acts) p f =
      ap (act_all ticks_per_ms acts) (if_true p.faulted p _ f) ∙ act_all-faulted acts p f

  pub deliver-faulted :
      (now : Timestamp) (publish : Loop → Event F → Process F → Process F) (l : Loop)
      (copy : List (SubscriptionId × Callback)) (e : Event F) (p : Process F)
      → p.faulted ≡ true
      → EventBus.deliver (λ q. bus_of l q.engine) (invoke_alive ticks_per_ms now publish) copy e p
        ≡ p
  unfolding EventBus.deliver invoke_alive
  deliver-faulted now publish l [] e p f = refl
  deliver-faulted now publish l ((id, c) ∷ copy) e p f =
      ap (EventBus.deliver (λ q. bus_of l q.engine) (invoke_alive ticks_per_ms now publish) copy e)
        (if_true p.faulted p _ f)
      ∙ deliver-faulted now publish l copy e p f

  -- The IPC server is gone, and the rest is there.
  abbrev without_ipc : TradingEngine F → Process F
  without_ipc w = record (at_work w) { ipc_server = false }

  abbrev reported : Timestamp → ExecutionReportEvent F → TradingEngine F → Process F
  reported now e w =
      OrderTracker.on_execution_report
        (tracker_host_in process_host (publish_in ticks_per_ms now 4 risk)) e
        (without_ipc (wired w))

  tracker_report-faults :
      (now : Timestamp) (e : ExecutionReportEvent F) (o : Order F) (w : TradingEngine F)
      → find e.order_id w.order_tracker.active_orders ≡ some o
      → transition_status o.status (propose e.status) ≡ true
      → (reported now e w).faulted ≡ true
  unfolding OrderTracker.on_execution_report publish_in EventBus.publish push_update
  tracker_report-faults now e o w known allowed =
      elim (Bool-cases (is_terminal (propose e.status))) [
        | inl done ↦ rw (known, OrderTracker.on_execution_report) (rw (allowed, done) refl)
        | inr still ↦ rw (known, OrderTracker.on_execution_report) (rw (allowed, still) refl)
      ]

  report-faults :
      (now : Timestamp) (e : ExecutionReportEvent F) (o : Order F) (w : TradingEngine F)
      → find e.order_id w.order_tracker.active_orders ≡ some o
      → transition_status o.status (propose e.status) ≡ true
      → (publish_in ticks_per_ms now depth risk
          (execution_report e)
          (without_ipc (wired w))).faulted
        ≡ true
  unfolding publish_in EventBus.publish
  report-faults now e o w known allowed =
      let hit = tracker_report-faults now e o w known allowed in
      ap (λ q. q.faulted)
        (deliver-faulted now (publish_in ticks_per_ms now 4) risk after_tracker (execution_report e)
          (reported now e w) hit)
      ∙ hit

  -- If a report that the tracker accepts is at the front of the risk loop's queue when `stop` begins on
  -- an engine with the buses of a start with IPC, and the loop takes its turn after the IPC server is
  -- gone, the telemetry callback uses the null pointer.
  pub act_all-stopping :
      (now : Timestamp) (e : ExecutionReportEvent F) (o : Order F) (rest : List (Event F))
      (w : TradingEngine F) (acts : List Act)
      → find e.order_id w.order_tracker.active_orders ≡ some o
      → transition_status o.status (propose e.status) ≡ true
      → let queued = record w { risk_queue = record { items = execution_report e ∷ rest } } in
        (act_all ticks_per_ms
          (stops reset_ipc_server ∷ turns risk now ∷ acts)
          (at_work (wired queued))).faulted
        ≡ true
  unfolding act_all act perform turn_in publish_taken try_pop
  act_all-stopping now e o rest w acts known allowed =
      let left = record w { risk_queue = record { items = rest } } in
      let hit = report-faults now e o left known allowed in
      ap (λ q. q.faulted) (act_all-faulted acts _ hit) ∙ hit
