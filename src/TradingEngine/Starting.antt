-- ===== src/TradingEngine/Starting.antt =====
-- `TradingEngine::start` in steps, while other threads push events and the loops that it has already
-- started take turns. A constructor, with its subscriptions, is one step.
pub mod Interleaved
pub mod Again
use quant_core_engine.Prelude.{
  ℕ, ◌≡◌, refl, Bool, true, false, Option, List, [], ◌∷◌, ◌++◌, if◌then◌else◌,
}
use quant_core_engine.Double.{Double}
use quant_core_engine.Events.{Timestamp, Event}
use quant_core_engine.TradingEngine.World.{
  Loop, strategy, risk, routing, Callback, forward_signal, forward_order, forward_report,
  telemetry_order, telemetry_position, telemetry_violation, TradingEngine,
}
use quant_core_engine.TradingEngine.Wiring.{
  Reconciled, bridge, reconcile, create_order_tracker, create_position_engine, create_order_routing,
  create_strategy, create_risk_engine, create_ipc, wire,
}
use quant_core_engine.TradingEngine.Turns.{push_event}
use quant_core_engine.TradingEngine.Process.{Process, turn_in}

-- In the source's order. The market data thread, which comes last, only pushes events.
pub data StartStep (F : Type 0) : Type 0 where
  make_tracker make_positions : StartStep F
  hydrate : Option (Reconciled F) → StartStep F
  start_strategy_loop start_risk_loop bridge_signals : StartStep F
  make_routing bridge_orders bridge_reports make_strategy make_risk : StartStep F
  make_ipc_server bridge_order_updates bridge_position_updates bridge_violations : StartStep F
  set_running : StartStep F

-- A loop takes a turn, another thread pushes an event, or the owner goes on with `start`.
pub data StartAct (F : Type 0) : Type 0 where
  turns : Loop → Timestamp → StartAct F
  pushes : Event F → StartAct F
  starts : StartStep F → StartAct F

module _ {F : Type 0} where
  -- `ipc` says whether both IPC endpoints are set.
  abbrev ipc_steps : Bool → List (StartStep F)
  ipc_steps false = []
  ipc_steps true =
      make_ipc_server ∷ bridge_order_updates ∷ bridge_position_updates ∷ bridge_violations ∷ []

  -- Up to the risk engine; the IPC server is next.
  abbrev pub first_steps : Option (Reconciled F) → List (StartStep F)
  first_steps reconciler =
      make_tracker
      ∷ make_positions
      ∷ hydrate reconciler
      ∷ start_strategy_loop
      ∷ start_risk_loop
      ∷ bridge_signals
      ∷ make_routing
      ∷ bridge_orders
      ∷ bridge_reports
      ∷ make_strategy
      ∷ make_risk
      ∷ []

  abbrev pub start_steps : Bool → Option (Reconciled F) → List (StartStep F)
  start_steps ipc reconciler = first_steps reconciler ++ (ipc_steps ipc ++ set_running ∷ [])

  -- Before the first start, and after a stop.
  abbrev pub at_rest : TradingEngine F → Process F
  at_rest w = record {
    engine = w;
    order_routing_thread = false;
    ipc_server = false;
    strategy_thread = false;
    risk_thread = false;
    routing_thread = false;
    faulted = false;
  }

  abbrev pub steps_of : List (StartAct F) → List (StartStep F)
  steps_of [] = []
  steps_of (starts s ∷ acts) = s ∷ steps_of acts
  steps_of (_ ∷ acts) = steps_of acts

module _ {F : Type 0} ⦃d : Double F⦄ where
  unfoldable pub begin : StartStep F → Process F → Process F
  unfolding create_order_tracker create_position_engine reconcile bridge create_order_routing
      create_strategy create_risk_engine
  begin make_tracker p = record p { engine = create_order_tracker p.engine }
  begin make_positions p = record p { engine = create_position_engine p.engine }
  begin (hydrate r) p = record p { engine = reconcile r p.engine }
  begin start_strategy_loop p = record p { strategy_thread = true }
  begin start_risk_loop p = record p { risk_thread = true }
  begin bridge_signals p = record p { engine = bridge strategy forward_signal p.engine }
  begin make_routing p = record p {
    engine = create_order_routing p.engine;
    order_routing_thread = true;
    routing_thread = true;
  }
  begin bridge_orders p = record p { engine = bridge risk forward_order p.engine }
  begin bridge_reports p = record p { engine = bridge routing forward_report p.engine }
  begin make_strategy p = record p { engine = create_strategy p.engine }
  begin make_risk p = record p { engine = create_risk_engine p.engine }
  begin make_ipc_server p = record p { ipc_server = true }
  begin bridge_order_updates p = record p { engine = bridge risk telemetry_order p.engine }
  begin bridge_position_updates p = record p { engine = bridge risk telemetry_position p.engine }
  begin bridge_violations p = record p { engine = bridge risk telemetry_violation p.engine }
  begin set_running p = record p { engine = record p.engine { running = true } }

  unfoldable pub begin_all : List (StartStep F) → Process F → Process F
  unfolding begin
  begin_all [] p = p
  begin_all (s ∷ steps) p = begin_all steps (begin s p)

  -- The process after a `start` that nothing comes between.
  abbrev pub launched : Bool → Option (Reconciled F) → TradingEngine F → Process F
  launched ipc reconciler w = record {
    engine = wire ipc reconciler w;
    order_routing_thread = true;
    ipc_server = ipc;
    strategy_thread = true;
    risk_thread = true;
    routing_thread = true;
    faulted = false;
  }

  -- The steps one after the other are `start`.
  pub begin_all-launched :
      (ipc : Bool) (r : Option (Reconciled F)) (w : TradingEngine F)
      → begin_all (start_steps ipc r) (at_rest w) ≡ launched ipc r w
  unfolding begin_all wire create_ipc
  begin_all-launched true r w = refl
  begin_all-launched false r w = refl

module _ {F : Type 0} ⦃d : Double F⦄ (ticks_per_ms : ℕ) where
  unfoldable pub act : StartAct F → Process F → Process F
  unfolding turn_in begin push_event
  act (turns l now) p = turn_in ticks_per_ms l now p
  act (pushes e) p = if p.faulted then p else record p { engine = push_event e p.engine }
  act (starts s) p = if p.faulted then p else begin s p

  unfoldable pub act_all : List (StartAct F) → Process F → Process F
  unfolding act
  act_all [] p = p
  act_all (a ∷ acts) p = act_all acts (act a p)
