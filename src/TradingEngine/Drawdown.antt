-- ===== src/TradingEngine/Drawdown.antt =====
-- From a fill that loses too much to the kill switch.
use quant_core_engine.Prelude.{
  ℕ, ◌≡◌, refl, sym, ap, ◌∙◌, true, some, List, [], ◌∷◌, ◌++◌, append_assoc, nat_eq, string_eq,
}
use mathlib.Core.Path.{subst}
use quant_core_engine.Double.{Double, ◌<?◌}
use quant_core_engine.Events.{
  Timestamp, ExecutionReportEvent, Event, execution_report, position_update, risk_violation,
}
use quant_core_engine.Table.{find, insert, erase}
use quant_core_engine.EventBus
use quant_core_engine.ThreadSafeQueue.{push}
use quant_core_engine.OrderTracker
use quant_core_engine.PositionEngine.{
  PositionEngine, OrderInfo, is_filled, filled_position, update_of, violation_of,
}
use quant_core_engine.PositionEngine
use quant_core_engine.PositionEngine.Fills.{fill_beyond}
use quant_core_engine.RiskEngine
use quant_core_engine.MarketDataGateway.{JsonReader}
use quant_core_engine.TradingEngine.World.{
  TradingEngine, tracker_host, position_host, risk, publish, depth,
}
use quant_core_engine.TradingEngine.Stages.{wired}
use quant_core_engine.TradingEngine.Schedule.{Input, handle_all}
use quant_core_engine.TradingEngine.Handlers.{report-kept}
use quant_core_engine.TradingEngine.Updates.{with_telemetry, publish-IsTold}
use quant_core_engine.TradingEngine.Halt.{handle_all-IsHaltedAt}

module _ {F : Type 0} ⦃d : Double F⦄ (e : ExecutionReportEvent F) where
  -- The position is stored and the order forgotten.
  abbrev pub booked_by : OrderInfo → PositionEngine F → PositionEngine F
  booked_by info pe = record pe {
    positions = insert info.symbol (filled_position e info pe) pe.positions;
    order_cache = erase e.order_id pe.order_cache;
  }

  -- What the position engine publishes.
  abbrev pub warnings : OrderInfo → PositionEngine F → List (Event F)
  warnings info pe =
      let pos = filled_position e info pe in
      position_update (update_of e pos) ∷ risk_violation (violation_of e info pe.limits pos) ∷ []

module _ {F : Type 0} ⦃d : Double F⦄ (ticks_per_ms : ℕ) (now : Timestamp)
    (e : ExecutionReportEvent F) where
  -- What the tracker leaves alone when it takes a report.
  abbrev Untouched : TradingEngine F → TradingEngine F → Type 0
  Untouched w v =
      (v.position_engine ≡ w.position_engine) × (v.order_id_gen ≡ w.order_id_gen) × (v ≡ wired v)

  tracker_report-Untouched :
      (w : TradingEngine F)
      → Untouched w (
          OrderTracker.on_execution_report
            (tracker_host (publish ticks_per_ms now 4 risk))
            e
            (wired w))
  tracker_report-Untouched w =
      report-kept (Untouched w) (publish ticks_per_ms now 4 risk) e (wired w)
        (λ orders v (p, g, b). (
          p,
          g,
          ap
              (λ (u : TradingEngine F). record u {
                order_tracker = record v.order_tracker { active_orders = orders };
              })
              b,
        ))
        (λ u v (p, g, b).
          let (es, _, told) = publish-IsTold ticks_per_ms now u 4 risk v in
          (
            ap (λ (x : TradingEngine F). x.position_engine) told ∙ p,
            ap (λ (x : TradingEngine F). x.order_id_gen) told ∙ g,
            told ∙ ap (with_telemetry es) b ∙ ap wired (sym told),
          ))
        (refl, refl, refl)

  -- After the fill: booked, halted, and both events queued for telemetry.
  abbrev halted_by : OrderInfo → TradingEngine F → TradingEngine F
  halted_by info v =
      let pos = filled_position e info v.position_engine in
      wired (record v {
        position_engine = booked_by e info v.position_engine;
        risk_engine = record v.risk_engine { halt_flag = true };
        telemetry_queue =
            push (risk_violation (violation_of e info v.position_engine.limits pos))
              (push (position_update (update_of e pos)) v.telemetry_queue);
      })

  fill-halted_by :
      (info : OrderInfo) (v : TradingEngine F)
      → is_filled e.status ≡ true
      → find e.order_id v.position_engine.order_cache ≡ some info
      → ((filled_position e info v.position_engine).realized_pnl
          <? v.position_engine.limits.max_drawdown)
        ≡ true
      → PositionEngine.on_fill (position_host (publish ticks_per_ms now 4 risk)) e (wired v)
        ≡ halted_by info v
  unfolding publish EventBus.publish RiskEngine.on_risk_violation push
  fill-halted_by info v f k under =
      fill_beyond (position_host (publish ticks_per_ms now 4 risk)) e info _ (wired v) f k refl
        under

  report_goes_on :
      (w : TradingEngine F)
      → publish ticks_per_ms now depth risk (execution_report e) (wired w)
        ≡ PositionEngine.on_fill (position_host (publish ticks_per_ms now 4 risk)) e (
            OrderTracker.on_execution_report
              (tracker_host (publish ticks_per_ms now 4 risk))
              e
              (wired w))
  unfolding publish EventBus.publish
  report_goes_on w = refl

  -- On an engine with the buses of a start with IPC, a fill of a known order that takes the realized
  -- profit of its symbol below the limit books the position and forgets the order, halts trading in the
  -- same turn, and queues the position and the violation, in this order, as the last telemetry. After it
  -- no order id is drawn and the halt stays, whatever messages of the feed, pushed events, commands and
  -- turns of the loops come, in any order.
  pub handle_all-breached :
      {J : Type 0} (reader : JsonReader J F) (info : OrderInfo) (is : List (Input F))
      (w : TradingEngine F)
      → is_filled e.status ≡ true
      → find e.order_id w.position_engine.order_cache ≡ some info
      → ((filled_position e info w.position_engine).realized_pnl
          <? w.position_engine.limits.max_drawdown)
        ≡ true
      → let after = publish ticks_per_ms now depth risk (execution_report e) (wired w) in
        let end = handle_all ticks_per_ms reader is after in
        (after.position_engine ≡ booked_by e info w.position_engine)
        × ((before : List (Event F)) × (after.telemetry_queue.items
              ≡ before ++ warnings e info w.position_engine))
        × (end.risk_engine.halt_flag ≡ true)
        × (end.order_id_gen ≡ w.order_id_gen)
  unfolding push
  handle_all-breached reader info is w f k under =
      let v =
        OrderTracker.on_execution_report (tracker_host (publish ticks_per_ms now 4 risk)) e
          (wired w) in
      let (same, ids, wired_still) = tracker_report-Untouched w in
      let found =
        subst (λ (pe : PositionEngine F). find e.order_id pe.order_cache ≡ some info) (sym same)
          k in
      let breached =
        subst
          (λ (pe : PositionEngine F).
            ((filled_position e info pe).realized_pnl <? pe.limits.max_drawdown) ≡ true)
          (sym same) under in
      let halted =
        report_goes_on w
        ∙ ap (PositionEngine.on_fill (position_host (publish ticks_per_ms now 4 risk)) e)
            wired_still
        ∙ fill-halted_by info v f found breached in
      let (stays, drawn) = handle_all-IsHaltedAt ticks_per_ms w.order_id_gen reader is _ (
        ap (λ (x : TradingEngine F). x.risk_engine.halt_flag) halted,
        ap (λ (x : TradingEngine F). x.order_id_gen) halted ∙ ids,
      ) in
      (
        ap (λ (x : TradingEngine F). x.position_engine) halted ∙ ap (booked_by e info) same,
        (
          v.telemetry_queue.items,
          ap (λ (x : TradingEngine F). x.telemetry_queue.items) halted
              ∙ append_assoc v.telemetry_queue.items _ _
              ∙ ap (λ pe. v.telemetry_queue.items ++ warnings e info pe) same,
        ),
        stays,
        drawn,
      )
