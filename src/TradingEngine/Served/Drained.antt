-- ===== src/TradingEngine/Served/Drained.antt =====
-- What the server's rounds do to the engine and to the telemetry, wherever they fall.
use quant_core_engine.Prelude.{
  String, ℕ, ◌≡◌, refl, sym, ap, ◌∙◌, List, [], ◌∷◌, ◌++◌, append_assoc, append-nil, Option-cases,
  inl, inr,
}
use mathlib.Core.Path.{subst}
use quant_core_engine.Double.{Double}
use quant_core_engine.Events.{Event}
use quant_core_engine.Json.{Json}
use quant_core_engine.Telemetry.{format_telemetry}
use quant_core_engine.ThreadSafeQueue.{try_pop}
use quant_core_engine.IpcServer.{
  IpcServer, messages, send_telemetry, process_telemetry, process_commands,
}
use quant_core_engine.MarketDataGateway.{JsonReader}
use quant_core_engine.TradingEngine.World.{TradingEngine}
use quant_core_engine.TradingEngine.Schedule.{commanded, handle, handle_all}
use quant_core_engine.TradingEngine.Remote.{command_handler}
use quant_core_engine.TradingEngine.Served.{
  Site, SiteStep, reaches, drains, answers, site_step, site_steps, inputs_of, told_before,
  handle-told_before,
}

module _ {F : Type 0} (dump : Json F → String) where
  messages-append :
      (es fs : List (Event F)) → messages dump (es ++ fs) ≡ messages dump es ++ messages dump fs
  messages-append [] fs = refl
  messages-append (e ∷ es) fs = elim (Option-cases (format_telemetry e)) [
    | inl k ↦ rw (k, messages) (messages-append es fs)
    | inr (json, k) ↦ rw (k, messages) (ap (λ ms. dump json ∷ ms) (messages-append es fs))
  ]

  -- What goes out for one event.
  send_telemetry-messages :
      (e : Event F) (s : IpcServer F (TradingEngine F))
      → send_telemetry dump (command_handler dump) e s
        ≡ record s { published = s.published ++ messages dump (e ∷ []) }
  unfolding send_telemetry
  send_telemetry-messages e s = elim (Option-cases (format_telemetry e)) [
    | inl k ↦
        rw (k, send_telemetry)
          (rw (k, messages) (ap (λ ms. record s { published = ms }) (sym (append-nil s.published))))
    | inr (json, k) ↦ rw (k, send_telemetry) (rw (k, messages) refl)
  ]

module _ {J F : Type 0} ⦃d : Double F⦄ (ticks_per_ms : ℕ) (reader : JsonReader J F)
    (dump : Json F → String) where
  -- `w` is the engine without the server, and all its telemetry but what is queued has gone out, after
  -- `out`.
  abbrev Sent : List String → TradingEngine F → Site F → Type 0
  Sent out w s =
      (sent : List (Event F)) × (w ≡ told_before sent s.engine)
      × (s.published ≡ out ++ messages dump sent)

  drained-Sent :
      (out replies : List String) (sent items : List (Event F)) (w : TradingEngine F)
      → let held = record w { telemetry_queue = record { items = items } } in
        Sent out (told_before sent held) (
          site_step ticks_per_ms reader dump drains
            (record { engine = held; published = out ++ messages dump sent; replies = replies }))
  unfolding site_step process_telemetry try_pop send_telemetry
  drained-Sent out replies sent [] w = (sent, refl, refl)
  drained-Sent out replies sent (e ∷ items) w =
      let out' = out ++ messages dump sent in
      let gone = send_telemetry-messages dump e (record {
        telemetry_queue = record { items = items };
        published = out';
        replies = replies;
        world = record w { telemetry_queue = record { items = e ∷ items } };
      }) in
      (
        sent ++ e ∷ [],
        ap (λ es. record w { telemetry_queue = record { items = es } })
              (sym (append_assoc sent (e ∷ []) items))
            ∙ ap
                (λ (t : IpcServer F (TradingEngine F)).
                  told_before (sent ++ e ∷ []) (record w { telemetry_queue = t.telemetry_queue }))
                (sym gone),
        ap (λ (t : IpcServer F (TradingEngine F)). t.published) gone
            ∙ append_assoc out (messages dump sent) (messages dump (e ∷ []))
            ∙ ap (λ ms. out ++ ms) (sym (messages-append dump sent (e ∷ []))),
      )

  site_step-Sent :
      (out : List String) (x : SiteStep F) (w : TradingEngine F) (s : Site F)
      → Sent out w s
      → Sent out
          (handle_all ticks_per_ms reader (inputs_of (x ∷ [])) w)
          (site_step ticks_per_ms reader dump x s)
  unfolding handle_all handle site_step process_commands command_handler
  site_step-Sent out (reaches i) w s (sent, same, told) = (
    sent,
    ap (handle ticks_per_ms reader i) same ∙ handle-told_before ticks_per_ms reader sent i s.engine,
    told,
  )
  site_step-Sent out (answers cmd) w s (sent, same, told) =
      (sent, ap (handle ticks_per_ms reader (commanded cmd)) same, told)
  site_step-Sent out drains w s (sent, same, told) =
      subst (λ v. Sent out v (site_step ticks_per_ms reader dump drains s)) (sym same)
        (subst
          (λ ps.
            Sent out (told_before sent s.engine)
              (site_step ticks_per_ms reader dump drains (record s { published = ps })))
          (sym told) (drained-Sent out s.replies sent s.engine.telemetry_queue.items s.engine))

  site_steps-Sent :
      (out : List String) (steps : List (SiteStep F)) (w : TradingEngine F) (s : Site F)
      → Sent out w s
      → Sent out
          (handle_all ticks_per_ms reader (inputs_of steps) w)
          (site_steps ticks_per_ms reader dump steps s)
  unfolding handle_all site_steps
  site_steps-Sent out [] w s h = h
  site_steps-Sent out (reaches i ∷ steps) w s h =
      site_steps-Sent out steps _ _ (site_step-Sent out (reaches i) w s h)
  site_steps-Sent out (drains ∷ steps) w s h =
      site_steps-Sent out steps w _ (site_step-Sent out drains w s h)
  site_steps-Sent out (answers cmd ∷ steps) w s h =
      site_steps-Sent out steps _ _ (site_step-Sent out (answers cmd) w s h)

  -- However the rounds of the server fall between turns of the loops, messages of the feed, pushed events
  -- and commands, the engine is the one without the server, but for the telemetry queue; and what has
  -- gone out and what is queued are together the telemetry of that engine, in order: nothing is lost,
  -- doubled or overtaken.
  pub site_steps-handle_all :
      (steps : List (SiteStep F)) (s : Site F)
      → let after = site_steps ticks_per_ms reader dump steps s in
        let alone = handle_all ticks_per_ms reader (inputs_of steps) s.engine in
        (record after.engine { telemetry_queue = alone.telemetry_queue } ≡ alone)
        × (after.published ++ messages dump after.engine.telemetry_queue.items
            ≡ s.published ++ messages dump alone.telemetry_queue.items)
  site_steps-handle_all steps s =
      let after = site_steps ticks_per_ms reader dump steps s in
      let (sent, same, told) =
        site_steps-Sent s.published steps s.engine s ([], refl, sym (append-nil s.published)) in
      let left = after.engine.telemetry_queue.items in
      (
        ap (λ v. record after.engine { telemetry_queue = v.telemetry_queue }) same ∙ sym same,
        ap (λ ps. ps ++ messages dump left) told
            ∙ append_assoc s.published (messages dump sent) (messages dump left)
            ∙ ap (λ ms. s.published ++ ms) (sym (messages-append dump sent left))
            ∙ ap (λ v. s.published ++ messages dump v.telemetry_queue.items) (sym same),
      )
