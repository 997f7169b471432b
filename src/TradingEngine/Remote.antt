-- ===== src/TradingEngine/Remote.antt =====
-- The IPC server with the engine behind it: `executeCommand` as the command handler that `start` gives
-- to the server.
use quant_core_engine.Prelude.{
  ℕ, zero, suc, String, ◌+◌, ◌≡◌, refl, sym, ap, ◌∙◌, Bool, true, false, ◌||◌, some, List, [], ◌∷◌,
  ◌++◌, length, length-append, arith, ◌==◌, string_eq, if◌then◌else◌, Option-cases, inl, inr,
}
use mathlib.Core.Option.{some-injective}
use quant_core_engine.Events.{Event}
use quant_core_engine.Json.{Json}
use quant_core_engine.Telemetry.{format_telemetry}
use quant_core_engine.ThreadSafeQueue.{try_pop}
use quant_core_engine.IpcServer.{
  IpcServer, Received, request, timeout, interrupted, failed, send_telemetry, process_telemetry,
  process_commands, run,
}
use quant_core_engine.TradingEngine.World.{TradingEngine}
use quant_core_engine.TradingEngine.Commands.{execute_command, execute_command-effect, halt}
use quant_core_engine.TradingEngine.Schedule.{components_of, with_components}
use quant_core_engine.TradingEngine.Induction.{halted}

-- Whether a request is HALT, and how many requests there are.
abbrev pub asks_halt : List Received → Bool
asks_halt [] = false
asks_halt (request cmd ∷ rounds) = (cmd == "HALT") || asks_halt rounds
asks_halt (_ ∷ rounds) = asks_halt rounds

abbrev pub requests : List Received → ℕ
requests [] = 0
requests (request cmd ∷ rounds) = suc (requests rounds)
requests (_ ∷ rounds) = requests rounds

module _ {F : Type 0} (dump : Json F → String) where
  -- The lambda of `start`, with the `dump` at the end of `executeCommand`.
  unfoldable pub command_handler : String → TradingEngine F → String × TradingEngine F
  command_handler cmd w =
      let (response, c) = execute_command cmd (components_of w) in
      (dump response, with_components c w)

  abbrev pub after_rounds : Bool → TradingEngine F → TradingEngine F
  after_rounds stop w = if stop then halted w else w

  with_components-halt :
      (stop : Bool) (w : TradingEngine F)
      → with_components
          (if stop
            then record (components_of w) { risk_engine = halt (components_of w).risk_engine }
            else components_of w)
          w
        ≡ after_rounds stop w
  unfolding halt
  with_components-halt true w = refl
  with_components-halt false w = refl

  halted_again :
      (a b : Bool) (w : TradingEngine F)
      → after_rounds b (after_rounds a w) ≡ after_rounds (a || b) w
  halted_again true true w = refl
  halted_again true false w = refl
  halted_again false b w = refl

  command_handler-halted :
      (cmd : String) (w : TradingEngine F)
      → (command_handler cmd w).1 ≡ after_rounds (cmd == "HALT") w
  unfolding command_handler halt
  command_handler-halted cmd w =
      ap (λ c. with_components c w) (execute_command-effect cmd (components_of w))
      ∙ with_components-halt (cmd == "HALT") w

  -- The two things that a drain leaves alone.
  abbrev answered : IpcServer F (TradingEngine F) → List String × TradingEngine F
  answered s = (s.replies, s.world)

  answered-send_telemetry :
      (e : Event F) (s : IpcServer F (TradingEngine F))
      → answered (send_telemetry dump command_handler e s) ≡ answered s
  unfolding send_telemetry
  answered-send_telemetry e s = elim (Option-cases (format_telemetry e)) [
    | inl k ↦ rw (k, send_telemetry) refl
    | inr (json, k) ↦ rw (k, send_telemetry) refl
  ]

  answered-process_telemetry :
      (fuel : ℕ) (s : IpcServer F (TradingEngine F))
      → answered (process_telemetry dump command_handler fuel s) ≡ answered s
  unfolding process_telemetry
  answered-process_telemetry zero s = refl
  answered-process_telemetry (suc fuel) s = elim (Option-cases (try_pop s.telemetry_queue).0) [
    | inl k ↦ rw (k, process_telemetry) refl
    | inr (e, k) ↦
        rw (k, process_telemetry) (answered-process_telemetry fuel _ ∙ answered-send_telemetry e _)
  ]

  abbrev Answered :
      List Received → IpcServer F (TradingEngine F) → IpcServer F (TradingEngine F) → Type 0
  Answered rounds s s' =
      (length s'.replies ≡ length s.replies + requests rounds)
      × (s'.world ≡ after_rounds (asks_halt rounds) s.world)

  drained-Answered :
      (fuel : ℕ) (rounds : List Received) (s s' : IpcServer F (TradingEngine F))
      → Answered rounds (process_telemetry dump command_handler fuel s) s'
      → Answered rounds s s'
  drained-Answered fuel rounds s s' (replied, left) =
      let kept = answered-process_telemetry fuel s in
      (
        omega (arith, replied, ap (λ a. length a.0) kept),
        left ∙ ap (λ a. after_rounds (asks_halt rounds) a.1) kept,
      )

  -- A run of the server that no exception breaks off has answered each request once, and leaves the
  -- engine as it was, but for the kill switch, which is set if a request was HALT.
  pub run-answered :
      (fuel : ℕ) (rounds : List Received) (s s' : IpcServer F (TradingEngine F))
      → run dump command_handler fuel rounds s ≡ some s'
      → (length s'.replies ≡ length s.replies + requests rounds)
        × (s'.world ≡ after_rounds (asks_halt rounds) s.world)
  unfolding run process_commands
  run-answered fuel [] s s' h =
      let kept = ap answered (sym (some-injective _ _ h)) ∙ answered-process_telemetry fuel s in
      (omega (arith, ap (λ a. length a.0) kept), ap (λ a. a.1) kept)
  run-answered fuel (request cmd ∷ rounds) s s' h =
      let drained = process_telemetry dump command_handler fuel s in
      let (response, world) = command_handler cmd drained.world in
      let (replied, left) =
        run-answered fuel rounds
          (record drained { replies = drained.replies ++ response ∷ []; world = world }) s' h in
      drained-Answered fuel (request cmd ∷ rounds) s s' (
        omega (arith, replied, length-append drained.replies (response ∷ [])),
        left
            ∙ ap (after_rounds (asks_halt rounds)) (command_handler-halted cmd drained.world)
            ∙ halted_again (cmd == "HALT") (asks_halt rounds) drained.world,
      )
  run-answered fuel (timeout ∷ rounds) s s' h =
      drained-Answered fuel rounds s s' (run-answered fuel rounds _ s' h)
  run-answered fuel (interrupted ∷ rounds) s s' h =
      drained-Answered fuel rounds s s' (run-answered fuel rounds _ s' h)
  run-answered fuel (failed ∷ rounds) s s' h = cc
