-- ===== src/IpcServer.antt =====
-- core/app/src/network/ipc_server.cpp: the loop that drains the telemetry queue and answers commands.
-- ZeroMQ is an environment: each receive has one of four outcomes, and what is sent is a log.
pub mod Thread
use quant_core_engine.Prelude.{
  ℕ, zero, suc, String, ◌≡◌, sym, ap, ◌∙◌, ◌≤◌, Option, none, some, List, [], ◌∷◌, ◌++◌, length,
  append_assoc, append-nil, arith, Option-cases, inl, inr,
}
use mathlib.Core.Option.{some-injective}
use quant_core_engine.Events.{Event}
use quant_core_engine.Json.{Json}
use quant_core_engine.Telemetry.{format_telemetry}
use quant_core_engine.ThreadSafeQueue.{Queue, try_pop, push}

pub data Received : Type 0 where
  request : String → Received
  timeout interrupted failed : Received

-- The server with what it has sent; `W` is the world of the command handler.
pub record IpcServer (F W : Type 0) : Type 0 where
  pub telemetry_queue : Queue (Event F)
  pub published : List String
  pub replies : List String
  pub world : W

module _ {F : Type 0} (dump : Json F → String) where
  -- The texts that go out for some events.
  abbrev pub messages : List (Event F) → List String
  messages [] = []
  messages (e ∷ es) = elim (format_telemetry e) [
    | none ↦ messages es
    | some json ↦ dump json ∷ messages es
  ]

module _ {F W : Type 0} (dump : Json F → String) (command_handler : String → W → String × W) where
  unfoldable pub push_telemetry : Event F → IpcServer F W → IpcServer F W
  push_telemetry event s = record s { telemetry_queue = push event s.telemetry_queue }

  -- The JSON of an event, if it is one that goes out.
  unfoldable pub send_telemetry : Event F → IpcServer F W → IpcServer F W
  send_telemetry event s = elim (format_telemetry event) [
    | none ↦ s
    | some json ↦ record s { published = s.published ++ dump json ∷ [] }
  ]

  -- `while (auto maybe_event = telemetry_queue_.try_pop())`, for at most `fuel` rounds.
  unfoldable pub process_telemetry : ℕ → IpcServer F W → IpcServer F W
  unfolding send_telemetry
  process_telemetry zero s = s
  process_telemetry (suc fuel) s =
      let (maybe_event, rest) = try_pop s.telemetry_queue in
      elim maybe_event [
        | none ↦ s
        | some event ↦
            process_telemetry fuel (send_telemetry event (record s { telemetry_queue = rest }))
      ]

  -- `none` is the exception that `processCommands` passes on.
  unfoldable pub process_commands : Received → IpcServer F W → Option (IpcServer F W)
  process_commands (request cmd) s =
      let (response, world') = command_handler cmd s.world in
      some (record s { replies = s.replies ++ response ∷ []; world = world' })
  process_commands timeout s = some s
  process_commands interrupted s = some s
  process_commands failed s = none

  -- One receive for each round, until `running_` is cleared; then the queue is drained once more.
  unfoldable pub run : ℕ → List Received → IpcServer F W → Option (IpcServer F W)
  unfolding process_telemetry process_commands
  run fuel [] s = some (process_telemetry fuel s)
  run fuel (r ∷ rounds) s = elim (process_commands r (process_telemetry fuel s)) [
    | none ↦ none
    | some s' ↦ run fuel rounds s'
  ]

  abbrev loaded : IpcServer F W → List (Event F) → List String → IpcServer F W
  loaded s events out = record s { telemetry_queue = record { items = events }; published = out }

  drain :
      (fuel : ℕ) (events : List (Event F)) (out : List String) (s : IpcServer F W)
      → length events ≤ fuel
      → process_telemetry fuel (loaded s events out) ≡ loaded s [] (out ++ messages dump events)
  unfolding process_telemetry send_telemetry try_pop
  drain zero [] out s h = ap (loaded s []) (sym (append-nil out))
  drain zero (e ∷ es) out s h = absurd (omega arith)
  drain (suc fuel) [] out s h = ap (loaded s []) (sym (append-nil out))
  drain (suc fuel) (e ∷ es) out s h = elim (Option-cases (format_telemetry e)) [
    | inl k ↦ rw (k, messages, send_telemetry) (drain fuel es out s (omega arith))
    | inr (json, k) ↦
        rw (k, messages, send_telemetry)
          (drain fuel es (out ++ dump json ∷ []) s (omega arith)
            ∙ ap (loaded s []) (append_assoc out (dump json ∷ []) (messages dump es)))
  ]

  -- With a round for each event the queue is drained: its telemetry goes out whole, in order, and
  -- nothing else changes.
  pub process_telemetry_lem :
      (fuel : ℕ) (s : IpcServer F W)
      → length s.telemetry_queue.items ≤ fuel
      → process_telemetry fuel s
        ≡ loaded s [] (s.published ++ messages dump s.telemetry_queue.items)
  process_telemetry_lem fuel s h = drain fuel s.telemetry_queue.items s.published s h

  none-ne-some : {s : IpcServer F W} → none ≡ some s → ⊥
  none-ne-some e = cc

  process_commands-telemetry :
      (r : Received) (s s' : IpcServer F W)
      → process_commands r s ≡ some s'
      → (s'.telemetry_queue ≡ s.telemetry_queue) × (s'.published ≡ s.published)
  unfolding process_commands
  process_commands-telemetry (request cmd) s s' h = ground arith
  process_commands-telemetry timeout s s' h = ground arith
  process_commands-telemetry interrupted s s' h = ground arith
  process_commands-telemetry failed s s' h = cc

  after_drain :
      (fuel : ℕ) (s t : IpcServer F W)
      → length s.telemetry_queue.items ≤ fuel
      → t.telemetry_queue ≡ (process_telemetry fuel s).telemetry_queue
      → t.published ≡ (process_telemetry fuel s).published
      → (t.telemetry_queue.items ≡ [])
        × (t.published ≡ s.published ++ messages dump s.telemetry_queue.items)
  after_drain fuel s t h q p =
      let drained = process_telemetry_lem fuel s h in
      (
        ap (λ (k : Queue (Event F)). k.items) q
            ∙ ap (λ (k : IpcServer F W). k.telemetry_queue.items) drained,
        p ∙ ap (λ (k : IpcServer F W). k.published) drained,
      )

  -- A run of the server that no exception breaks off, and that ends by `stop`, has published all the
  -- telemetry that was queued when it began, in order, and leaves none.
  pub run-published :
      (fuel : ℕ) (rounds : List Received) (s s' : IpcServer F W)
      → length s.telemetry_queue.items ≤ fuel
      → run fuel rounds s ≡ some s'
      → (s'.telemetry_queue.items ≡ [])
        × (s'.published ≡ s.published ++ messages dump s.telemetry_queue.items)
  unfolding run
  run-published fuel [] s s' h e =
      let same = sym (some-injective _ _ e) in
      after_drain fuel s s' h (ap (λ (k : IpcServer F W). k.telemetry_queue) same)
        (ap (λ (k : IpcServer F W). k.published) same)
  run-published fuel (r ∷ rounds) s s' h e =
      elim (Option-cases (process_commands r (process_telemetry fuel s))) [
        | inl k ↦ absurd (none-ne-some (rw (k, run) at e))
        | inr (t, k) ↦
            let kept = process_commands-telemetry r (process_telemetry fuel s) t k in
            let (left, out) = after_drain fuel s t h kept.0 kept.1 in
            let ih = run-published fuel rounds t s' (rw left (omega arith)) (rw (k, run) at e) in
            (
              ih.0,
              ih.1 ∙ ap (λ es. t.published ++ messages dump es) left ∙ append-nil t.published ∙ out,
            )
      ]
