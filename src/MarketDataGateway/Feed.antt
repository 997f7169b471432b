-- ===== src/MarketDataGateway/Feed.antt =====
-- What the receive loop pushes, and what the simulation clock says at each push.
use quant_core_engine.Prelude.{
  ℕ, String, ◌≡◌, refl, sym, ap, ◌∙◌, Option, none, some, List, [], ◌∷◌, ◌++◌, append_assoc,
  append-nil, Option-cases, inl, inr,
}
use mathlib.Core.Option.{some-injective}
use quant_core_engine.Prelude.Int.{ℤ}
use quant_core_engine.Events.{Event, market_data}
use quant_core_engine.TimeProvider.{SimulationTimeProvider, advance_time, now_ms}
use quant_core_engine.MarketDataGateway.{
  JsonReader, Received, message, timeout, interrupted, failed, Tick, read_tick, GatewayHost,
  market_data_of, handle_message, run,
}

-- The clock, and each event with the time that the clock showed when it was pushed.
pub record Feed (F : Type 0) : Type 0 where
  pub clock : SimulationTimeProvider
  pub sunk : List (ℤ × Event F)

abbrev pub recording : {F : Type 0} → GatewayHost (Feed F) F
recording = record {
  get_clock = λ w. w.clock;
  put_clock = λ c w. record w { clock = c };
  event_sink = λ e w. record w { sunk = w.sunk ++ (now_ms w.clock, e) ∷ [] };
}

module _ {J F : Type 0} (ticks_per_ms : ℕ) (reader : JsonReader J F) where
  -- A well-formed message gives one entry, at its own time; the rest gives none.
  abbrev pub entries : Option (Tick F) → List (ℤ × Event F)
  entries none = []
  entries (some tick) = (tick.timestamp_ms, market_data (market_data_of ticks_per_ms tick)) ∷ []

  abbrev pub feed_of : List Received → List (ℤ × Event F)
  feed_of [] = []
  feed_of (message payload ∷ rounds) = entries (read_tick reader payload) ++ feed_of rounds
  feed_of (_ ∷ rounds) = feed_of rounds

  handle_message-sunk :
      (payload : String) (w : Feed F)
      → (handle_message ticks_per_ms reader recording payload w).sunk
        ≡ w.sunk ++ entries (read_tick reader payload)
  unfolding handle_message advance_time now_ms
  handle_message-sunk payload w = elim (Option-cases (read_tick reader payload)) [
    | inl k ↦ rw (k, handle_message) (sym (append-nil w.sunk))
    | inr (tick, k) ↦ rw (k, handle_message) refl
  ]

  -- In a run that no failed receive breaks off, each well-formed message becomes one event, in the order of arrival, and
  -- is pushed when the simulation clock shows its own time; malformed messages, timeouts and signals
  -- leave no trace.
  pub run-sunk :
      (rounds : List Received) (w w' : Feed F)
      → run ticks_per_ms reader recording rounds w ≡ some w'
      → w'.sunk ≡ w.sunk ++ feed_of rounds
  unfolding run
  run-sunk [] w w' h =
      ap (λ (t : Feed F). t.sunk) (sym (some-injective _ _ h)) ∙ sym (append-nil w.sunk)
  run-sunk (message payload ∷ rounds) w w' h =
      run-sunk rounds (handle_message ticks_per_ms reader recording payload w) w' h
      ∙ ap (λ t. t ++ feed_of rounds) (handle_message-sunk payload w)
      ∙ append_assoc w.sunk (entries (read_tick reader payload)) (feed_of rounds)
  run-sunk (timeout ∷ rounds) w w' h = run-sunk rounds w w' h
  run-sunk (interrupted ∷ rounds) w w' h = run-sunk rounds w w' h
  run-sunk (failed ∷ rounds) w w' h = cc
