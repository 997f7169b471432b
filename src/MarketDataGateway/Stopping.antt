-- ===== src/MarketDataGateway/Stopping.antt =====
-- The receive loop with its flag `running_`, which any thread may clear between two of its steps.
use quant_core_engine.Prelude.{
  ℕ, String, ◌≡◌, refl, sym, ap, ◌⊎◌, inl, inr, Bool, true, false, Option, none, some, List, [],
  ◌∷◌, ◌++◌, if◌then◌else◌,
}
use mathlib.Core.Option.{some-injective}
use quant_core_engine.MarketDataGateway.{
  JsonReader, GatewayHost, Received, message, timeout, interrupted, failed, handle_message, run,
}

-- Where the thread stands: before the first statement of `run`, which sets the flag, at the test of the
-- loop, in the receive, or returned.
pub data Phase : Type 0 where
  spawned testing receiving returned : Phase

abbrev pub HasBegun : Phase → Type 0
HasBegun spawned = ⊥
HasBegun _ = Unit

pub record Gateway (W : Type 0) : Type 0 where
  pub running : Bool
  pub phase : Phase
  pub world : W

receiving-out : (receiving ≡ testing) ⊎ (receiving ≡ returned) → ⊥
receiving-out (inl e) = cc
receiving-out (inr e) = cc

spawned-out : (spawned ≡ testing) ⊎ (spawned ≡ returned) → ⊥
spawned-out (inl e) = cc
spawned-out (inr e) = cc

-- The beginning of `run`, the loop's test, the end of a receive, and `stop` from any thread.
pub data Step : Type 0 where
  begins tests stops : Step
  arrives : Received → Step

module _ {J F W : Type 0} (ticks_per_ms : ℕ) (reader : JsonReader J F) (h : GatewayHost W F) where
  -- `run` begins: the flag is set, whatever a stop has done to it before.
  unfoldable pub begin_run : Gateway W → Gateway W
  begin_run g = record g { running = true; phase = testing }

  unfoldable pub stop : Gateway W → Gateway W
  stop g = record g { running = false }

  unfoldable pub test : Gateway W → Gateway W
  test g = elim g.phase [
    | testing ↦ if g.running then record g { phase = receiving } else record g { phase = returned }
    | _ ↦ g
  ]

  -- What was received is handled, and the loop goes back to its test; `none` is the exception.
  unfoldable pub receive : Received → Gateway W → Option (Gateway W)
  receive (message payload) g =
      some
        (record g { phase = testing; world = handle_message ticks_per_ms reader h payload g.world })
  receive timeout g = some (record g { phase = testing })
  receive interrupted g = some (record g { phase = testing })
  receive failed g = none

  unfoldable pub step : Step → Gateway W → Option (Gateway W)
  unfolding begin_run test stop receive
  step begins g = elim g.phase [ spawned ↦ some (begin_run g) | _ ↦ some g ]
  step tests g = some (test g)
  step stops g = some (stop g)
  step (arrives r) g = elim g.phase [ receiving ↦ receive r g | _ ↦ some g ]

  unfoldable pub step_all : List Step → Gateway W → Option (Gateway W)
  step_all [] g = some g
  step_all (s ∷ steps) g = elim (step s g) [ none ↦ none | some g' ↦ step_all steps g' ]

  -- After a stop: the world is as it was, or one message more was handled.
  abbrev pub IsLast : W → W → Type 0
  IsLast w w' =
      (w' ≡ w) ⊎ ((payload : String) × (w' ≡ handle_message ticks_per_ms reader h payload w))

  abbrev gateway : Phase → W → Gateway W
  gateway phase w = record { running = false; phase = phase; world = w }

  -- Out of the receive nothing arrives any more.
  stopped-quiet :
      (steps : List Step) (phase : Phase) (w : W) (g : Gateway W)
      → (phase ≡ testing) ⊎ (phase ≡ returned)
      → step_all steps (gateway phase w) ≡ some g
      → g.world ≡ w
  unfolding step_all step
  stopped-quiet [] phase w g p e = ap (λ (k : Gateway W). k.world) (sym (some-injective _ _ e))
  stopped-quiet (begins ∷ steps) spawned w g p e = absurd (spawned-out p)
  stopped-quiet (begins ∷ steps) testing w g p e = stopped-quiet steps testing w g p e
  stopped-quiet (begins ∷ steps) receiving w g p e = absurd (receiving-out p)
  stopped-quiet (begins ∷ steps) returned w g p e = stopped-quiet steps returned w g p e
  stopped-quiet (tests ∷ steps) spawned w g p e = absurd (spawned-out p)
  stopped-quiet (tests ∷ steps) testing w g p e = stopped-quiet steps returned w g (inr refl) e
  stopped-quiet (tests ∷ steps) receiving w g p e = absurd (receiving-out p)
  stopped-quiet (tests ∷ steps) returned w g p e = stopped-quiet steps returned w g p e
  stopped-quiet (stops ∷ steps) phase w g p e = stopped-quiet steps phase w g p e
  stopped-quiet (arrives r ∷ steps) spawned w g p e = absurd (spawned-out p)
  stopped-quiet (arrives r ∷ steps) testing w g p e = stopped-quiet steps testing w g p e
  stopped-quiet (arrives r ∷ steps) receiving w g p e = absurd (receiving-out p)
  stopped-quiet (arrives r ∷ steps) returned w g p e = stopped-quiet steps returned w g p e

  -- Once `run` has begun and the flag is cleared, whatever arrives and however the steps fall, at most
  -- one more message is handled before the loop returns: the one whose receive had begun.
  pub step_all-IsLast :
      (steps : List Step) (g g' : Gateway W)
      → HasBegun g.phase
      → step_all steps (stop g) ≡ some g'
      → IsLast g.world g'.world
  unfolding step_all step
  step_all-IsLast steps g g' begun e = on_phase steps g.phase g.world begun e
    where
      on_phase :
          (steps : List Step) (phase : Phase) (w : W)
          → HasBegun phase
          → step_all steps (gateway phase w) ≡ some g'
          → IsLast w g'.world
      on_phase steps spawned w begun e = absurd begun
      on_phase steps testing w begun e = inl (stopped-quiet steps testing w g' (inl refl) e)
      on_phase steps returned w begun e = inl (stopped-quiet steps returned w g' (inr refl) e)
      on_phase [] receiving w begun e =
          inl (ap (λ (k : Gateway W). k.world) (sym (some-injective _ _ e)))
      on_phase (begins ∷ steps) receiving w begun e = on_phase steps receiving w begun e
      on_phase (tests ∷ steps) receiving w begun e = on_phase steps receiving w begun e
      on_phase (stops ∷ steps) receiving w begun e = on_phase steps receiving w begun e
      on_phase (arrives (message payload) ∷ steps) receiving w begun e =
          inr (payload, stopped-quiet steps testing _ g' (inl refl) e)
      on_phase (arrives timeout ∷ steps) receiving w begun e =
          inl (stopped-quiet steps testing w g' (inl refl) e)
      on_phase (arrives interrupted ∷ steps) receiving w begun e =
          inl (stopped-quiet steps testing w g' (inl refl) e)
      on_phase (arrives failed ∷ steps) receiving w begun e = cc

  -- The loop that is not stopped: a test before each receive.
  abbrev pub rounds_of : List Received → List Step
  rounds_of [] = []
  rounds_of (r ∷ rounds) = tests ∷ arrives r ∷ rounds_of rounds

  abbrev pub stopped_after : W → Option W → Option (Gateway W)
  stopped_after w none = none
  stopped_after w (some w') = some (gateway returned w')

  begun-run :
      (rounds : List Received) (g : Gateway W)
      → step_all (rounds_of rounds ++ stops ∷ tests ∷ []) (begin_run g)
        ≡ stopped_after g.world (run ticks_per_ms reader h rounds g.world)
  unfolding step_all step begin_run run
  begun-run [] g = refl
  begun-run (message payload ∷ rounds) g =
      begun-run rounds (record g { world = handle_message ticks_per_ms reader h payload g.world })
  begun-run (timeout ∷ rounds) g = begun-run rounds g
  begun-run (interrupted ∷ rounds) g = begun-run rounds g
  begun-run (failed ∷ rounds) g = refl

  -- From the spawn of the thread to a stop between two rounds, the loop with its flag handles what the
  -- rounds of `run` do, fails where they fail, and returns at its next test; what the flag was before
  -- does not matter.
  pub step_all-run :
      (rounds : List Received) (flag : Bool) (w : W)
      → step_all
          (begins ∷ rounds_of rounds ++ stops ∷ tests ∷ [])
          (record { running = flag; phase = spawned; world = w })
        ≡ stopped_after w (run ticks_per_ms reader h rounds w)
  unfolding step_all step
  step_all-run rounds flag w =
      begun-run rounds (record { running = flag; phase = spawned; world = w })
