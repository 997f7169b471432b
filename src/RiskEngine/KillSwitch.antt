-- ===== src/RiskEngine/KillSwitch.antt =====
-- The kill switch of the risk engine: what stops trading, and what comes of the inputs after that.
use quant_core_engine.Prelude.{◌≡◌, refl, ◌||◌, Bool, true, false, List, [], ◌∷◌, arith}
use quant_core_engine.Double.{Double}
use quant_core_engine.RiskEngine.{on_signal, on_risk_violation, halt_trading}
use quant_core_engine.RiskEngine.Desk.{Desk, Input, signalled, handle, handle_all}

module _ {F : Type 0} ⦃d : Double F⦄ where
  abbrev pub is_stop : Input F → Bool
  is_stop (signalled now e) = false
  is_stop _ = true

  abbrev pub has_stop : List (Input F) → Bool
  has_stop [] = false
  has_stop (i ∷ is) = is_stop i || has_stop is

  handle-halted :
      (i : Input F) (w : Desk F)
      → w.engine.halt_flag ≡ true
      → ((handle i w).engine.halt_flag ≡ true) × ((handle i w).log ≡ w.log)
  unfolding handle on_signal on_risk_violation halt_trading
  handle-halted i w h = ground arith

  -- Once trading is halted, no further input publishes an order or lifts the halt.
  pub handle_all-halted :
      (is : List (Input F)) (w : Desk F)
      → w.engine.halt_flag ≡ true
      → ((handle_all is w).engine.halt_flag ≡ true) × ((handle_all is w).log ≡ w.log)
  unfolding handle_all
  handle_all-halted [] w h = (h, refl)
  handle_all-halted (i ∷ is) w h =
      ground (arith, handle-halted i w h, handle_all-halted is (handle i w))

  handle-halt_flag :
      (i : Input F) (w : Desk F) → (handle i w).engine.halt_flag ≡ (is_stop i || w.engine.halt_flag)
  unfolding handle on_signal on_risk_violation halt_trading
  handle-halt_flag i w = ground arith

  -- Trading is halted exactly when it was before, or a violation or a HALT command came in.
  pub halt_flag-handle_all :
      (is : List (Input F)) (w : Desk F)
      → (handle_all is w).engine.halt_flag ≡ (has_stop is || w.engine.halt_flag)
  unfolding handle_all
  halt_flag-handle_all [] w = refl
  halt_flag-handle_all (i ∷ is) w =
      ground (arith, handle-halt_flag i w, halt_flag-handle_all is (handle i w))
