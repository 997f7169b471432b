-- ===== src/Examples/Orders.antt =====
-- The state machine of the orders at work.
use quant_core_engine.Prelude.{◌≡◌, ◌↔◌, true, nat_eq}
use quant_core_engine.Domain.{accepted, partially_filled}
use quant_core_engine.OrderTracker.{status_eq, transition_status}
use quant_core_engine.OrderTracker.StateMachine.{Transition, transition_status_iff}

transition_status_iff_example :
    (transition_status accepted partially_filled ≡ true) ↔ Transition accepted partially_filled
transition_status_iff_example = transition_status_iff accepted partially_filled
