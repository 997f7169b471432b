-- ===== src/OrderTracker/StateMachine.antt =====
-- The order lifecycle: `transitionStatus` and `isTerminal` of order_tracker.cpp against the graph
-- that is drawn in core/app/include/quant/domain/order_status.hpp.
use quant_core_engine.Prelude.{ℕ, ◌<◌, ◌≡◌, refl, ◌↔◌, ◌⊎◌, inl, inr, true, false, arith}
use quant_core_engine.Domain.{
  OrderStatus, new, pending_new, accepted, partially_filled, filled, canceled, rejected, expired,
}
use quant_core_engine.OrderTracker.{transition_status, is_terminal}

-- The legal transitions that order_tracker.hpp lists for `transitionStatus`.
pub data Transition : OrderStatus → OrderStatus → Type 0 where
  submit : Transition new pending_new
  accept : Transition new accepted
  reject : Transition new rejected
  acknowledge : Transition pending_new accepted
  refuse : Transition pending_new rejected
  fill_part : Transition accepted partially_filled
  fill : Transition accepted filled
  cancel : Transition accepted canceled
  reject_late : Transition accepted rejected
  fill_more : Transition partially_filled partially_filled
  fill_rest : Transition partially_filled filled
  cancel_rest : Transition partially_filled canceled

ruleset edges = (
  submit, accept, reject, acknowledge, refuse, fill_part, fill, cancel, reject_late, fill_more,
  fill_rest, cancel_rest,
)

pub data Trail : OrderStatus → OrderStatus → Type 0 where
  here : {s : OrderStatus} → Trail s s
  then : {s t u : OrderStatus} → Transition s t → Trail t u → Trail s u

transition_status-sound : (a b : OrderStatus) → transition_status a b ≡ true → Transition a b
unfolding transition_status
transition_status-sound a b h = grind (arith, edges)

transition_status_complete : {a b : OrderStatus} → Transition a b → transition_status a b ≡ true
unfolding transition_status
transition_status_complete submit = refl
transition_status_complete _ = refl

-- `transitionStatus` allows exactly the legal transitions that its documentation lists.
pub transition_status_iff : (a b : OrderStatus) → (transition_status a b ≡ true) ↔ Transition a b
transition_status_iff a b = (transition_status-sound a b, transition_status_complete)

stuck-is_terminal :
    (a : OrderStatus) → ((b : OrderStatus) → transition_status a b ≡ false) → is_terminal a ≡ true
unfolding transition_status is_terminal
stuck-is_terminal a h = ground (arith, h accepted, h filled)

-- A status is terminal exactly when `transitionStatus` allows no status after it.
pub is_terminal_iff :
    (a : OrderStatus) → (is_terminal a ≡ true) ↔ ((b : OrderStatus) → transition_status a b ≡ false)
unfolding transition_status is_terminal
is_terminal_iff a = (λ h b. ground arith, stuck-is_terminal a)

rank : OrderStatus → ℕ
rank new = 0
rank pending_new = 1
rank accepted = 2
rank partially_filled = 3
rank _ = 4

Transition-rank : {a b : OrderStatus} → Transition a b → (a ≡ b) ⊎ (rank a < rank b)
unfolding rank
Transition-rank fill_more = inl refl
Transition-rank _ = inr (omega arith)

Trail-rank : {a b : OrderStatus} → Trail a b → (a ≡ b) ⊎ (rank a < rank b)
Trail-rank here = inl refl
Trail-rank (then t p) = ground (arith, Transition-rank t, Trail-rank p)

-- No status is taken up again once it is left: two statuses that lead to each other are one.
pub Trail-antisymm : (a b : OrderStatus) → Trail a b → Trail b a → a ≡ b
Trail-antisymm a b p q = ground (arith, Trail-rank p, Trail-rank q)

Transition-ne-expired : {a b : OrderStatus} → Transition a b → b ≡ expired → ⊥
Transition-ne-expired submit e = cc
Transition-ne-expired _ e = cc

-- No path of the lifecycle leads to the status expired, but from that status itself.
pub Trail-expired : {a b : OrderStatus} → Trail a b → b ≡ expired → a ≡ expired
Trail-expired here e = e
Trail-expired (then t p) e = absurd (Transition-ne-expired t (Trail-expired p e))
