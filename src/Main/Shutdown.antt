-- ===== src/Main/Shutdown.antt =====
-- How main waits for SIGINT: a condition variable with a flag, which the handler sets and notifies
-- without the mutex. A wait that wakes up for no reason is left out.
use quant_core_engine.Prelude.{
  ℕ, zero, suc, ◌≡◌, refl, ap, nat_eq, ◌==◌, nat_beq_iff, arith, Bool, true, false, if◌then◌else◌,
}

-- Where main stands: before the test of the predicate, after a test that said no, blocked in the wait,
-- or past it.
pub data Phase : Type 0 where
  testing tested blocked past : Phase

pub record Waiting : Type 0 where
  pub shutdown_requested : Bool
  pub phase : Phase

-- A step of main: the test, or the block that follows a test that said no.
unfoldable pub main_step : Waiting → Waiting
main_step w = elim w.phase [
  | testing ↦
      if w.shutdown_requested then record w { phase = past } else record w { phase = tested }
  | tested ↦ record w { phase = blocked }
  | _ ↦ w
]

unfoldable pub main_steps : ℕ → Waiting → Waiting
main_steps zero w = w
main_steps (suc n) w = main_steps n (main_step w)

-- `notify_all` wakes main if it is blocked.
unfoldable pub notify_all : Phase → Phase
notify_all blocked = testing
notify_all phase = phase

unfoldable pub sigint_handler : Waiting → Waiting
unfolding notify_all
sigint_handler w = record { shutdown_requested = true; phase = notify_all w.phase }

abbrev pub before_wait : Waiting
before_wait = record { shutdown_requested = false; phase = testing }

past-main_steps :
    (n : ℕ)
    → main_steps n (record { shutdown_requested = true; phase = past })
      ≡ record { shutdown_requested = true; phase = past }
unfolding main_steps main_step
past-main_steps zero = refl
past-main_steps (suc n) = past-main_steps n

blocked-main_steps :
    (b : Bool) (n : ℕ)
    → main_steps n (record { shutdown_requested = b; phase = blocked })
      ≡ record { shutdown_requested = b; phase = blocked }
unfolding main_steps main_step
blocked-main_steps b zero = refl
blocked-main_steps b (suc n) = blocked-main_steps b n

not_one : (k : ℕ) → (suc (suc k) == 1) ≡ false
not_one k = ground (arith, nat_beq_iff (suc (suc k)) 1)

-- If the signal comes after `k` steps of main, main leaves the wait with its next step, unless `k` is 1:
-- then the signal falls between the test and the block, the notification is lost, and main stays
-- blocked, whatever steps it makes.
pub main_steps-sigint_handler :
    (k n : ℕ)
    → (main_steps (suc n) (sigint_handler (main_steps k before_wait))).phase
      ≡ (if k == 1 then blocked else past)
unfolding main_steps main_step sigint_handler
main_steps-sigint_handler zero n = ap (λ w. w.phase) (past-main_steps n)
main_steps-sigint_handler (suc zero) n = ap (λ w. w.phase) (blocked-main_steps true n)
main_steps-sigint_handler (suc (suc k)) n =
    rw (blocked-main_steps false k, not_one k) (ap (λ w. w.phase) (past-main_steps n))
