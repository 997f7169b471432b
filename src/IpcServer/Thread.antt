-- ===== src/IpcServer/Thread.antt =====
-- IpcServer::start and stop: the sockets, the flag and the worker thread. What the worker sends is left
-- to the parent module; here its steps are those at which it reads the flag.
use quant_core_engine.Prelude.{
  ℕ, zero, suc, ◌≤◌, ◌≡◌, refl, ◌⊎◌, inl, inr, Bool, true, false, Option, none, some, List, [], ◌∷◌,
  All, if◌then◌else◌, arith,
}

-- No thread, spawned, in the loop, at the last drain, or returned.
pub data Worker : Type 0 where
  absent spawned looping draining returned : Worker

-- `sockets` stands for `context_`, `cmd_socket_` and `pub_socket_`, which are made and reset together.
pub record IpcThread : Type 0 where
  pub sockets : Bool
  pub running : Bool
  pub worker : Worker

abbrev pub new_thread : IpcThread
new_thread = record { sockets = false; running = false; worker = absent }

-- The flag is set before the thread is spawned.
unfoldable pub start : IpcThread → IpcThread
start t = if t.running then t else record { sockets = true; running = true; worker = spawned }

-- `stop` up to the join.
unfoldable pub request_stop : IpcThread → IpcThread
request_stop t = record t { running = false }

-- The join returns if there is no thread, or once it has returned; till then there is no step. The
-- sockets are reset if the server was running when `stop` began.
unfoldable pub join_worker : Bool → IpcThread → Option IpcThread
join_worker was_running t = elim t.worker [
  | absent ↦ some (record t { sockets = if was_running then false else t.sockets })
  | returned ↦
      some (record t { worker = absent; sockets = if was_running then false else t.sockets })
  | _ ↦ none
]

-- A step of the worker: it enters `run`, tests the flag after a round, or ends its last drain.
unfoldable pub work : IpcThread → IpcThread
work t = elim t.worker [
  | spawned ↦ record t { worker = looping }
  | looping ↦ if t.running then t else record t { worker = draining }
  | draining ↦ record t { worker = returned }
  | _ ↦ t
]

unfoldable pub work_all : ℕ → IpcThread → IpcThread
work_all zero t = t
work_all (suc n) t = work_all n (work t)

-- A step of the owner's calls, apart from the join, or of the worker.
pub data Step : Type 0 where
  starts works : Step
  -- A whole `stop`, in which the worker makes this many steps before the join.
  stops : ℕ → Step

unfoldable pub stop : ℕ → IpcThread → Option IpcThread
unfolding request_stop join_worker
stop n t = join_worker t.running (work_all n (request_stop t))

unfoldable pub step : Step → IpcThread → Option IpcThread
step starts t = some (start t)
step works t = some (work t)
step (stops n) t = stop n t

unfoldable pub step_all : List Step → IpcThread → Option IpcThread
step_all [] t = some t
step_all (s ∷ steps) t = elim (step s t) [ none ↦ none | some t' ↦ step_all steps t' ]

abbrev started : Worker → IpcThread
started worker = record { sockets = true; running = true; worker = worker }

-- The server is at rest, or its flag is set, its sockets are open and its thread is before or in its
-- loop.
abbrev pub IsSteady : IpcThread → Type 0
IsSteady t = (t ≡ new_thread) ⊎ (t ≡ started spawned) ⊎ (t ≡ started looping)

work_rest : (n : ℕ) → work_all n new_thread ≡ new_thread
unfolding work_all work
work_rest zero = refl
work_rest (suc n) = work_rest n

abbrev stopping : Worker → IpcThread
stopping worker = record { sockets = true; running = false; worker = worker }

work-returned : (n : ℕ) → work_all n (stopping returned) ≡ stopping returned
unfolding work_all work
work-returned zero = refl
work-returned (suc n) = work-returned n

work-looping : (n : ℕ) → 2 ≤ n → work_all n (stopping looping) ≡ stopping returned
unfolding work_all work
work-looping zero h = absurd (omega arith)
work-looping (suc zero) h = absurd (omega arith)
work-looping (suc (suc n)) h = work-returned n

work-spawned : (n : ℕ) → 3 ≤ n → work_all n (stopping spawned) ≡ stopping returned
unfolding work_all work
work-spawned zero h = absurd (omega arith)
work-spawned (suc n) h = work-looping n (omega arith)

-- A stop returns once the thread has made three steps, and leaves the server as it was made.
stop-new_thread : (n : ℕ) (t : IpcThread) → 3 ≤ n → IsSteady t → stop n t ≡ some new_thread
unfolding stop
stop-new_thread n t h (inl e) = rw (e, work_rest n) refl
stop-new_thread n t h (inr (inl e)) = rw (e, work-spawned n h) refl
stop-new_thread n t h (inr (inr e)) = rw (e, work-looping n (omega arith)) refl

start-IsSteady : (t : IpcThread) → IsSteady t → IsSteady (start t)
unfolding start
start-IsSteady t (inl e) = rw e (inr (inl refl))
start-IsSteady t (inr (inl e)) = rw e (inr (inl refl))
start-IsSteady t (inr (inr e)) = rw e (inr (inr refl))

work-IsSteady : (t : IpcThread) → IsSteady t → IsSteady (work t)
unfolding work
work-IsSteady t (inl e) = rw e (inl refl)
work-IsSteady t (inr (inl e)) = rw e (inr (inr refl))
work-IsSteady t (inr (inr e)) = rw e (inr (inr refl))

-- The thread makes at least three steps while a stop waits for it.
abbrev pub IsPatient : Step → Type 0
IsPatient (stops n) = 3 ≤ n
IsPatient _ = Unit

-- Over any sequence of starts, stops and steps of the worker, also where a stop comes before the thread
-- has entered `run`, every stop returns if the thread makes three steps meanwhile, and the server ends
-- at rest or with its flag set, its sockets open and its thread before or in its loop.
pub step_all-IsSteady :
    (steps : List Step) (t : IpcThread)
    → All IsPatient steps
    → IsSteady t
    → (end : IpcThread) × (step_all steps t ≡ some end) × IsSteady end
unfolding step_all step
step_all-IsSteady [] t a v = (t, refl, v)
step_all-IsSteady (starts ∷ steps) t a v =
    step_all-IsSteady steps (start t) a.1 (start-IsSteady t v)
step_all-IsSteady (works ∷ steps) t a v = step_all-IsSteady steps (work t) a.1 (work-IsSteady t v)
step_all-IsSteady (stops n ∷ steps) t a v =
    let (end, e, w) = step_all-IsSteady steps new_thread a.1 (inl refl) in
    (end, rw (stop-new_thread n t a.0 v, step_all) e, w)
