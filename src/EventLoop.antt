-- ===== src/EventLoop.antt =====
-- core/app/src/event/event_loop_thread.cpp: a queue, a bus and one worker thread. The owner starts,
-- stops and pushes; the worker takes one event at a time. `P` is what publishing an event changes.
pub mod Order
use quant_core_engine.Prelude.{ℕ, Bool, true, false, Option, none, some, List, ◌≡◌, if◌then◌else◌}
use quant_core_engine.ThreadSafeQueue.{Queue, push, try_pop}

-- Where the worker stands: no thread, at the test of `while`, or out of the loop and not yet joined.
pub data Worker : Type 0 where
  absent looping exited : Worker

pub record EventLoop (E P : Type 0) : Type 0 where
  pub queue : Queue E
  pub running : Bool
  pub worker : Worker
  pub subscribers : P

-- `thread_.joinable()`.
unfoldable pub joinable : Worker → Bool
joinable absent = false
joinable _ = true

module _ {E P : Type 0} (publish : E → P → P) where
  unfoldable pub start : EventLoop E P → EventLoop E P
  unfolding joinable
  start s = if joinable s.worker then s else record s { running = true; worker = looping }

  -- `stop` up to the join: the flag is cleared and the worker is woken.
  unfoldable pub request_stop : EventLoop E P → EventLoop E P
  unfolding joinable
  request_stop s = if joinable s.worker then record s { running = false } else s

  -- `thread_.join()` returns once the worker has left the loop; till then there is no step.
  unfoldable pub join : EventLoop E P → Option (EventLoop E P)
  join s = elim s.worker [
    | absent ↦ some s
    | looping ↦ none
    | exited ↦ some (record s { worker = absent })
  ]

  unfoldable pub push_event : E → EventLoop E P → EventLoop E P
  push_event e s = record s { queue = push e s.queue }

  unfoldable pub publish_popped : Option E × Queue E → EventLoop E P → EventLoop E P
  publish_popped (none, rest) s = s
  publish_popped (some e, rest) s = record s { queue = rest; subscribers = publish e s.subscribers }

  -- One iteration of `run`: the test, then an event, or a wait that changes nothing.
  unfoldable pub iterate : EventLoop E P → EventLoop E P
  unfolding publish_popped
  iterate s = elim s.worker [
    | looping ↦
        if s.running then publish_popped (try_pop s.queue) s else record s { worker = exited }
    | _ ↦ s
  ]

  -- A step of the owner or of the worker, in any interleaving.
  pub data Step : EventLoop E P → EventLoop E P → Type 0 where
    starts : (s : EventLoop E P) → Step s (start s)
    stops : (s : EventLoop E P) → Step s (request_stop s)
    joins : {s t : EventLoop E P} → join s ≡ some t → Step s t
    pushes : (e : E) (s : EventLoop E P) → Step s (push_event e s)
    iterates : (s : EventLoop E P) → Step s (iterate s)
