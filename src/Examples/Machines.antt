-- ===== src/Examples/Machines.antt =====
-- The bus, the queue, the event loop, the gateway, the clocks and the IPC server at work.
use quant_core_engine.ThreadSafeQueue.{Op, pushes, tries, Queue}
use quant_core_engine.ThreadSafeQueue
use quant_core_engine.Prelude.{
  ℕ, String, ◌≡◌, refl, true, false, none, some, List, [], ◌∷◌, ◌++◌, map, arith, string_eq,
  if◌then◌else◌,
}
use quant_core_engine.Prelude.Int.{ℤ, pos}
use quant_core_engine.EventBus.{SubscriptionId, new_bus, Bus, publish, subscribe, unsubscribe}
use quant_core_engine.EventBus.Subscriptions.{
  Edit, subscribes, unsubscribes, edit_all, unsubscribe-edit_all,
}
use quant_core_engine.EventBus.Delivery.{Traced, call, calls-publish}
use quant_core_engine.EventBus.Destruction.{
  copy_list, destroy_all, call_copy, ready, any_in, call_copy-dangling,
}
use quant_core_engine.EventLoop.{
  EventLoop, looping, absent, push_event, iterate, request_stop, join, Step, iterates, stops,
}
use quant_core_engine.EventLoop
use quant_core_engine.EventLoop.Order.{logged, history, Run, here, next, Run-history}
use quant_core_engine.TimeProvider.{new_clock}
use quant_core_engine.MarketDataGateway.{
  JsonReader, Received, message, timeout, interrupted, read_tick, handle_message,
}
use quant_core_engine.MarketDataGateway
use quant_core_engine.MarketDataGateway.Feed.{Feed, recording, feed_of, run-sunk}
use quant_core_engine.MarketDataThread.{
  idle, start_thread, stop_gateway, join_thread, work_all, stop-spawned,
}

-- Three subscribe, and the one in between leaves.
abbrev edits : List (Edit ℕ)
edits = subscribes 10 ∷ subscribes 11 ∷ unsubscribes 1 ∷ subscribes 12 ∷ []

unsubscribe-edit_all_example :
    let b = edit_all edits new_bus in
    ((id : SubscriptionId) (c : ℕ) (older newer : List (SubscriptionId × ℕ))
      → b.subscribers ≡ older ++ (id, c) ∷ newer
      → (unsubscribe id b).subscribers ≡ older ++ newer)
    × ((c : ℕ)
        → let (id, after) = subscribe c b in (unsubscribe id after).subscribers ≡ b.subscribers)
unsubscribe-edit_all_example = unsubscribe-edit_all edits (omega arith)

-- Two subscribers, 0 and 2; one in between has left.
abbrev bus : Bus ℕ
bus = record { next_id = 3; subscribers = (0, 10) ∷ (2, 12) ∷ [] }

-- Each callback cancels subscription 2 while the publish runs.
abbrev cancel_two : ℕ → String → Bus ℕ → Bus ℕ
cancel_two c e b = unsubscribe 2 b

abbrev traced : Traced ℕ String
traced = record { bus = bus; calls = [] }

-- The object of subscription 2 is destroyed, and 7 was never on the bus.
call_copy-dangling_example :
    ((call_copy (destroy_all (7 ∷ 2 ∷ []) (copy_list (ready bus)))).dangling
      ≡ any_in (7 ∷ 2 ∷ []) bus.subscribers)
    × ((call_copy (copy_list (destroy_all (7 ∷ 2 ∷ []) (ready bus)))).dangling ≡ false)
call_copy-dangling_example = call_copy-dangling bus (7 ∷ 2 ∷ [])

calls-publish_example :
    (publish (λ t. t.bus) (call cancel_two) "tick" traced).calls
    ≡ [] ++ map (λ s. (s.1, "tick")) bus.subscribers
calls-publish_example = calls-publish cancel_two "tick" traced

abbrev operations : List (Op ℕ)
operations = pushes 4 ∷ tries ∷ pushes 5 ∷ tries ∷ tries ∷ pushes 6 ∷ []

abbrev queue : Queue ℕ
queue = record { items = 3 ∷ [] }

run_fifo_example :
    (ThreadSafeQueue.run operations queue).0 ++ (ThreadSafeQueue.run operations queue).1.items
    ≡ queue.items ++ ThreadSafeQueue.pushed operations
run_fifo_example = ThreadSafeQueue.run_fifo operations queue

abbrev loop : EventLoop ℕ (List ℕ)
loop = record {
  queue = record { items = 3 ∷ 4 ∷ [] };
  running = true;
  worker = looping;
  subscribers = [];
}

abbrev stopping : EventLoop ℕ (List ℕ)
stopping = request_stop logged (push_event logged 5 (iterate logged loop))

Run-stopping : Run loop stopping ((([] ++ []) ++ 5 ∷ []) ++ [])
Run-stopping =
    next (next (next here (iterates loop)) (EventLoop.pushes 5 (iterate logged loop)))
      (stops (push_event logged 5 (iterate logged loop)))

Run-history_example : history stopping ≡ history loop ++ (([] ++ []) ++ 5 ∷ []) ++ []
Run-history_example = Run-history Run-stopping

-- A reader for which a payload is its own value: "bad" does not parse, and all else is one tick.
abbrev pub reader : JsonReader String ℤ
reader = record {
  parse = λ s. if string_eq.beq s "bad" then none else some s;
  at = λ key json. some key;
  get_int = λ json. some (pos 1500);
  get_string = λ json. some json;
  get_double = λ json. some (pos 100);
}

abbrev rounds : List Received
rounds = timeout ∷ message "tick" ∷ interrupted ∷ message "bad" ∷ []

abbrev feed : Feed ℤ
feed = record { clock = new_clock; sunk = [] }

abbrev fed : Feed ℤ
fed = handle_message 1000 reader recording "bad" (handle_message 1000 reader recording "tick" feed)

run-sunk_example : fed.sunk ≡ [] ++ feed_of 1000 reader rounds
unfolding MarketDataGateway.run
run-sunk_example = run-sunk 1000 reader rounds feed fed refl

stop-spawned_example : join_thread (work_all 5 (stop_gateway (start_thread idle))) ≡ none
stop-spawned_example = stop-spawned 5
