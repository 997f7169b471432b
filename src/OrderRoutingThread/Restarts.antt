-- ===== src/OrderRoutingThread/Restarts.antt =====
-- The order routing thread over any number of starts and stops.
use quant_core_engine.Prelude.{
  ℕ, zero, suc, sym, ◌+◌, ◌<◌, ◌≤◌, ◌%◌, ◌≡◌, refl, ap, ◌∙◌, ◌⊎◌, inl, inr, Bool, true, false,
  Option, none, some, List, [], ◌∷◌, length, arith, nat_eq, nat_beq_iff, ==_self, ◌==◌, Bool-cases,
  if◌then◌else◌,
}
use quant_core_engine.Double.{Double}
use quant_core_engine.Events.{Timestamp, OrderEvent, Event, order_event, execution_report}
use quant_core_engine.EventBus.{Bus, SubscriptionId, size_mod, subscribe, unsubscribe, remove_id}
use quant_core_engine.EventBus
use quant_core_engine.ThreadSafeQueue.{new_queue, try_pop}
use quant_core_engine.ThreadSafeQueue
use quant_core_engine.TimeProvider.{SimulationTimeProvider, ms_to_timestamp, now_ms}
use quant_core_engine.EventLoop.{EventLoop, Worker, absent, looping, exited, joinable}
use quant_core_engine.EventLoop
use quant_core_engine.Execution.{ack_report, fill_report}
use quant_core_engine.Execution
use quant_core_engine.OrderRoutingThread.{
  OrderRoutingThread, Routing, Handler, forward_report, new_thread, engine_kind, subscribe_loop,
  reset_engine, add_bridge, start, work, stop_loop, when_joined, stop, push, turn, publish,
}

mod_small : (n : ℕ) → n + 1 < size_mod → (n + 1) % size_mod ≡ n + 1
mod_small n h = omega arith

one-beq : (id : ℕ) → 1 < id → (1 == id) ≡ false
one-beq id h = ground (arith, nat_beq_iff 1 id)

-- `stops rounds` is a stop before whose join the thread makes one iteration, and so many more.
pub data Call : Type 0 where
  starts : Call
  stops : ℕ → Call

-- Whether the last call was a start; with no call, whether the thread was started before.
abbrev pub last_started : Bool → List Call → Bool
last_started before [] = before
last_started before (starts ∷ calls) = last_started true calls
last_started before (stops rounds ∷ calls) = last_started false calls

last_started-step :
    (c : Call) (started : Bool) (calls : List Call)
    → last_started (last_started started (c ∷ [])) calls ≡ last_started started (c ∷ calls)
last_started-step starts started calls = refl
last_started-step (stops rounds) started calls = refl

module _ {F : Type 0} ⦃d : Double F⦄ (ticks_per_ms : ℕ) (now : Timestamp) (time_provider : Bool)
    (clock : SimulationTimeProvider) where
  unfoldable pub call : Call → OrderRoutingThread F → Option (OrderRoutingThread F)
  call starts t = some (start ticks_per_ms now t)
  call (stops rounds) t = stop ticks_per_ms now (suc rounds) t

  -- `none` if a stop does not return.
  unfoldable pub call_all : List Call → OrderRoutingThread F → Option (OrderRoutingThread F)
  call_all [] t = some t
  call_all (c ∷ calls) t = elim (call c t) [ none ↦ none | some t' ↦ call_all calls t' ]

  -- The owner starts the thread and adds its bridge.
  abbrev pub opened : OrderRoutingThread F
  opened = add_bridge (start ticks_per_ms now (new_thread time_provider clock))

  abbrev with_subscribers :
      Bool
      → Worker
      → Option SubscriptionId
      → ℕ
      → List (SubscriptionId × Handler)
      → OrderRoutingThread F
  with_subscribers running worker engine next_id subscribers = record {
    time_provider = time_provider;
    loop = record {
      queue = new_queue;
      running = running;
      worker = worker;
      subscribers = record {
        bus = record { next_id = next_id; subscribers = subscribers };
        clock = clock;
        forwarded = [];
      };
    };
    execution_engine = engine;
    running = running;
  }

  abbrev first : ℕ → OrderRoutingThread F
  first n =
      with_subscribers true looping (some 0) n
        ((0, engine_kind time_provider) ∷ (1, forward_report) ∷ [])

  abbrev off : ℕ → OrderRoutingThread F
  off n = with_subscribers false absent none n ((1, forward_report) ∷ [])

  abbrev on : SubscriptionId → ℕ → OrderRoutingThread F
  on id n =
      with_subscribers true looping (some id) n
        ((1, forward_report) ∷ (id, engine_kind time_provider) ∷ [])

  opened-first : opened ≡ first 2
  unfolding add_bridge start new_thread subscribe_loop EventLoop.start joinable subscribe
  opened-first = refl

  start-off : (n : ℕ) → start ticks_per_ms now (off n) ≡ on n ((n + 1) % size_mod)
  unfolding start subscribe_loop EventLoop.start joinable subscribe
  start-off n = refl

  -- A thread that has left its loop makes no more iterations.
  abbrev left : ℕ → EventLoop (Event F) (Routing F)
  left n = (with_subscribers false exited none n ((1, forward_report) ∷ [])).loop

  work-left : (rounds n : ℕ) → work ticks_per_ms now rounds (left n) ≡ left n
  unfolding work EventLoop.iterate
  work-left zero n = refl
  work-left (suc rounds) n = work-left rounds n

  join-left :
      (rounds n : ℕ) (t : OrderRoutingThread F)
      → when_joined ticks_per_ms now t
          (EventLoop.join (publish ticks_per_ms now 2) (work ticks_per_ms now rounds (left n)))
        ≡ when_joined ticks_per_ms now t (some (off n).loop)
  unfolding EventLoop.join
  join-left rounds n t =
      ap (λ l. when_joined ticks_per_ms now t (EventLoop.join (publish ticks_per_ms now 2) l))
        (work-left rounds n)

  stop-first : (rounds n : ℕ) → stop ticks_per_ms now (suc rounds) (first n) ≡ some (off n)
  unfolding stop stop_loop work reset_engine EventLoop.request_stop EventLoop.iterate joinable
      unsubscribe remove_id
  stop-first rounds n = join-left rounds n (first n)

  stop-off : (rounds n : ℕ) → stop ticks_per_ms now rounds (off n) ≡ some (off n)
  unfolding stop
  stop-off rounds n = refl

  stop-on : (rounds id n : ℕ) → 1 < id → stop ticks_per_ms now (suc rounds) (on id n) ≡ some (off n)
  unfolding stop stop_loop work reset_engine EventLoop.request_stop EventLoop.iterate joinable
      unsubscribe remove_id
  stop-on rounds id n h = rw (one-beq id h, ==_self id) (join-left rounds n (on id n))

  -- Started, with one engine on the bus, or not.
  abbrev IsRouting : Bool → ℕ → OrderRoutingThread F → Type 0
  IsRouting true n t = (t ≡ first n) ⊎ ((id : ℕ) × (1 < id) × (t ≡ on id n))
  IsRouting false n t = t ≡ off n

  -- The call returns a thread of which `P` holds.
  abbrev pub Returns : Option (OrderRoutingThread F) → (OrderRoutingThread F → Type 0) → Type 0
  Returns result P = (t : OrderRoutingThread F) × (result ≡ some t) × P t

  call-IsRouting :
      (c : Call) (started : Bool) (n : ℕ) (t : OrderRoutingThread F)
      → 1 < n
      → n + 1 < size_mod
      → IsRouting started n t
      → Returns
          (call c t)
          (λ t'. (m : ℕ) × (n ≤ m) × (m ≤ n + 1) × IsRouting (last_started started (c ∷ [])) m t')
  unfolding call start
  call-IsRouting starts true n t h b (inl e) =
      rw e (first n, refl, (n, omega arith, omega arith, inl refl))
  call-IsRouting starts true n t h b (inr (id, one, e)) =
      rw e (on id n, refl, (n, omega arith, omega arith, inr (id, one, refl)))
  call-IsRouting starts false n t h b e = (
    on n (n + 1),
    ap some (ap (start ticks_per_ms now) e ∙ start-off n ∙ ap (on n) (mod_small n b)),
    (n + 1, omega arith, omega arith, inr (n, h, refl)),
  )
  call-IsRouting (stops rounds) true n t h b (inl e) =
      rw (e, stop-first rounds n) (off n, refl, (n, omega arith, omega arith, refl))
  call-IsRouting (stops rounds) true n t h b (inr (id, one, e)) =
      rw (e, stop-on rounds id n one) (off n, refl, (n, omega arith, omega arith, refl))
  call-IsRouting (stops rounds) false n t h b e =
      rw (e, stop-off (suc rounds) n) (off n, refl, (n, omega arith, omega arith, refl))

  call_all-IsRouting :
      (calls : List Call) (started : Bool) (n : ℕ) (t : OrderRoutingThread F)
      → 1 < n
      → n + length calls < size_mod
      → IsRouting started n t
      → Returns (call_all calls t) (λ t'. (m : ℕ) × IsRouting (last_started started calls) m t')
  unfolding call_all
  call_all-IsRouting [] started n t h b v = (t, refl, (n, v))
  call_all-IsRouting (c ∷ calls) started n t h b v =
      let (t', returned, (m, low, high, w)) = call-IsRouting c started n t h (omega arith) v in
      let (end, ended, k) =
        call_all-IsRouting calls (last_started started (c ∷ [])) m t' (omega arith) (omega arith)
          w in
      (end, rw (returned, call_all) ended, rw (sym (last_started-step c started calls)) k)

  -- The acceptance and the fill, stamped by the clock that the engine reads.
  abbrev pub answers : Timestamp → OrderEvent F → List (Event F)
  answers now' o =
      let ts = if time_provider then ms_to_timestamp ticks_per_ms (now_ms clock) else now' in
      execution_report (ack_report ts o) ∷ execution_report (fill_report ts o) ∷ []

  abbrev pub answered : Timestamp → OrderEvent F → OrderRoutingThread F → List (Event F)
  answered now' o t =
      (turn ticks_per_ms now' (push ticks_per_ms now' (order_event o) t)).loop.subscribers.forwarded

  IsRouting-answered :
      (now' : Timestamp) (o : OrderEvent F) (started : Bool) (n : ℕ) (t : OrderRoutingThread F)
      → IsRouting started n t
      → answered now' o t ≡ (if started then answers now' o else [])
  unfolding turn push publish EventLoop.iterate EventLoop.push_event EventBus.publish try_pop
      ThreadSafeQueue.push EventLoop.publish_popped Execution.mock_on_order Execution.on_order
      engine_kind
  IsRouting-answered now' o true n t (inl e) = elim (Bool-cases time_provider) [
    | inl given ↦ rw (e, given) refl
    | inr null ↦ rw (e, null) refl
  ]
  IsRouting-answered now' o true n t (inr (id, one, e)) = elim (Bool-cases time_provider) [
    | inl given ↦ rw (e, given) refl
    | inr null ↦ rw (e, null) refl
  ]
  IsRouting-answered now' o false n t e = rw e refl

  -- The owner starts the thread, adds its bridge, and calls start and stop any number of times, fewer
  -- than 2^64 - 2, with nothing queued; the thread makes one iteration or more before the join of each
  -- stop. Then each stop returns. If the last call was a start, or there was none, an order that is
  -- pushed then is answered once, on the loop's next turn: with an acceptance and a fill, in this order,
  -- that bear the time of the time provider, or of the system clock if that is null. If the last call
  -- was a stop, the order is not answered.
  pub call_all-answered :
      (calls : List Call) (now' : Timestamp) (o : OrderEvent F)
      → length calls + 2 < size_mod
      → Returns
          (call_all calls opened)
          (λ t. answered now' o t ≡ (if last_started true calls then answers now' o else []))
  call_all-answered calls now' o h =
      let (t, returned, (n, v)) =
        call_all-IsRouting calls true 2 opened (omega arith) (omega arith) (inl opened-first) in
      (t, returned, IsRouting-answered now' o (last_started true calls) n t v)
