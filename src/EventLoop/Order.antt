-- ===== src/EventLoop/Order.antt =====
-- What an event loop keeps over any interleaving of its owner and its worker.
use quant_core_engine.Prelude.{
  ℕ, zero, suc, ◌≤◌, ◌≡◌, refl, sym, ap, ◌∙◌, true, false, some, List, [], ◌∷◌, ◌++◌, arith,
  append_assoc, append-nil, length,
}
use quant_core_engine.ThreadSafeQueue.{push, try_pop}
use quant_core_engine.EventLoop.{
  absent, looping, EventLoop, start, request_stop, join, push_event, publish_popped, iterate, Step,
  starts, stops, joins, pushes, iterates,
}

module _ {E : Type 0} where
  abbrev pub logged : E → List E → List E
  logged e log = log ++ e ∷ []

  -- What has been published, then what waits.
  abbrev pub history : EventLoop E (List E) → List E
  history s = s.subscribers ++ s.queue.items

  -- What a step adds to the history.
  abbrev pub added : {s t : EventLoop E (List E)} → Step logged s t → List E
  added (pushes e s) = e ∷ []
  added _ = []

  publish_popped-history :
      (s : EventLoop E (List E)) (xs : List E)
      → history (
          publish_popped logged
            (try_pop (record { items = xs }))
            (record s { queue = record { items = xs } }))
        ≡ s.subscribers ++ xs
  unfolding publish_popped try_pop
  publish_popped-history s [] = refl
  publish_popped-history s (x ∷ xs) = append_assoc s.subscribers (x ∷ []) xs

  iterate-history : (s : EventLoop E (List E)) → history (iterate logged s) ≡ history s
  unfolding iterate
  iterate-history s = ground (arith, publish_popped-history s s.queue.items)

  start-history : (s : EventLoop E (List E)) → history (start logged s) ≡ history s
  unfolding start
  start-history s = ground arith

  request_stop-history : (s : EventLoop E (List E)) → history (request_stop logged s) ≡ history s
  unfolding request_stop
  request_stop-history s = ground arith

  join-history : (s t : EventLoop E (List E)) → join logged s ≡ some t → history t ≡ history s
  unfolding join
  join-history s t h = ground arith

  -- No step loses an event, makes one up or changes their order: the history grows at its end by
  -- what is pushed, and the worker publishes in that order.
  pub Step-history :
      {s t : EventLoop E (List E)} (step : Step logged s t) → history t ≡ history s ++ added step
  unfolding push_event push
  Step-history (starts s) = start-history s ∙ sym (append-nil (history s))
  Step-history (stops s) = request_stop-history s ∙ sym (append-nil (history s))
  Step-history (joins {s = s} {t = t} h) = join-history s t h ∙ sym (append-nil (history s))
  Step-history (pushes e s) = sym (append_assoc s.subscribers s.queue.items (e ∷ []))
  Step-history (iterates s) = iterate-history s ∙ sym (append-nil (history s))

  pub data Run (s : EventLoop E (List E)) : EventLoop E (List E) → List E → Type 0 where
    here : Run s s []
    next :
        {t u : EventLoop E (List E)} {pushed : List E}
        → Run s t pushed
        → (step : Step logged t u) → Run s u (pushed ++ added step)

  -- Over any run, with starts, stops and restarts, what was published and what waits are together
  -- what there was at first and what was pushed, in that order.
  pub Run-history :
      {s t : EventLoop E (List E)} {pushed : List E}
      → Run s t pushed
      → history t ≡ history s ++ pushed
  Run-history {s} here = sym (append-nil (history s))
  Run-history {s} (next {pushed = pushed} r step) =
      Step-history step
      ∙ ap (λ h. h ++ added step) (Run-history r)
      ∙ append_assoc (history s) pushed (added step)

  unfoldable pub iterate_all : ℕ → EventLoop E (List E) → EventLoop E (List E)
  iterate_all zero s = s
  iterate_all (suc n) s = iterate_all n (iterate logged s)

  -- A loop at work, with what waits and what is published.
  abbrev busy : List E → List E → EventLoop E (List E)
  busy xs out = record {
    queue = record { items = xs };
    running = true;
    worker = looping;
    subscribers = out;
  }

  iterate_all-busy :
      (n : ℕ) (xs out : List E) → length xs ≤ n → iterate_all n (busy xs out) ≡ busy [] (out ++ xs)
  unfolding iterate_all iterate publish_popped try_pop
  iterate_all-busy zero [] out h = ap (busy []) (sym (append-nil out))
  iterate_all-busy zero (x ∷ xs) out h = absurd (omega arith)
  iterate_all-busy (suc n) [] out h = iterate_all-busy n [] out (omega arith)
  iterate_all-busy (suc n) (x ∷ xs) out h =
      iterate_all-busy n xs (out ++ x ∷ []) (omega arith)
      ∙ ap (busy []) (append_assoc out (x ∷ []) xs)

  -- A worker in its loop, left running, publishes all that waits in as many rounds as there are
  -- events; more rounds change nothing.
  pub iterate_all-published :
      (n : ℕ) (s : EventLoop E (List E))
      → length s.queue.items ≤ n
      → s.running ≡ true
      → s.worker ≡ looping
      → iterate_all n s
        ≡ record s { queue = record { items = [] }; subscribers = s.subscribers ++ s.queue.items }
  iterate_all-published n s h r w =
      (λ i. iterate_all n (record s { running = r i; worker = w i }))
      ∙ iterate_all-busy n s.queue.items s.subscribers h
      ∙ λ i. record {
        queue = record { items = [] };
        running = sym r i;
        worker = sym w i;
        subscribers = s.subscribers ++ s.queue.items;
      }

  -- A worker in its loop leaves it on its next round after `stop`, whatever is still queued, and the
  -- join returns: the events that wait are kept for the next start.
  pub request_stop-exits :
      (s : EventLoop E (List E))
      → s.worker ≡ looping
      → join logged (iterate logged (request_stop logged s))
        ≡ some (record s { running = false; worker = absent })
  unfolding request_stop iterate join
  request_stop-exits s w = ground arith
