-- ===== src/ThreadSafeQueue.antt =====
-- core/app/include/quant/concurrent/thread_safe_queue.hpp. Each operation holds the mutex from its
-- test to its end, so it is one step, and threads interleave whole operations.
use quant_core_engine.Prelude.{
  ◌≡◌, refl, sym, ap, ◌∙◌, Bool, true, false, Option, none, some, List, [], ◌∷◌, ◌++◌, append_assoc,
  append-nil,
}

-- Front first.
pub record Queue (T : Type 0) : Type 0 where
  pub items : List T

-- The operations of all threads, in the order in which they take the mutex.
pub data Op (T : Type 0) : Type 0 where
  pushes : T → Op T
  tries : Op T

module _ {T : Type 0} where
  abbrev pub new_queue : Queue T
  new_queue = record { items = [] }

  unfoldable pub push : T → Queue T → Queue T
  push value q = record { items = q.items ++ value ∷ [] }

  -- `pop` waits on an empty queue: there is no step then.
  unfoldable pub pop : Queue T → Option (T × Queue T)
  pop q = elim q.items [ [] ↦ none | value ∷ rest ↦ some (value, record { items = rest }) ]

  unfoldable pub try_pop : Queue T → Option T × Queue T
  try_pop q = elim q.items [ [] ↦ (none, q) | value ∷ rest ↦ (some value, record { items = rest }) ]

  unfoldable pub empty : Queue T → Bool
  empty q = elim q.items [ [] ↦ true | _ ∷ _ ↦ false ]

  abbrev pub taken : Option T → List T
  taken none = []
  taken (some t) = t ∷ []

  unfoldable pub run : List (Op T) → Queue T → List T × Queue T
  unfolding push try_pop
  run [] q = ([], q)
  run (pushes t ∷ ops) q = run ops (push t q)
  run (tries ∷ ops) q =
      let (got, rest) = try_pop q in let (later, end) = run ops rest in (taken got ++ later, end)

  abbrev pub pushed : List (Op T) → List T
  pushed [] = []
  pushed (pushes t ∷ ops) = t ∷ pushed ops
  pushed (tries ∷ ops) = pushed ops

  try_pop-items : (q : Queue T) → taken (try_pop q).0 ++ (try_pop q).1.items ≡ q.items
  unfolding try_pop
  try_pop-items q = on_items q.items
    where
      on_items :
          (xs : List T)
          → let q : Queue T = record { items = xs } in
            taken (try_pop q).0 ++ (try_pop q).1.items ≡ xs
      on_items [] = refl
      on_items (x ∷ xs) = refl

  -- However the threads interleave, what was taken out followed by what is left is what was there
  -- followed by what was put in: nothing is lost, doubled or overtaken.
  pub run_fifo :
      (ops : List (Op T)) (q : Queue T)
      → (run ops q).0 ++ (run ops q).1.items ≡ q.items ++ pushed ops
  unfolding run push
  run_fifo [] q = sym (append-nil q.items)
  run_fifo (pushes t ∷ ops) q = run_fifo ops (push t q) ∙ append_assoc q.items (t ∷ []) (pushed ops)
  run_fifo (tries ∷ ops) q =
      append_assoc (taken (try_pop q).0) (run ops (try_pop q).1).0 _
      ∙ ap (λ t. taken (try_pop q).0 ++ t) (run_fifo ops (try_pop q).1)
      ∙ sym (append_assoc (taken (try_pop q).0) (try_pop q).1.items (pushed ops))
      ∙ ap (λ t. t ++ pushed ops) (try_pop-items q)
