-- ===== src/TradingEngine/Settling.antt =====
-- The engine comes to rest: what a turn of a loop queues weighs less than the event that it took.
use quant_core_engine.Prelude.{
  ℕ, zero, suc, ◌+◌, ◌≤◌, ◌≡◌, refl, ap, ◌∙◌, true, false, Option, none, some, List, [], ◌∷◌, arith,
  length, Bool-cases, ◌==◌, nat_eq, nat_beq_iff, if◌then◌else◌, inl, inr,
}
use mathlib.Core.Path.{subst}
use quant_core_engine.Double.{Double}
use quant_core_engine.Events.{Timestamp, Event}
use quant_core_engine.ThreadSafeQueue.{Queue, try_pop, empty}
use quant_core_engine.TradingEngine.World.{Loop, strategy, risk, routing, TradingEngine, depth}
use quant_core_engine.TradingEngine.Turns.{queue_of, set_queue, publish_popped, turn, run}
use quant_core_engine.TradingEngine.Weight.{cost, queued_weight, weight, IsWired}
use quant_core_engine.TradingEngine.Publishing.{publish-IsBelow}

module _ {F : Type 0} where
  -- Whether a turn of the loop finds an event.
  abbrev pub busy : Loop → TradingEngine F → ℕ
  busy l w = if empty (queue_of l w) then 0 else 1

  busy-le-one : (l : Loop) (w : TradingEngine F) → busy l w ≤ 1
  busy-le-one l w = ground arith

  busy-empty : (l : Loop) (w : TradingEngine F) → empty (queue_of l w) ≡ true → busy l w ≡ 0
  busy-empty l w e = rw e refl

  try_pop-none : (q rest : Queue (Event F)) → try_pop q ≡ (none, rest) → empty q ≡ true
  unfolding try_pop empty
  try_pop-none q rest = on_items q.items
    where
      on_items :
          (xs : List (Event F))
          → try_pop (record { items = xs }) ≡ (none, rest)
          → empty (record { items = xs }) ≡ true
      on_items [] e = refl
      on_items (x ∷ xs) e = cc

  queued_weight-try_pop :
      (l : Loop) (q : Queue (Event F)) (e : Event F) (rest : Queue (Event F))
      → try_pop q ≡ (some e, rest)
      → queued_weight l q.items ≡ suc (cost l e) + queued_weight l rest.items
  unfolding try_pop
  queued_weight-try_pop l q e rest = on_items q.items
    where
      on_items :
          (xs : List (Event F))
          → try_pop (record { items = xs }) ≡ (some e, rest)
          → queued_weight l xs ≡ suc (cost l e) + queued_weight l rest.items
      on_items [] p = cc
      on_items (x ∷ xs) p =
          ap
            (λ (r : Option (Event F) × Queue (Event F)). elim r.0 [
              | none ↦ 0
              | some y ↦ suc (cost l y) + queued_weight l r.1.items
            ])
            p

  weight-set_queue :
      (l : Loop) (w : TradingEngine F) (e : Event F) (rest : Queue (Event F))
      → try_pop (queue_of l w) ≡ (some e, rest)
      → weight (set_queue l rest w) + suc (cost l e) ≡ weight w
  weight-set_queue strategy w e rest p =
      omega (arith, queued_weight-try_pop strategy w.strategy_queue e rest p)
  weight-set_queue risk w e rest p = omega (arith, queued_weight-try_pop risk w.risk_queue e rest p)
  weight-set_queue routing w e rest p =
      omega (arith, queued_weight-try_pop routing w.routing_queue e rest p)

  set_queue-IsWired :
      (l : Loop) (rest : Queue (Event F)) (w : TradingEngine F)
      → IsWired w
      → IsWired (set_queue l rest w)
  set_queue-IsWired strategy rest w v = v
  set_queue-IsWired risk rest w v = v
  set_queue-IsWired routing rest w v = v

module _ {F : Type 0} ⦃d : Double F⦄ (ticks_per_ms : ℕ) where
  -- A turn that finds an event leaves less to do.
  turn-settles :
      (l : Loop) (now : Timestamp) (w : TradingEngine F)
      → IsWired w
      → let after = turn ticks_per_ms l now w in
        IsWired after × (busy l w + weight after ≤ weight w)
  unfolding turn publish_popped
  turn-settles l now w v = on_popped (try_pop (queue_of l w)) refl
    where
      on_popped :
          (popped : Option (Event F) × Queue (Event F))
          → try_pop (queue_of l w) ≡ popped
          → let after = publish_popped ticks_per_ms l now popped w in
            IsWired after × (busy l w + weight after ≤ weight w)
      on_popped (none, rest) e =
          (v, omega (arith, busy-empty l w (try_pop-none (queue_of l w) rest e)))
      on_popped (some x, rest) e =
          let left = set_queue l rest w in
          let (wired, below) =
            publish-IsBelow ticks_per_ms now depth l x (weight left) left
              (set_queue-IsWired l rest w v, omega arith) in
          (wired, omega (arith, weight-set_queue l w x rest e, busy-le-one l w, below))

  -- How many of the turns find an event.
  abbrev pub busy_turns : List (Loop × Timestamp) → TradingEngine F → ℕ
  busy_turns [] w = 0
  busy_turns ((l, now) ∷ turns) w = busy l w + busy_turns turns (turn ticks_per_ms l now w)

  -- On an engine with the buses of a start with IPC, the turns that find an event are at most as many
  -- as what is queued weighs, in any order of turns: 5 for a tick or a signal on the strategy loop's
  -- queue; 4 for a signal or an order and 1 for a report on the risk loop's; 3 for an order and 2 for a
  -- report on the router's; 1 for any other event. What they leave queued weighs as much less.
  pub run-settles :
      (turns : List (Loop × Timestamp)) (w : TradingEngine F)
      → IsWired w
      → busy_turns turns w + weight (run ticks_per_ms turns w) ≤ weight w
  unfolding run
  run-settles [] w v = omega arith
  run-settles ((l, now) ∷ turns) w v =
      let (wired, less) = turn-settles l now w v in
      omega (arith, run-settles turns (turn ticks_per_ms l now w) wired, less)

module _ {F : Type 0} where
  try_pop-some :
      (q : Queue (Event F)) (e : Event F) (rest : Queue (Event F))
      → try_pop q ≡ (some e, rest)
      → empty q ≡ false
  unfolding try_pop empty
  try_pop-some q e rest = on_items q.items
    where
      on_items :
          (xs : List (Event F))
          → try_pop (record { items = xs }) ≡ (some e, rest)
          → empty (record { items = xs }) ≡ false
      on_items [] p = cc
      on_items (x ∷ xs) p = refl

  queued_weight-empty :
      (l : Loop) (q : Queue (Event F)) → empty q ≡ true → queued_weight l q.items ≡ 0
  unfolding empty
  queued_weight-empty l q = on_items q.items
    where
      on_items :
          (xs : List (Event F)) → empty (record { items = xs }) ≡ true → queued_weight l xs ≡ 0
      on_items [] e = refl
      on_items (x ∷ xs) e = cc

  empty_of_busy : (l : Loop) (w : TradingEngine F) → busy l w ≡ 0 → empty (queue_of l w) ≡ true
  empty_of_busy l w h = ground arith

  weight-idle :
      (w : TradingEngine F)
      → busy strategy w ≡ 0
      → busy risk w ≡ 0
      → busy routing w ≡ 0
      → weight w ≡ 0
  weight-idle w s r o = omega (
    arith,
    queued_weight-empty strategy w.strategy_queue (empty_of_busy strategy w s),
    queued_weight-empty risk w.risk_queue (empty_of_busy risk w r),
    queued_weight-empty routing w.routing_queue (empty_of_busy routing w o),
  )

one-le_of_beq : (n : ℕ) → (n == 0) ≡ false → 1 ≤ n
one-le_of_beq zero h = cc
one-le_of_beq (suc n) h = omega arith

-- Each loop takes a turn, and again.
abbrev pub rounds : List (Timestamp × Timestamp × Timestamp) → List (Loop × Timestamp)
rounds [] = []
rounds ((a, b, c) ∷ times) = (strategy, a) ∷ (risk, b) ∷ (routing, c) ∷ rounds times

module _ {F : Type 0} ⦃d : Double F⦄ (ticks_per_ms : ℕ) where
  -- A turn that finds nothing changes nothing.
  turn-idle :
      (l : Loop) (now : Timestamp) (w : TradingEngine F)
      → busy l w ≡ 0
      → turn ticks_per_ms l now w ≡ w
  unfolding turn publish_popped
  turn-idle l now w h = on_popped (try_pop (queue_of l w)) refl
    where
      on_popped :
          (popped : Option (Event F) × Queue (Event F))
          → try_pop (queue_of l w) ≡ popped
          → publish_popped ticks_per_ms l now popped w ≡ w
      on_popped (none, rest) e = refl
      on_popped (some x, rest) e =
          let full = try_pop-some (queue_of l w) x rest e in
          let idle = empty_of_busy l w h in absurd cc

  -- A round in which no turn finds an event finds the queues empty.
  idle_round :
      (a b c : Timestamp) (w : TradingEngine F)
      → busy_turns ticks_per_ms (rounds ((a, b, c) ∷ [])) w ≡ 0
      → weight w ≡ 0
  idle_round a b c w h =
      let s : busy strategy w ≡ 0 = omega (arith, h) in
      let w1 = turn ticks_per_ms strategy a w in
      let same1 = turn-idle strategy a w s in
      let r1 : busy risk w1 ≡ 0 = omega (arith, h) in
      let r = subst (λ v. busy risk v ≡ 0) same1 r1 in
      let same2 = turn-idle risk b w1 r1 ∙ same1 in
      let o2 : busy routing (turn ticks_per_ms risk b w1) ≡ 0 = omega (arith, h) in
      let o = subst (λ v. busy routing v ≡ 0) same2 o2 in weight-idle w s r o

  -- On an engine with the buses of a start with IPC, as many rounds of the three loops as what is queued
  -- weighs, or more, leave all three queues empty.
  pub rounds-settled :
      (times : List (Timestamp × Timestamp × Timestamp)) (w : TradingEngine F)
      → IsWired w
      → weight w ≤ length times
      → weight (run ticks_per_ms (rounds times) w) ≡ 0
  unfolding run
  rounds-settled [] w v h = omega arith
  rounds-settled ((a, b, c) ∷ times) w v h =
      let w1 = turn ticks_per_ms strategy a w in
      let w2 = turn ticks_per_ms risk b w1 in
      let w3 = turn ticks_per_ms routing c w2 in
      let (v1, less1) = turn-settles ticks_per_ms strategy a w v in
      let (v2, less2) = turn-settles ticks_per_ms risk b w1 v1 in
      let (v3, less3) = turn-settles ticks_per_ms routing c w2 v2 in
      let found = busy strategy w + busy risk w1 + busy routing w2 in
      rounds-settled times w3 v3 (elim (Bool-cases (found == 0)) [
        | inl idle ↦
            (let none_found = (nat_beq_iff found 0).0 idle in
              omega (arith, idle_round a b c w (omega (arith, none_found)), less1, less2, less3))
        | inr some_found ↦ omega (arith, one-le_of_beq found some_found, less1, less2, less3)
      ])
