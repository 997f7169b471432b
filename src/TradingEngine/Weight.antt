-- ===== src/TradingEngine/Weight.antt =====
-- How much work an event that is queued still makes for the loops of an engine that `start` has wired:
-- a tick makes a signal, a signal an order, an order two reports.
use quant_core_engine.Prelude.{ℕ, suc, ◌+◌, ◌≤◌, ◌≡◌, List, [], ◌∷◌, ◌++◌, arith}
use quant_core_engine.Events.{Event, market_data, signal, order_event, execution_report}
use quant_core_engine.EventBus.{SubscriptionId}
use quant_core_engine.ThreadSafeQueue.{push}
use quant_core_engine.TradingEngine.World.{
  Loop, strategy, risk, routing, Callback, risk_on_signal, strategy_on_market_data,
  execution_on_order, forward_signal, forward_order, forward_report, TradingEngine,
}
use quant_core_engine.TradingEngine.Stages.{wired_strategy, wired_risk, wired_routing}
use quant_core_engine.TradingEngine.Induction.{push_on}

module _ {F : Type 0} where
  -- What a callback adds to the queues, in turns of loops.
  abbrev pub effort : Callback → Event F → ℕ
  effort strategy_on_market_data (market_data e) = 4
  effort forward_signal (signal e) = 4
  effort risk_on_signal (signal e) = 3
  effort forward_order (order_event e) = 3
  effort execution_on_order (order_event e) = 2
  effort forward_report (execution_report e) = 1
  effort _ _ = 0

  abbrev pub total : List (SubscriptionId × Callback) → Event F → ℕ
  total [] e = 0
  total ((id, c) ∷ subscribers) e = effort c e + total subscribers e

  -- What a publish on the bus of a loop adds.
  abbrev pub cost : Loop → Event F → ℕ
  cost strategy e = total wired_strategy.subscribers e
  cost risk e = total wired_risk.subscribers e
  cost routing e = total wired_routing.subscribers e

  abbrev pub queued_weight : Loop → List (Event F) → ℕ
  queued_weight l [] = 0
  queued_weight l (e ∷ es) = suc (cost l e) + queued_weight l es

  abbrev pub weight : TradingEngine F → ℕ
  weight w =
      queued_weight strategy w.strategy_queue.items
      + queued_weight risk w.risk_queue.items
      + queued_weight routing w.routing_queue.items

  -- The buses are those of a start with IPC.
  abbrev pub IsWired : TradingEngine F → Type 0
  IsWired w =
      (w.strategy_bus ≡ wired_strategy)
      × (w.risk_bus ≡ wired_risk)
      × (w.routing_bus ≡ wired_routing)

  abbrev pub IsBelow : ℕ → TradingEngine F → Type 0
  IsBelow n w = IsWired w × (weight w ≤ n)

  pub IsBelow-IsBelow : (m n : ℕ) (w : TradingEngine F) → m ≤ n → IsBelow m w → IsBelow n w
  IsBelow-IsBelow m n w h (v, b) = (v, omega arith)

  queued_weight-push :
      (l : Loop) (es : List (Event F)) (e : Event F)
      → queued_weight l (es ++ e ∷ []) ≡ queued_weight l es + suc (cost l e)
  queued_weight-push l [] e = omega arith
  queued_weight-push l (x ∷ es) e = omega (arith, queued_weight-push l es e)

  -- A push adds the turn for the event, and what its publish adds.
  pub push_on-IsBelow :
      (l : Loop) (e : Event F) (n : ℕ) (w : TradingEngine F)
      → IsBelow n w
      → IsBelow (n + suc (cost l e)) (push_on l e w)
  unfolding push
  push_on-IsBelow strategy e n w (v, b) =
      (v, omega (arith, queued_weight-push strategy w.strategy_queue.items e))
  push_on-IsBelow risk e n w (v, b) =
      (v, omega (arith, queued_weight-push risk w.risk_queue.items e))
  push_on-IsBelow routing e n w (v, b) =
      (v, omega (arith, queued_weight-push routing w.routing_queue.items e))
