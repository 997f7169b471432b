-- ===== src/TradingEngine/Turns.antt =====
-- The loops at work: one iteration of `EventLoopThread::run` for each turn, in any interleaving.
use quant_core_engine.Prelude.{ℕ, Option, none, some, List, [], ◌∷◌}
use quant_core_engine.Double.{Double}
use quant_core_engine.Events.{Timestamp, MarketDataEvent, Event, market_data}
use quant_core_engine.ThreadSafeQueue.{Queue, try_pop}
use quant_core_engine.TradingEngine.World.{
  Loop, strategy, risk, routing, TradingEngine, push_strategy, publish, depth,
}

module _ {F : Type 0} where
  abbrev pub queue_of : Loop → TradingEngine F → Queue (Event F)
  queue_of strategy w = w.strategy_queue
  queue_of risk w = w.risk_queue
  queue_of routing w = w.routing_queue

  abbrev pub set_queue : Loop → Queue (Event F) → TradingEngine F → TradingEngine F
  set_queue strategy q w = record w { strategy_queue = q }
  set_queue risk q w = record w { risk_queue = q }
  set_queue routing q w = record w { routing_queue = q }

  -- `pushMarketData` and `pushEvent`.
  unfoldable pub push_market_data : MarketDataEvent F → TradingEngine F → TradingEngine F
  push_market_data e w = push_strategy (market_data e) w

  unfoldable pub push_event : Event F → TradingEngine F → TradingEngine F
  push_event e w = push_strategy e w

module _ {F : Type 0} ⦃d : Double F⦄ (ticks_per_ms : ℕ) where
  -- An event that was popped is published on the loop's own bus; else the loop waits.
  unfoldable pub publish_popped :
      Loop → Timestamp → Option (Event F) × Queue (Event F) → TradingEngine F → TradingEngine F
  publish_popped l now (none, rest) w = w
  publish_popped l now (some e, rest) w = publish ticks_per_ms now depth l e (set_queue l rest w)

  unfoldable pub turn : Loop → Timestamp → TradingEngine F → TradingEngine F
  unfolding publish_popped
  turn l now w = publish_popped l now (try_pop (queue_of l w)) w

  -- Which loop takes its turn next, and what its clock says.
  unfoldable pub run : List (Loop × Timestamp) → TradingEngine F → TradingEngine F
  run [] w = w
  run ((l, now) ∷ turns) w = run turns (turn l now w)
