-- ===== src/MarketDataThread.antt =====
-- core/app/src/network/market_data_thread.cpp, with the flag `running_` of the gateway that it owns:
-- core/app/src/gateway/market_data_gateway.cpp sets the flag when `run` begins, and `stop` clears it.
-- The owner's calls and the worker's steps may interleave at will; messages are left out here.
use quant_core_engine.Prelude.{
  ℕ, zero, suc, ◌≡◌, refl, Bool, true, false, Option, none, some, if◌then◌else◌, arith,
}

-- Where the thread stands: none, spawned and not yet in `run`, at the test of its loop, or returned.
pub data Worker : Type 0 where
  absent spawned receiving returned : Worker

-- `gateway_` with its `running_`; `none` is a null pointer.
pub record MarketDataThread : Type 0 where
  pub gateway : Option Bool
  pub worker : Worker

abbrev pub idle : MarketDataThread
idle = record { gateway = none; worker = absent }

-- `thread_.joinable()`.
unfoldable pub is_joinable : Worker → Bool
is_joinable absent = false
is_joinable _ = true

unfoldable pub start_thread : MarketDataThread → MarketDataThread
unfolding is_joinable
start_thread t =
    if is_joinable t.worker then t else record { gateway = some false; worker = spawned }

-- `running_.store(...)` on a gateway that exists.
unfoldable pub store_running : Bool → Option Bool → Option Bool
store_running value none = none
store_running value (some _) = some value

-- `stop` up to the join.
unfoldable pub stop_gateway : MarketDataThread → MarketDataThread
unfolding store_running
stop_gateway t = record t { gateway = store_running false t.gateway }

-- The end of `stop`: the join returns once the thread has, and the gateway is destroyed; till then
-- there is no step.
unfoldable pub join_thread : MarketDataThread → Option MarketDataThread
join_thread t = elim t.worker [ absent ↦ some idle | returned ↦ some idle | _ ↦ none ]

-- `while (running_.load())`.
unfoldable pub receive_round : Option Bool → Worker
receive_round (some true) = receiving
receive_round _ = returned

-- A step of the worker: `run` begins, or one round of its loop.
unfoldable pub work : MarketDataThread → MarketDataThread
unfolding store_running receive_round
work t = elim t.worker [
  | spawned ↦ record { gateway = store_running true t.gateway; worker = receiving }
  | receiving ↦ record t { worker = receive_round t.gateway }
  | _ ↦ t
]

unfoldable pub work_all : ℕ → MarketDataThread → MarketDataThread
work_all zero t = t
work_all (suc n) t = work_all n (work t)

-- A thread that is in its loop when it is stopped returns on its next round, and the join returns.
pub stop-receiving :
    (t : MarketDataThread) → t.worker ≡ receiving → join_thread (work (stop_gateway t)) ≡ some idle
unfolding join_thread work stop_gateway store_running receive_round
stop-receiving t e = ground arith

abbrev busy : MarketDataThread
busy = record { gateway = some true; worker = receiving }

join-busy : (n : ℕ) → join_thread (work_all n busy) ≡ none
unfolding join_thread work_all work
join-busy zero = refl
join-busy (suc n) = join-busy n

-- A stop that comes between the spawn of the thread and the start of its loop is lost: however many
-- steps the thread makes, the join does not return.
pub stop-spawned : (n : ℕ) → join_thread (work_all n (stop_gateway (start_thread idle))) ≡ none
unfolding join_thread work_all work stop_gateway start_thread
stop-spawned zero = refl
stop-spawned (suc n) = join-busy n
