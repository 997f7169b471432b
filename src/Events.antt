-- ===== src/Events.antt =====
-- The events of core/app/include/quant/events and their variant `Event`. A time point of
-- std::chrono::system_clock is the count of its ticks since the epoch.
use quant_core_engine.Prelude.{ℕ, String, List, [], ◌∷◌, ◌++◌}
use quant_core_engine.Prelude.Int.{ℤ}
use quant_core_engine.Domain.{OrderId, Side, OrderStatus, Order, Position}

abbrev pub Timestamp : Type 0
Timestamp = ℤ

pub record MarketDataEvent (F : Type 0) : Type 0 where
  pub symbol : String
  pub price : F
  pub quantity : F
  pub timestamp : Timestamp
  pub sequence_id : ℕ

pub record SignalEvent (F : Type 0) : Type 0 where
  pub strategy_id : String
  pub symbol : String
  pub side : Side
  pub strength : F
  pub price : F
  pub timestamp : Timestamp
  pub sequence_id : ℕ

pub record OrderEvent (F : Type 0) : Type 0 where
  pub order : Order F
  pub timestamp : Timestamp
  pub sequence_id : ℕ

pub record OrderUpdateEvent (F : Type 0) : Type 0 where
  pub order : Order F
  pub previous_status : OrderStatus
  pub timestamp : Timestamp
  pub sequence_id : ℕ

pub record RiskRejectEvent : Type 0 where
  pub order_id : String
  pub reason : String
  pub timestamp : Timestamp
  pub sequence_id : ℕ

pub record FillEvent (F : Type 0) : Type 0 where
  pub order_id : String
  pub symbol : String
  pub fill_price : F
  pub fill_quantity : F
  pub timestamp : Timestamp
  pub sequence_id : ℕ

pub record HeartbeatEvent : Type 0 where
  pub component_id : String
  pub status : String
  pub timestamp : Timestamp
  pub sequence_id : ℕ

pub data ExecutionStatus : Type 0 where
  accepted filled rejected : ExecutionStatus

pub record ExecutionReportEvent (F : Type 0) : Type 0 where
  pub order_id : OrderId
  pub filled_quantity : F
  pub fill_price : F
  pub status : ExecutionStatus
  pub timestamp : Timestamp
  pub sequence_id : ℕ

pub record PositionUpdateEvent (F : Type 0) : Type 0 where
  pub position : Position F
  pub timestamp : Timestamp
  pub sequence_id : ℕ

pub record RiskViolationEvent (F : Type 0) : Type 0 where
  pub symbol : String
  pub reason : String
  pub current_value : F
  pub limit_value : F
  pub timestamp : Timestamp
  pub sequence_id : ℕ

pub data Event (F : Type 0) : Type 0 where
  market_data : MarketDataEvent F → Event F
  signal : SignalEvent F → Event F
  order_event : OrderEvent F → Event F
  order_update : OrderUpdateEvent F → Event F
  risk_reject : RiskRejectEvent → Event F
  fill_event : FillEvent F → Event F
  heartbeat : HeartbeatEvent → Event F
  execution_report : ExecutionReportEvent F → Event F
  position_update : PositionUpdateEvent F → Event F
  risk_violation : RiskViolationEvent F → Event F

-- What a handler of a component with state `S` may touch of the world `W` that it runs in: its own
-- state, and `EventBus::publish` on the bus that it was constructed with. A publish runs the other
-- subscribers on the same thread before it returns.
pub record Host (S W F : Type 0) : Type 0 where
  pub get : W → S
  pub put : S → W → W
  pub publish : Event F → W → W

-- A bus whose subscribers leave the component alone: what is published is appended to a log.
abbrev pub Logged : Type 0 → Type 0 → Type 0
Logged S F = S × List (Event F)

abbrev pub logging : {S F : Type 0} → Host S (Logged S F) F
logging = record { get = λ w. w.0; put = λ s w. (s, w.1); publish = λ e w. (w.0, w.1 ++ e ∷ []) }
