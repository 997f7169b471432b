-- ===== src/Execution.antt =====
-- core/app/src/execution: the two simulated execution layers. Each answers an order with two reports,
-- an acknowledgment and a full fill at the order's price; they differ in the clock that they read.
use quant_core_engine.Prelude.{ℕ, ◌≡◌, refl}
use quant_core_engine.Double.{Double, lit}
use quant_core_engine.Events.{
  Timestamp, OrderEvent, ExecutionStatus, ExecutionReportEvent, Event, execution_report,
}
use quant_core_engine.TimeProvider.{
  ITimeProvider, live_time, live_now_ms, timestamp_to_ms, ms_to_timestamp,
}

module _ {F : Type 0} ⦃d : Double F⦄ where
  unfoldable pub ack_report : Timestamp → OrderEvent F → ExecutionReportEvent F
  ack_report ts event = record {
    order_id = event.order.id;
    filled_quantity = lit 0;
    fill_price = lit 0;
    status = ExecutionStatus.accepted;
    timestamp = ts;
    sequence_id = event.sequence_id;
  }

  unfoldable pub fill_report : Timestamp → OrderEvent F → ExecutionReportEvent F
  fill_report ts event = record {
    order_id = event.order.id;
    filled_quantity = event.order.quantity;
    fill_price = event.order.price;
    status = ExecutionStatus.filled;
    timestamp = ts;
    sequence_id = event.sequence_id;
  }

  module _ {W : Type 0} (publish : Event F → W → W) where
    -- `ExecutionEngine::onOrder`, at the reading `now` of the system clock.
    unfoldable pub on_order : Timestamp → OrderEvent F → W → W
    on_order now event w =
        publish (execution_report (fill_report now event))
          (publish (execution_report (ack_report now event)) w)

    -- `MockExecutionEngine::onOrder`: the time comes from the provider.
    unfoldable pub mock_on_order : ℕ → ITimeProvider W → OrderEvent F → W → W
    mock_on_order ticks_per_ms time_provider event w =
        let ts = ms_to_timestamp ticks_per_ms (time_provider.now_ms w) in
        publish (execution_report (fill_report ts event))
          (publish (execution_report (ack_report ts event)) w)

    -- On the system clock the two engines differ in the rounding of the time alone.
    mock_on_order-on_order :
        (ticks_per_ms : ℕ) (now : Timestamp) (event : OrderEvent F) (w : W)
        → mock_on_order ticks_per_ms (live_time ticks_per_ms now) event w
          ≡ on_order (ms_to_timestamp ticks_per_ms (timestamp_to_ms ticks_per_ms now)) event w
    unfolding mock_on_order on_order live_now_ms timestamp_to_ms
    mock_on_order-on_order ticks_per_ms now event w = refl
