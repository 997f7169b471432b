-- ===== src/TimeProvider.antt =====
-- core/app/src/time and include/quant/time: the clocks, and the conversion between milliseconds and
-- time points of std::chrono::system_clock. How many ticks of that clock make a millisecond is up to
-- the implementation, so it is a parameter; Range has the range of std::int64_t.
pub mod Range
use quant_core_engine.Prelude.{ℕ, ◌<◌, ◌≡◌}
use quant_core_engine.Prelude.Int.{ℤ, pos, ◌*ℤ◌, div_ℤ, div_ℤ-*ℤ_cancel}
use quant_core_engine.Events.{Timestamp}

-- `std::atomic<std::int64_t> current_time_ms_`, first 0.
pub record SimulationTimeProvider : Type 0 where
  pub current_time_ms : ℤ

abbrev pub new_clock : SimulationTimeProvider
new_clock = record { current_time_ms = pos 0 }

unfoldable pub now_ms : SimulationTimeProvider → ℤ
now_ms c = c.current_time_ms

unfoldable pub advance_time : ℤ → SimulationTimeProvider → SimulationTimeProvider
advance_time new_time_ms c = record c { current_time_ms = new_time_ms }

-- What a component may ask of its clock, whichever it is; `W` is where the clock stands.
pub record ITimeProvider (W : Type 0) : Type 0 where
  pub now_ms : W → ℤ

-- The simulation clock behind the interface.
abbrev pub simulation_time : {W : Type 0} → (W → SimulationTimeProvider) → ITimeProvider W
simulation_time clock = record { now_ms = λ w. now_ms (clock w) }

module _ (ticks_per_ms : ℕ) where
  unfoldable pub ms_to_timestamp : ℤ → Timestamp
  ms_to_timestamp ms = ms *ℤ pos ticks_per_ms

  -- `duration_cast` divides towards zero.
  unfoldable pub timestamp_to_ms : Timestamp → ℤ
  timestamp_to_ms tp = div_ℤ tp (pos ticks_per_ms)

  -- `LiveTimeProvider::now_ms`, at the reading `now` of the system clock.
  unfoldable pub live_now_ms : Timestamp → ℤ
  live_now_ms now = div_ℤ now (pos ticks_per_ms)

  -- The system clock behind the interface.
  abbrev pub live_time : {W : Type 0} → Timestamp → ITimeProvider W
  live_time now = record { now_ms = λ w. live_now_ms now }

  -- A time in milliseconds survives the way to a time point and back, if a millisecond has a tick.
  pub timestamp_to_ms-ms_to_timestamp :
      (ms : ℤ) → 0 < ticks_per_ms → timestamp_to_ms (ms_to_timestamp ms) ≡ ms
  unfolding ms_to_timestamp timestamp_to_ms
  timestamp_to_ms-ms_to_timestamp ms h = div_ℤ-*ℤ_cancel ms ticks_per_ms h
