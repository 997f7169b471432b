-- ===== src/TimeProvider/Range.antt =====
-- The range of std::int64_t, in which milliseconds and the ticks of std::chrono::system_clock are kept,
-- for a clock that counts nanoseconds, as that of libstdc++ does.
use quant_core_engine.Prelude.{ℕ, ◌<◌, ◌≡◌, ◌↔◌, true, arith}
use quant_core_engine.Prelude.Int.{ℤ, pos, negsuc, ◌*ℤ◌, neg_ℤ, div_ℤ, leb_ℤ}
use quant_core_engine.Events.{Timestamp}
use quant_core_engine.TimeProvider.{ms_to_timestamp, timestamp_to_ms}

abbrev pub int64_limit : ℕ
int64_limit = 9223372036854775808

abbrev pub IsInt64 : ℤ → Type 0
IsInt64 (pos n) = n < int64_limit
IsInt64 (negsuc n) = n < int64_limit

abbrev pub nanoseconds : ℕ
nanoseconds = 1000000

-- The last millisecond, and its opposite, that a nanosecond clock can show.
abbrev pub IsShown : ℤ → Type 0
IsShown ms = (leb_ℤ (negsuc 9223372036853) ms ≡ true) × (leb_ℤ ms (pos 9223372036854) ≡ true)

-- The time point of a number of milliseconds is in the range of std::int64_t exactly if the number is
-- at most 9223372036854 in size, which is in the year 2262; beyond, the multiplication overflows.
pub ms_to_timestamp-IsInt64_iff : (ms : ℤ) → IsInt64 (ms_to_timestamp nanoseconds ms) ↔ IsShown ms
unfolding ms_to_timestamp ◌*ℤ◌
ms_to_timestamp-IsInt64_iff (pos n) = ground arith
ms_to_timestamp-IsInt64_iff (negsuc n) = ground arith

-- The milliseconds of a time point in the range of std::int64_t are in that range, and the time point
-- that is made of them again is too.
pub timestamp_to_ms-IsInt64 :
    (tp : Timestamp)
    → IsInt64 tp
    → IsInt64 (timestamp_to_ms nanoseconds tp)
      × IsInt64 (ms_to_timestamp nanoseconds (timestamp_to_ms nanoseconds tp))
unfolding ms_to_timestamp timestamp_to_ms ◌*ℤ◌ div_ℤ neg_ℤ
timestamp_to_ms-IsInt64 (pos n) h = (omega arith, ground arith)
timestamp_to_ms-IsInt64 (negsuc n) h = (ground arith, ground arith)
