-- ===== src/WallClock.antt =====
-- src/cppmetrics/core/utils.h: the time since the epoch in milliseconds, which seeds the generators,
-- and in seconds, which stamps the lines to Graphite. The clock of Boost.Date_Time is an argument: the
-- time since the epoch in UTC, and what the time zone adds to it, in microseconds.
pub mod Zones
use cppmetrics.Prelude.{
  ℕ, suc, ◌-◌, ◌/◌, ◌%◌, ◌^◌, ℤ, pos, negsuc, sub_ℕ, ◌+ℤ◌, int64_to_uint64, ltb, if◌then◌else◌,
}

pub record WallClock : Type 0 where
  pub universal_time : ℤ
  pub zone : ℤ

-- `microsec_clock::local_time()`, from the epoch on.
abbrev pub local_time : WallClock → ℤ
local_time c = c.universal_time +ℤ c.zone

-- The integer quotient, rounded towards zero.
abbrev pub quotient : ℤ → ℕ → ℤ
quotient (pos n) k = pos (n / k)
quotient (negsuc n) k = sub_ℕ 0 (suc n / k)

unfoldable pub get_duration_from_epoch : WallClock → ℤ
get_duration_from_epoch c = local_time c

unfoldable pub get_millis_from_epoch : WallClock → ℕ
unfolding get_duration_from_epoch
get_millis_from_epoch c = int64_to_uint64 (quotient (get_duration_from_epoch c) 1000)

-- `total_seconds()` of the Boost that the build asks for, 1.53 and later: a 32-bit `int`.
abbrev pub total_seconds : ℤ → ℤ
total_seconds duration =
    let low = int64_to_uint64 (quotient duration 1_000_000) % 2 ^ 32 in
    if ltb low (2 ^ 31) then pos low else negsuc (2 ^ 32 - low - 1)

unfoldable pub get_seconds_from_epoch : WallClock → ℕ
unfolding get_duration_from_epoch
get_seconds_from_epoch c = int64_to_uint64 (total_seconds (get_duration_from_epoch c))
