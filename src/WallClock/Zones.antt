-- ===== src/WallClock/Zones.antt =====
-- The time stamps of utils.h in a time zone.
use cppmetrics.Prelude.{
  ℕ, ◌+◌, ◌-◌, ◌*◌, ◌/◌, ◌≤◌, ◌<◌, ◌^◌, ◌≡◌, ◌∙◌, ap, ℤ, pos, sub_ℕ, ◌+ℤ◌, int64_to_uint64, arith,
  residue64,
}
use cppmetrics.WallClock.{total_seconds, get_duration_from_epoch, get_seconds_from_epoch}

east : (u z : ℕ) → pos u +ℤ pos z ≡ pos (u + z)
unfolding ◌+ℤ◌
east u z = ground arith

west : (u z : ℕ) → z ≤ u → pos u +ℤ sub_ℕ 0 z ≡ pos (u - z)
unfolding ◌+ℤ◌
west u z h = ground arith

abbrev stamp_of : ℤ → ℕ
stamp_of time = int64_to_uint64 (total_seconds time)

-- The stamp of a local time of `n` seconds after the epoch, and less than one more.
stamp_early : (t : ℕ) → t / 1_000_000 < 2 ^ 31 → stamp_of (pos t) ≡ t / 1_000_000
unfolding residue64
stamp_early t h = ground arith

stamp_late :
    (t : ℕ)
    → 2 ^ 31 ≤ t / 1_000_000
    → t / 1_000_000 < 2 ^ 32
    → stamp_of (pos t) ≡ 2 ^ 64 - 2 ^ 32 + t / 1_000_000
unfolding residue64
stamp_late t h k = ground arith

-- At `u` microseconds after the epoch, in a time zone `z` seconds east or west of UTC: while the local
-- time is less than 2 ^ 31 seconds after the epoch, the seconds that stamp a report are not those
-- since the epoch but ahead of them, or west of UTC behind them, by the zone. From 2 ^ 31 seconds on, in
-- 2038, until 2 ^ 32 seconds, stated for the east, they are no time at all: the 32-bit count of seconds is
-- negative, and as a `uint64_t` it is close to 2 ^ 64.
pub get_seconds_from_epoch_lem :
    (u z : ℕ)
    → let east_of =
        get_seconds_from_epoch (record { universal_time = pos u; zone = pos (z * 1_000_000) }) in
      (u / 1_000_000 + z < 2 ^ 31 → east_of ≡ u / 1_000_000 + z)
      × (2 ^ 31 ≤ u / 1_000_000 + z
          → u / 1_000_000 + z < 2 ^ 32
          → east_of ≡ 2 ^ 64 - 2 ^ 32 + (u / 1_000_000 + z))
      × (z * 1_000_000 ≤ u
          → u / 1_000_000 < 2 ^ 31
          → get_seconds_from_epoch
                (record { universal_time = pos u; zone = sub_ℕ 0 (z * 1_000_000) })
              + z
            ≡ u / 1_000_000)
unfolding get_seconds_from_epoch get_duration_from_epoch
get_seconds_from_epoch_lem u z =
    let seconds : (u + z * 1_000_000) / 1_000_000 ≡ u / 1_000_000 + z = omega arith in
    (
      λ h.
          ap stamp_of (east u (z * 1_000_000))
          ∙ stamp_early (u + z * 1_000_000) (omega arith)
          ∙ seconds,
      λ h k.
          ap stamp_of (east u (z * 1_000_000))
          ∙ stamp_late (u + z * 1_000_000) (omega arith) (omega arith)
          ∙ ap (λ n. 2 ^ 64 - 2 ^ 32 + n) seconds,
      λ h k.
          ap (λ t. stamp_of t + z) (west u (z * 1_000_000) h)
          ∙ ap (λ n. n + z) (stamp_early (u - z * 1_000_000) (omega arith))
          ∙ omega arith,
    )
