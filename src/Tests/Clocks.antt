-- ===== src/Tests/Clocks.antt =====
-- The time stamps of a zone: a run, and the theorem at a concrete input.
use cppmetrics.Prelude.{◌+◌, ◌-◌, ◌<◌, ◌^◌, ◌*◌, ◌/◌, ◌≤◌, ◌≡◌, refl, pos, sub_ℕ, residue64, ◌+ℤ◌}
use cppmetrics.WallClock.{get_seconds_from_epoch, get_millis_from_epoch}
use cppmetrics.WallClock.Zones.{get_seconds_from_epoch_lem}

-- Two hours east.
millis_east :
    get_millis_from_epoch
      (record { universal_time = pos 1_400_000_000_000_000; zone = pos 7_200_000_000 })
    ≡ 1_400_007_200_000
unfolding get_millis_from_epoch residue64 ◌+ℤ◌
millis_east = refl

get_seconds_from_epoch_lem_example :
    let east_of =
      get_seconds_from_epoch
        (record { universal_time = pos 1_400_000_000_000_000; zone = pos (7200 * 1_000_000) }) in
    (1_400_000_000_000_000 / 1_000_000 + 7200 < 2 ^ 31
      → east_of ≡ 1_400_000_000_000_000 / 1_000_000 + 7200)
    × (2 ^ 31 ≤ 1_400_000_000_000_000 / 1_000_000 + 7200
        → 1_400_000_000_000_000 / 1_000_000 + 7200 < 2 ^ 32
        → east_of ≡ 2 ^ 64 - 2 ^ 32 + (1_400_000_000_000_000 / 1_000_000 + 7200))
    × (7200 * 1_000_000 ≤ 1_400_000_000_000_000
        → 1_400_000_000_000_000 / 1_000_000 < 2 ^ 31
        → get_seconds_from_epoch (record {
          universal_time = pos 1_400_000_000_000_000;
          zone = sub_ℕ 0 (7200 * 1_000_000);
        })
            + 7200
          ≡ 1_400_000_000_000_000 / 1_000_000)
get_seconds_from_epoch_lem_example = get_seconds_from_epoch_lem 1_400_000_000_000_000 7200

-- One hour after the 32-bit count has wrapped.
seconds_of_2038 :
    get_seconds_from_epoch (record { universal_time = pos 2_147_487_248_000_000; zone = pos 0 })
    ≡ 18_446_744_071_562_071_568
unfolding get_seconds_from_epoch residue64 ◌+ℤ◌
seconds_of_2038 = refl
