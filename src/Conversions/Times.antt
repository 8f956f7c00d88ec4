-- ===== src/Conversions/Times.antt =====
-- src/Types/Conversions/rock/Time.hpp, and `getTime` of src/ControlledRobot/ControlledRobot.cpp.
use robot_remote_control.Base.{
  ℕ, suc, ◌-◌, ◌*◌, ◌/◌, ◌<◌, ◌≤◌, ◌≡◌, ap, ◌∙◌, ◌==◌, if◌then◌else◌, arith,
}
use robot_remote_control.Base.Int.{ℤ, pos, negsuc, to_int, to_int_small}
use robot_remote_control.Conversions.Messages.{TimeStamp}

-- base::Time, for times from the epoch on.
pub record RockTime : Type 1 where
  pub Time : Type 0
  pub to_timeval : Time → ℕ × ℕ
  pub from_seconds : ℤ → ℤ → Time
  pub microseconds : (t : Time) → (to_timeval t).1 < 1_000_000
  pub from_seconds-to_timeval :
      (t : Time) → from_seconds (pos (to_timeval t).0) (pos (to_timeval t).1) ≡ t

-- Division of an `int32` by 1000, towards 0.
unfoldable pub div_thousand : ℤ → ℤ
div_thousand (pos n) = pos (n / 1000)
div_thousand (negsuc n) = if suc n / 1000 == 0 then pos 0 else negsuc (suc n / 1000 - 1)

-- `getTime`: what `clock_gettime` returns, in the 32 bits of the fields.
unfoldable pub get_time : ℕ → ℕ → TimeStamp
get_time tv_sec tv_nsec = record { secs = to_int tv_sec; nsecs = to_int tv_nsec }

module _ (r : RockTime) where
  open r use {Time, to_timeval, from_seconds, microseconds, from_seconds-to_timeval}

  unfoldable pub to_time_stamp : Time → TimeStamp
  to_time_stamp t = record {
    secs = to_int (to_timeval t).0;
    nsecs = to_int ((to_timeval t).1 * 1000);
  }

  unfoldable pub of_time_stamp : TimeStamp → Time
  unfolding div_thousand
  of_time_stamp s = from_seconds s.secs (div_thousand s.nsecs)

  -- A time before the year 2038 is converted to a message and back without loss: its seconds fit into
  -- the 32 bits of the message, and its microseconds do as nanoseconds.
  pub of_time_stamp-to_time_stamp :
      (t : Time) → (to_timeval t).0 < 2_147_483_648 → of_time_stamp (to_time_stamp t) ≡ t
  unfolding of_time_stamp to_time_stamp
  of_time_stamp-to_time_stamp t early =
      rw
        (
          to_int_small (to_timeval t).0 early,
          to_int_small ((to_timeval t).1 * 1000) (omega (arith, microseconds t)),
          div_thousand,
        )
        (ap (λ u. from_seconds (pos (to_timeval t).0) (pos u)) (omega arith)
          ∙ from_seconds-to_timeval t)

  -- In the 68 years from 2038 on the seconds of the message are negative, here and for `getTime`.
  pub to_time_stamp_late :
      (t : Time) (tv_nsec : ℕ)
      → 2_147_483_648 ≤ (to_timeval t).0
      → (to_timeval t).0 < 4_294_967_296
      → ((to_time_stamp t).secs ≡ negsuc (4_294_967_295 - (to_timeval t).0))
        × ((get_time (to_timeval t).0 tv_nsec).secs ≡ negsuc (4_294_967_295 - (to_timeval t).0))
  unfolding to_time_stamp get_time
  to_time_stamp_late t tv_nsec late fits = (ground arith, ground arith)
