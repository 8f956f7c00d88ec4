-- ===== src/Timer.antt =====
-- src/UpdateThread/Timer.hpp and src/UpdateThread/Timer.cpp. A time is a number of microseconds
-- since the epoch; each call of `gettimeofday` is an argument.
pub mod Expiry
use robot_remote_control.Base.{ℕ, Bool, true, false, ◌&&◌, if◌then◌else◌}
use robot_remote_control.Base.Int.{ℤ, sub_ℕ}
use robot_remote_control.Floats.{Floats}

-- `interval_s` and `startTime` are not read before the first start.
pub record Timer (F : Type 0) : Type 0 where
  pub interval_s : F
  pub running : Bool
  pub start_time : ℕ

module _ (f : Floats) where
  open f use {Float, zero_float, geb, seconds}

  unfoldable pub new_timer : Timer Float
  new_timer = record { interval_s = zero_float; running = false; start_time = 0 }

  unfoldable pub start : Float → ℕ → Timer Float → Timer Float
  start interval_seconds now t = record {
    interval_s = interval_seconds;
    running = true;
    start_time = now;
  }

  unfoldable pub get_elapsed_time : ℕ → Timer Float → Float
  get_elapsed_time now t = seconds (sub_ℕ now t.start_time)

  unfoldable pub is_expired : ℕ → Timer Float → Bool
  unfolding get_elapsed_time
  is_expired now t = if t.running && geb (get_elapsed_time now t) t.interval_s then true else false
