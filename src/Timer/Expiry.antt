-- ===== src/Timer/Expiry.antt =====
-- When a timer is expired.
use robot_remote_control.Base.{ℕ, ◌≤◌, ◌≡◌, refl, true, false, arith}
use robot_remote_control.Base.Int.{sub_ℕ, sub_ℕ-mono}
use robot_remote_control.Floats.{Floats}
use robot_remote_control.Timer.{Timer, new_timer, start, is_expired}

module _ (f : Floats) where
  open f use {Float, geb, seconds, geb_trans, seconds_mono}

  -- A timer that was never started is never expired.
  pub is_expired-new_timer : (now : ℕ) → is_expired f now (new_timer f) ≡ false
  unfolding is_expired new_timer
  is_expired-new_timer now = refl

  -- A started timer is expired just when the elapsed seconds reach the interval.
  pub is_expired-start :
      (interval : Float) (began now : ℕ) (t : Timer Float)
      → is_expired f now (start f interval began t) ≡ geb (seconds (sub_ℕ now began)) interval
  unfolding is_expired start
  is_expired-start interval began now t = ground arith

  -- Once expired, a timer stays expired until it is started again.
  pub is_expired_mono :
      (t : Timer Float) (now later : ℕ)
      → now ≤ later
      → is_expired f now t ≡ true
      → is_expired f later t ≡ true
  unfolding is_expired
  is_expired_mono t now later h e = ground (
    arith,
    geb_trans (seconds (sub_ℕ later t.start_time)) (seconds (sub_ℕ now t.start_time)) t.interval_s,
    seconds_mono (sub_ℕ now t.start_time) (sub_ℕ later t.start_time)
        (sub_ℕ-mono now later t.start_time h),
  )
