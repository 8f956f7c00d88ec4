-- ===== src/Statistics.antt =====
-- src/Statistics.hpp and src/Statistics.cpp, and `updateStatistics` of
-- src/ControlledRobot/ControlledRobot.cpp, as they are compiled with RRC_STATISTICS. A time is a number
-- of microseconds since the epoch; printing is left out.
pub mod Totals
use robot_remote_control.Base.{
  ℕ, true, false, if◌then◌else◌, List, [], ◌∷◌, map, Result, ok, ◌>>=◌, read_at, write_at,
  replicate,
}
use robot_remote_control.Base.Int.{sub_ℕ}
use robot_remote_control.Doubles.{Doubles}
use robot_remote_control.MessageTypes.Telemetry

-- Statistics::Stats with its member `statdata`.
pub record Stats (D : Type 0) : Type 0 where
  pub last_calc : ℕ
  pub bytes_since_last : D
  pub last_bytes_size : D
  pub bytes_total : D
  pub bps_last : D
  pub bps_avg : D
  pub frequency : D
  pub frequency_avg : D
  pub running_avg_samples : D
  pub running_avg_factor : D

pub record Statistics (D : Type 0) : Type 0 where
  pub global : Stats D
  pub stat_per_type : List (Stats D)

module _ (d : Doubles) where
  open d use {Double, of_ℕ, of_ℤ, add, mul, div, lt}

  -- The members that the constructor leaves uninitialised have the value `garbage`. `factor` is
  -- `(runningAvgSamples - 1) / runningAvgSamples`.
  unfoldable pub new_stats : Double → Double → ℕ → Double → Stats Double
  new_stats samples factor now garbage = record {
    last_calc = now;
    bytes_since_last = of_ℕ 0;
    last_bytes_size = garbage;
    bytes_total = of_ℕ 0;
    bps_last = of_ℕ 0;
    bps_avg = of_ℕ 0;
    frequency = garbage;
    frequency_avg = garbage;
    running_avg_samples = samples;
    running_avg_factor = factor;
  }

  unfoldable pub add_bytes_sent : Double → Stats Double → Stats Double
  add_bytes_sent bytes s = record s {
    bytes_total = add s.bytes_total bytes;
    bytes_since_last = add s.bytes_since_last bytes;
  }

  -- `diff.tv_sec * 1000000 + tv_usec`, divided by 1000000.
  unfoldable pub seconds_between : ℕ → ℕ → Double
  seconds_between now last = div (of_ℤ (sub_ℕ now last)) (of_ℕ 1_000_000)

  -- `average * runningAvgFactor + value / runningAvgSamples`
  unfoldable pub averaged : Double → Double → Stats Double → Double
  averaged average value s =
      add (mul average s.running_avg_factor) (div value s.running_avg_samples)

  unfoldable pub calculate : ℕ → Stats Double → Stats Double
  unfolding seconds_between averaged
  calculate now s =
      let seconds = seconds_between now s.last_calc in
      let bps = div s.bytes_since_last seconds in
      let sent = lt (of_ℕ 0) s.bytes_since_last in
      let often = if sent then div (of_ℕ 1) seconds else of_ℕ 0 in
      record s {
        bps_last = bps;
        bps_avg = averaged s.bps_avg bps s;
        last_calc = now;
        frequency = often;
        last_bytes_size = if sent then s.bytes_since_last else s.last_bytes_size;
        frequency_avg = averaged s.frequency_avg often s;
        bytes_since_last = of_ℕ 0;
      }

  -- Each `Stats` is made with the default of 10 samples.
  unfoldable pub new_statistics : Double → ℕ → Double → Statistics Double
  unfolding new_stats
  new_statistics factor now garbage = record {
    global = new_stats (of_ℕ 10) factor now garbage;
    stat_per_type =
        replicate Telemetry.telemetry_message_types_number (new_stats (of_ℕ 10) factor now garbage);
  }

  unfoldable pub calculate_all : ℕ → Statistics Double → Statistics Double
  unfolding calculate
  calculate_all now s = record {
    global = calculate now s.global;
    stat_per_type = map (calculate now) s.stat_per_type;
  }

  -- `updateStatistics`, which indexes an array with the type of the message.
  unfoldable pub update_statistics : ℕ → ℕ → Statistics Double → Result (Statistics Double)
  unfolding add_bytes_sent
  update_statistics bytes_sent type s = do
    of_type ← read_at s.stat_per_type type
    stats ← write_at s.stat_per_type type (add_bytes_sent (of_ℕ bytes_sent) of_type)
    ok (record { global = add_bytes_sent (of_ℕ bytes_sent) s.global; stat_per_type = stats })

  -- What is counted: a message that was sent, and the calculation that the application calls.
  pub data Event : Type 0 where
    sent : ℕ → ℕ → Event
    calculated : ℕ → Event

  unfoldable pub record_event : Event → Statistics Double → Result (Statistics Double)
  unfolding update_statistics calculate_all
  record_event (sent bytes type) s = update_statistics bytes type s
  record_event (calculated now) s = ok (calculate_all now s)

  unfoldable pub record_events : List Event → Statistics Double → Result (Statistics Double)
  unfolding record_event
  record_events [] s = ok s
  record_events (event ∷ events) s = record_event event s >>= record_events events
