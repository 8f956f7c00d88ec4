-- ===== src/Tests/Counting.antt =====
-- Three messages and a calculation that the statistics count.
use robot_remote_control.Base.{ℕ, ◌≡◌, List, [], ◌∷◌, some, get_elem?, Returns, arith}
use robot_remote_control.Doubles.{whole}
use robot_remote_control.Statistics.{Stats, Event, sent, calculated, new_statistics, record_events}
use robot_remote_control.Statistics.Totals.{counts, record_events-new_statistics}

abbrev events : List (Event whole)
events = sent 10 1 ∷ sent 20 2 ∷ calculated 2_000_000 ∷ sent 5 1 ∷ []

record_events-new_statistics_example :
    Returns (record_events whole events (new_statistics whole 1 0 99)) (λ s.
      (counts whole s.global ≡ (5, 35))
      × (t : Stats ℕ) × (get_elem? s.stat_per_type 1 ≡ some t)
      × (counts whole t ≡ (5, 15)))
record_events-new_statistics_example =
    record_events-new_statistics whole events 1 0 99 1 (omega arith) (omega arith)
