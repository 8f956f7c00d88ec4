-- ===== src/Tests/Threads.antt =====
-- Concrete cases for the thread of `update`.
use robot_remote_control.Base.{
  ◌≡◌, refl, true, false, List, [], ◌∷◌, fault, Fault, Returns, WhenReturns,
}
use robot_remote_control.Base.Int.{ℤ, pos}
use robot_remote_control.Floats.{exact}
use robot_remote_control.Timer.{start, new_timer}
use robot_remote_control.UpdateThread.{
  UpdateThread, Phase, Move, start_move, stop_move, join_move, thread_move, new_update_thread,
  start_update_thread, make_moves,
}
use robot_remote_control.UpdateThread.Stopping.{make_moves_stopped, make_moves_stopping}

-- Started, three steps of the thread with one call of `update`, and told to stop.
abbrev moves : List Move
moves =
    start_move ∷ thread_move 10 ∷ thread_move 20 ∷ thread_move 30 ∷ thread_move 40 ∷ stop_move ∷ []

abbrev told : UpdateThread ℤ
told = record {
  running = true;
  retrieved = true;
  stop_set = true;
  stopping = true;
  phase = Phase.updating;
  thread_timer = record { interval_s = pos 0; running = true; start_time = 30 };
  updates = 1;
}

abbrev ended : UpdateThread ℤ
ended = record told {
  running = false;
  stopping = false;
  phase = Phase.finished;
  thread_timer = record { interval_s = pos 0; running = true; start_time = 50 };
  updates = 2;
}

make_moves_stopping_example :
    Returns
      (make_moves exact (thread_move 50 ∷ thread_move 60 ∷ thread_move 70 ∷ join_move ∷ []) told)
      (λ t'. (t'.stopping ≡ false) × (t'.running ≡ false))
unfolding make_moves new_update_thread start new_timer
make_moves_stopping_example = make_moves_stopping exact moves told 50 60 70 refl refl

make_moves_stopped_example :
    (start_update_thread exact ended ≡ fault Fault.future_error)
    × ((more : List Move) → WhenReturns (make_moves exact more ended) (λ t'. t' ≡ ended))
unfolding make_moves new_update_thread start new_timer
make_moves_stopped_example =
    make_moves_stopped exact
      (start_move
        ∷ thread_move 10
        ∷ thread_move 20
        ∷ thread_move 30
        ∷ thread_move 40
        ∷ stop_move
        ∷ thread_move 50
        ∷ thread_move 60
        ∷ join_move
        ∷ [])
      ended refl refl refl
