-- ===== src/UpdateThread.antt =====
-- src/UpdateThread/UpdateThread.hpp and UpdateThread.cpp: the thread that calls `update` again and
-- again until it is told to stop, and the application's thread that starts and stops it.
pub mod Stopping
use robot_remote_control.Base.{
  ℕ, ◌+◌, Bool, true, false, if◌then◌else◌, List, [], ◌∷◌, Result, ok, fault, Fault, ◌>>=◌,
}
use robot_remote_control.Timer.{Timer, new_timer, start, get_elapsed_time}
use robot_remote_control.Floats.{Floats}

-- Where the thread is: it was not made, is at the start of `updateThreadMain`, in `wait_for`, in
-- `update`, or at the end.
pub data Phase : Type 0 where
  unmade entering waiting updating finished : Phase

-- `retrieved` and `stop_set` are the state of `stopPromise`; `stopping` says that the application is
-- in `stopUpdateThread` and waits in `join`. The calls of `update` that ended are counted.
pub record UpdateThread (F : Type 0) : Type 0 where
  pub running : Bool
  pub retrieved : Bool
  pub stop_set : Bool
  pub stopping : Bool
  pub phase : Phase
  pub thread_timer : Timer F
  pub updates : ℕ

-- What happens next: a call of the application, the end of its `join`, or a step of the thread, with
-- the time at which it is done.
pub data Move : Type 0 where
  start_move stop_move join_move : Move
  thread_move : ℕ → Move

module _ (f : Floats) where
  open f use {Float, zero_float}

  unfoldable pub new_update_thread : UpdateThread Float
  new_update_thread = record {
    running = false;
    retrieved = false;
    stop_set = false;
    stopping = false;
    phase = Phase.unmade;
    thread_timer = new_timer f;
    updates = 0;
  }

  -- The thread's next step. `wait_for` ends by a timeout only if the promise was not set.
  update_thread_step : ℕ → Phase → UpdateThread Float → UpdateThread Float
  update_thread_step now Phase.unmade t = t
  update_thread_step now Phase.entering t = record t { running = true; phase = Phase.waiting }
  update_thread_step now Phase.waiting t =
      if t.stop_set
      then record t { running = false; phase = Phase.finished }
      else record t { phase = Phase.updating }
  update_thread_step now Phase.updating t = record t {
    phase = Phase.waiting;
    thread_timer = start f zero_float now t.thread_timer;
    updates = t.updates + 1;
  }
  update_thread_step now Phase.finished t = t

  unfoldable pub update_thread_main : ℕ → UpdateThread Float → UpdateThread Float
  unfolding update_thread_step
  update_thread_main now t = update_thread_step now t.phase t

  -- The second call of `get_future` throws.
  unfoldable pub start_update_thread : UpdateThread Float → Result (UpdateThread Float)
  start_update_thread t =
      if t.running
      then ok t
      else if t.retrieved
      then fault Fault.future_error
      else ok (record t { retrieved = true; phase = Phase.entering; running = true })

  -- `stopUpdateThread` up to `join`. A promise that has a value throws.
  unfoldable pub stop_update_thread : UpdateThread Float → Result (UpdateThread Float)
  stop_update_thread t =
      if t.running
      then (if t.stop_set
          then fault Fault.future_error
          else ok (record t { stop_set = true; stopping = true }))
      else ok t

  -- The rest of it, once the thread has ended.
  join_thread : Phase → UpdateThread Float → UpdateThread Float
  join_thread Phase.finished t = record t { stopping = false; running = false }
  join_thread other t = t

  -- One move. The application makes no other call while it is in `stopUpdateThread`.
  unfoldable pub make_move : Move → UpdateThread Float → Result (UpdateThread Float)
  unfolding update_thread_main start_update_thread stop_update_thread join_thread
  make_move start_move t = if t.stopping then ok t else start_update_thread t
  make_move stop_move t = if t.stopping then ok t else stop_update_thread t
  make_move join_move t = if t.stopping then ok (join_thread t.phase t) else ok t
  make_move (thread_move now) t = ok (update_thread_main now t)

  unfoldable pub make_moves : List Move → UpdateThread Float → Result (UpdateThread Float)
  unfolding make_move
  make_moves [] t = ok t
  make_moves (move ∷ moves) t = make_move move t >>= make_moves moves

  unfoldable pub get_elapsed_time_in_s : ℕ → UpdateThread Float → Float
  get_elapsed_time_in_s now t = get_elapsed_time f now t.thread_timer
