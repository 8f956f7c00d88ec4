-- ===== src/UpdateThread/Stopping.antt =====
-- Stopping the thread, under every interleaving of the application and the thread.
use robot_remote_control.Base.{
  ℕ, ◌≡◌, refl, Bool, true, false, List, [], ◌∷◌, ok, fault, Fault, Returns, WhenReturns,
  WhenReturns-bind, arith,
}
use robot_remote_control.Timer.{Timer}
use robot_remote_control.Floats.{Floats}
use robot_remote_control.UpdateThread.{
  Phase, UpdateThread, Move, start_move, stop_move, join_move, thread_move, new_update_thread,
  start_update_thread, make_move, make_moves,
}

module _ (f : Floats) where
  open f use {Float}

  abbrev thread : Bool → Bool → Bool → Bool → Phase → Timer Float → ℕ → UpdateThread Float
  thread running retrieved stop_set stopping phase timer updates = record {
    running = running;
    retrieved = retrieved;
    stop_set = stop_set;
    stopping = stopping;
    phase = phase;
    thread_timer = timer;
    updates = updates;
  }

  -- The states that the two threads get into.
  pub data Stage : UpdateThread Float → Type 0 where
    before : (timer : Timer Float) → Stage (thread false false false false Phase.unmade timer 0)
    at_entry :
        (timer : Timer Float) (n : ℕ) → Stage (thread true true false false Phase.entering timer n)
    at_wait :
        (timer : Timer Float) (n : ℕ) → Stage (thread true true false false Phase.waiting timer n)
    at_update :
        (timer : Timer Float) (n : ℕ) → Stage (thread true true false false Phase.updating timer n)
    stop_entry :
        (timer : Timer Float) (n : ℕ) → Stage (thread true true true true Phase.entering timer n)
    stop_wait :
        (timer : Timer Float) (n : ℕ) → Stage (thread true true true true Phase.waiting timer n)
    stop_update :
        (timer : Timer Float) (n : ℕ) → Stage (thread true true true true Phase.updating timer n)
    to_join :
        (timer : Timer Float) (n : ℕ) → Stage (thread false true true true Phase.finished timer n)
    stopped :
        (timer : Timer Float) (n : ℕ) → Stage (thread false true true false Phase.finished timer n)

  make_move-Stage :
      (move : Move) (t : UpdateThread Float) → Stage t → WhenReturns (make_move f move t) Stage
  unfolding make_move
  make_move-Stage start_move _ (before timer) = at_entry timer 0
  make_move-Stage stop_move _ (before timer) = before timer
  make_move-Stage join_move _ (before timer) = before timer
  make_move-Stage (thread_move now) _ (before timer) = before timer
  make_move-Stage start_move _ (at_entry timer n) = at_entry timer n
  make_move-Stage stop_move _ (at_entry timer n) = stop_entry timer n
  make_move-Stage join_move _ (at_entry timer n) = at_entry timer n
  make_move-Stage (thread_move now) _ (at_entry timer n) = at_wait timer n
  make_move-Stage start_move _ (at_wait timer n) = at_wait timer n
  make_move-Stage stop_move _ (at_wait timer n) = stop_wait timer n
  make_move-Stage join_move _ (at_wait timer n) = at_wait timer n
  make_move-Stage (thread_move now) _ (at_wait timer n) = at_update timer n
  make_move-Stage start_move _ (at_update timer n) = at_update timer n
  make_move-Stage stop_move _ (at_update timer n) = stop_update timer n
  make_move-Stage join_move _ (at_update timer n) = at_update timer n
  make_move-Stage (thread_move now) _ (at_update timer n) = at_wait _ _
  make_move-Stage start_move _ (stop_entry timer n) = stop_entry timer n
  make_move-Stage stop_move _ (stop_entry timer n) = stop_entry timer n
  make_move-Stage join_move _ (stop_entry timer n) = stop_entry timer n
  make_move-Stage (thread_move now) _ (stop_entry timer n) = stop_wait timer n
  make_move-Stage start_move _ (stop_wait timer n) = stop_wait timer n
  make_move-Stage stop_move _ (stop_wait timer n) = stop_wait timer n
  make_move-Stage join_move _ (stop_wait timer n) = stop_wait timer n
  make_move-Stage (thread_move now) _ (stop_wait timer n) = to_join timer n
  make_move-Stage start_move _ (stop_update timer n) = stop_update timer n
  make_move-Stage stop_move _ (stop_update timer n) = stop_update timer n
  make_move-Stage join_move _ (stop_update timer n) = stop_update timer n
  make_move-Stage (thread_move now) _ (stop_update timer n) = stop_wait _ _
  make_move-Stage start_move _ (to_join timer n) = to_join timer n
  make_move-Stage stop_move _ (to_join timer n) = to_join timer n
  make_move-Stage join_move _ (to_join timer n) = stopped timer n
  make_move-Stage (thread_move now) _ (to_join timer n) = to_join timer n
  make_move-Stage start_move _ (stopped timer n) = tt
  make_move-Stage stop_move _ (stopped timer n) = stopped timer n
  make_move-Stage join_move _ (stopped timer n) = stopped timer n
  make_move-Stage (thread_move now) _ (stopped timer n) = stopped timer n

  make_moves-Stage :
      (moves : List Move) (t : UpdateThread Float)
      → Stage t
      → WhenReturns (make_moves f moves t) Stage
  unfolding make_moves
  make_moves-Stage [] t stage = stage
  make_moves-Stage (move ∷ moves) t stage =
      WhenReturns-bind Stage (make_move f move t) _
        λ t' e. make_moves-Stage moves t' (rw e at (make_move-Stage move t stage))

  -- From a thread that was stopped nothing leads on.
  stays_stopped :
      (moves : List Move) (timer : Timer Float) (n : ℕ)
      → WhenReturns
          (make_moves f moves (thread false true true false Phase.finished timer n))
          (λ t. t ≡ thread false true true false Phase.finished timer n)
  unfolding make_moves make_move
  stays_stopped [] timer n = refl
  stays_stopped (start_move ∷ moves) timer n = tt
  stays_stopped (stop_move ∷ moves) timer n = stays_stopped moves timer n
  stays_stopped (join_move ∷ moves) timer n = stays_stopped moves timer n
  stays_stopped (thread_move now ∷ moves) timer n = stays_stopped moves timer n

  after_stop :
      (t : UpdateThread Float)
      → Stage t
      → t.stop_set ≡ true
      → t.stopping ≡ false
      → (start_update_thread f t ≡ fault Fault.future_error)
        × ((more : List Move) → WhenReturns (make_moves f more t) (λ t'. t' ≡ t))
  unfolding start_update_thread
  after_stop _ (stopped timer n) was back = (refl, (λ more. stays_stopped more timer n))
  after_stop _ (before timer) was back = absurd (grind (arith, was))
  after_stop _ (at_entry timer n) was back = absurd (grind (arith, was))
  after_stop _ (at_wait timer n) was back = absurd (grind (arith, was))
  after_stop _ (at_update timer n) was back = absurd (grind (arith, was))
  after_stop _ (stop_entry timer n) was back = absurd (grind (arith, back))
  after_stop _ (stop_wait timer n) was back = absurd (grind (arith, back))
  after_stop _ (stop_update timer n) was back = absurd (grind (arith, back))
  after_stop _ (to_join timer n) was back = absurd (grind (arith, back))

  -- However the two threads interleave: once `stopUpdateThread` has returned, `update` is not called
  -- again and nothing else changes, whatever comes; and a call that would start the thread again throws,
  -- since the promise is used up.
  pub make_moves_stopped :
      (moves : List Move) (t : UpdateThread Float)
      → make_moves f moves (new_update_thread f) ≡ ok t
      → t.stop_set ≡ true
      → t.stopping ≡ false
      → (start_update_thread f t ≡ fault Fault.future_error)
        × ((more : List Move) → WhenReturns (make_moves f more t) (λ t'. t' ≡ t))
  unfolding new_update_thread
  make_moves_stopped moves t e was back =
      after_stop t (rw e at (make_moves-Stage moves (new_update_thread f) (before _))) was back

  ends :
      (t : UpdateThread Float) (a b c : ℕ)
      → Stage t
      → t.stopping ≡ true
      → Returns
          (make_moves f (thread_move a ∷ thread_move b ∷ thread_move c ∷ join_move ∷ []) t)
          (λ t'. (t'.stopping ≡ false) × (t'.running ≡ false))
  unfolding make_moves make_move
  ends _ a b c (stop_entry timer n) waits = (refl, refl)
  ends _ a b c (stop_wait timer n) waits = (refl, refl)
  ends _ a b c (stop_update timer n) waits = (refl, refl)
  ends _ a b c (to_join timer n) waits = (refl, refl)
  ends _ a b c (before timer) waits = absurd (grind (arith, waits))
  ends _ a b c (at_entry timer n) waits = absurd (grind (arith, waits))
  ends _ a b c (at_wait timer n) waits = absurd (grind (arith, waits))
  ends _ a b c (at_update timer n) waits = absurd (grind (arith, waits))
  ends _ a b c (stopped timer n) waits = absurd (grind (arith, waits))

  -- A call of `stopUpdateThread` returns, wherever the thread was when it was made: three steps of the
  -- thread, of which at most one is the end of an `update`, and then the `join` are enough.
  pub make_moves_stopping :
      (moves : List Move) (t : UpdateThread Float) (a b c : ℕ)
      → make_moves f moves (new_update_thread f) ≡ ok t
      → t.stopping ≡ true
      → Returns
          (make_moves f (thread_move a ∷ thread_move b ∷ thread_move c ∷ join_move ∷ []) t)
          (λ t'. (t'.stopping ≡ false) × (t'.running ≡ false))
  unfolding new_update_thread
  make_moves_stopping moves t a b c e waits =
      ends t a b c (rw e at (make_moves-Stage moves (new_update_thread f) (before _))) waits
