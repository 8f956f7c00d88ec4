-- ===== src/Tests/Lockables.antt =====
-- Two threads that count up an object in scopes of their own.
use robot_remote_control.Base.{ℕ, suc, ◌≡◌, refl, ltb, if◌then◌else◌, List, [], ◌∷◌, ◌++◌}
use robot_remote_control.LockableClass.{Access, get, set, run, start_threads}
use robot_remote_control.LockableClass.Serial.{IsSerial, scopes_of, run-start_threads}
use robot_remote_control.LockableClass.Progress.{run-finishes}

abbrev counting : List (Access ℕ ℕ)
counting = get (λ object own. object) ∷ set (λ own. suc own) ∷ []

abbrev program : ℕ → List (List (Access ℕ ℕ))
program i = if ltb i 2 then counting ∷ counting ∷ [] else []

abbrev schedule : List ℕ
schedule = 0 ∷ 1 ∷ 0 ∷ 1 ∷ 0 ∷ 0 ∷ 1 ∷ 1 ∷ 0 ∷ []

run-start_threads_example :
    IsSerial ℕ ℕ program (0, λ i. 0) (run ℕ ℕ schedule (start_threads ℕ ℕ program (λ i. 0) 0))
run-start_threads_example = run-start_threads ℕ ℕ program (λ i. 0) 0 schedule

-- The first increment is complete, and the second thread has read the object.
counted : (run ℕ ℕ schedule (start_threads ℕ ℕ program (λ i. 0) 0)).object.var ≡ 1
unfolding run start_threads get set
counted = refl

run-finishes_example :
    (more : List ℕ) × (scopes_of ℕ ℕ 1
        (run ℕ ℕ (schedule ++ more) (start_threads ℕ ℕ program (λ i. 0) 0)).closed
      ≡ counting ∷ counting ∷ [])
run-finishes_example = run-finishes ℕ ℕ program (λ i. 0) 0 schedule 1
