-- ===== src/LockableClass/Progress.antt =====
-- The mutex of a `LockableClass` blocks no thread for ever: a thread gives it back at the end of its
-- scope, and no thread takes it while it holds it.
use robot_remote_control.Base.{
  ℕ, ◌≡◌, refl, ap, ==_refl, Option-cases, none, some, inl, inr, List, [], ◌∷◌, ◌++◌,
}
use mathlib.Core.List.{append-nil}
use robot_remote_control.LockableClass.{
  Access, Thread, outside, inside, Threads, locked_access, unlock, move, run, start_threads,
}
use robot_remote_control.LockableClass.Serial.{
  IsSerial, Owns, Memory, scopes_of, run-IsSerial, run-start_threads,
}

-- One step for each access, and one to leave the scope.
abbrev to_end : {A : Type 0} → ℕ → List A → List ℕ
to_end i [] = i ∷ []
to_end i (access ∷ after) = i ∷ to_end i after

module _ (C L : Type 0) where
  run-append : (xs ys : List ℕ) (s : Threads C L) → run C L (xs ++ ys) s ≡ run C L ys (run C L xs s)
  unfolding run
  run-append [] ys s = refl
  run-append (i ∷ xs) ys s = run-append xs ys (move C L i (s.threads i) s)

  run_next :
      (i : ℕ) (t : Thread C L) (schedule : List ℕ) (s : Threads C L)
      → s.threads i ≡ t
      → run C L (i ∷ schedule) s ≡ run C L schedule (move C L i t s)
  unfolding run
  run_next i t schedule s e = ap (λ t. run C L schedule (move C L i t s)) e

  run-to_end :
      (i : ℕ) (before after : List (Access C L)) (rest : List (List (Access C L))) (s : Threads C L)
      → s.threads i ≡ inside before after rest
      → ((run C L (to_end i after) s).threads i ≡ outside rest)
        × ((run C L (to_end i after) s).object.mutex ≡ none)
  unfolding run move unlock
  run-to_end i before [] rest s at =
      rw (run_next i (inside before [] rest) [] s at) (rw (==_refl i) (refl, refl))
  run-to_end i before (access ∷ after) rest s at =
      rw (run_next i (inside before (access ∷ after) rest) (to_end i after) s at) (
        run-to_end i (before ++ access ∷ []) after rest
          (move C L i (inside before (access ∷ after) rest) s) (rw (==_refl i) refl))

  entered :
      (i : ℕ) (scope : List (Access C L)) (rest : List (List (Access C L))) (s : Threads C L)
      → s.object.mutex ≡ none
      → (move C L i (outside (scope ∷ rest)) s).threads i ≡ inside [] scope rest
  unfolding move locked_access
  entered i scope rest s e = rw (e, locked_access) (rw (==_refl i) refl)

  -- A thread that finds the mutex free can go through all its scopes.
  alone :
      (i : ℕ) (rest : List (List (Access C L))) (s : Threads C L)
      → s.threads i ≡ outside rest
      → s.object.mutex ≡ none
      → (more : List ℕ) × ((run C L more s).threads i ≡ outside [])
  unfolding run
  alone i [] s at free = ([], at)
  alone i (scope ∷ rest) s at free =
      let s1 = move C L i (outside (scope ∷ rest)) s in
      let (out, free') = run-to_end i [] scope rest s1 (entered i scope rest s free) in
      let (more, done) = alone i rest (run C L (to_end i scope) s1) out free' in
      (
        i ∷ to_end i scope ++ more,
        rw
            (
              run_next i (outside (scope ∷ rest)) (to_end i scope ++ more) s at,
              run-append (to_end i scope) more s1,
            )
            done,
      )

  -- If the mutex is free no thread is in a scope; otherwise its owner is in one.
  free_outside :
      (i : ℕ) (t : Thread C L)
      → Owns C L i none t
      → (rest : List (List (Access C L))) × (t ≡ outside rest)
  free_outside i (outside rest) h = (rest, refl)
  free_outside i (inside before after rest) h = absurd (cc)

  owner_inside :
      (i : ℕ) (t : Thread C L)
      → Owns C L i (some i) t
      → (before : List (Access C L)) × (after : List (Access C L)) × (rest : List
          (List (Access C L)))
        × (t ≡ inside before after rest)
  owner_inside i (outside rest) h = absurd (h refl)
  owner_inside i (inside before after rest) h = (before, after, rest, refl)

  -- Where the threads are in the middle of a run, the mutex can get free.
  gets_free :
      (program : ℕ → List (List (Access C L))) (init : Memory C L) (s : Threads C L)
      → IsSerial C L program init s
      → (more : List ℕ) × ((run C L more s).object.mutex ≡ none)
  unfolding run
  gets_free program init s h = elim (Option-cases s.object.mutex) [
    | inl free ↦ ([], free)
    | inr (j, held) ↦
        let (before, after, rest, at) = owner_inside j (s.threads j) (rw held at (h.exclusive j)) in
        (to_end j after, (run-to_end j before after rest s at).1)
  ]

  -- However the threads were scheduled so far, no thread is blocked for good: there is a schedule that
  -- goes on from there and after which the thread has left all the scopes of its program, in their
  -- order.
  pub run-finishes :
      (program : ℕ → List (List (Access C L))) (own : ℕ → L) (init : C) (schedule : List ℕ) (i : ℕ)
      → (more : List ℕ) × (scopes_of C L i
            (run C L (schedule ++ more) (start_threads C L program own init)).closed
          ≡ program i)
  run-finishes program own init schedule i =
      let begin = start_threads C L program own init in
      let s = run C L schedule begin in
      let h = run-start_threads C L program own init schedule in
      let (first, free) = gets_free program (init, own) s h in
      let s1 = run C L first s in
      let h1 = run-IsSerial C L program (init, own) first s h in
      let (rest, at) = free_outside i (s1.threads i) (rw free at (h1.exclusive i)) in
      let (second, done) = alone i rest s1 at free in
      let h2 = run-IsSerial C L program (init, own) second s1 h1 in
      let all = h2.ordered i in
      (
        first ++ second,
        rw (run-append schedule (first ++ second) begin, run-append first second s)
            (rw (done, append-nil) at all),
      )
