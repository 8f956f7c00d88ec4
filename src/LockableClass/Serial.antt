-- ===== src/LockableClass/Serial.antt =====
-- What threads do to a `LockableClass` is what they would do one scope after the other.
use robot_remote_control.Base.{
  some_inj, ℕ, ◌≡◌, ◌≢◌, refl, ap, sym, ◌∙◌, Bool-cases, Option-cases, ◌==◌, ==_iff, ==_refl,
  if◌then◌else◌, Option, none, some, inl, inr, List, [], ◌∷◌, ◌++◌,
}
use mathlib.Core.Path.{subst}
use mathlib.Core.List.{append-nil, append_assoc}
use robot_remote_control.LockableClass.{
  Access, Thread, outside, inside, Threads, update, locked_access, unlock, move, run, start_threads,
  new_lockable,
}

module _ (C L : Type 0) where
  -- The object and the variables of the threads.
  abbrev pub Memory : Type 0
  Memory = C × (ℕ → L)

  abbrev pub do_access : ℕ → Access C L → Memory → Memory
  do_access i access (object, own) =
      let (changed, own') = access (object, own i) in (changed, update own i own')

  abbrev pub do_scope : ℕ → List (Access C L) → Memory → Memory
  do_scope i [] m = m
  do_scope i (access ∷ rest) m = do_scope i rest (do_access i access m)

  -- One whole scope after the other.
  abbrev pub serially : List (ℕ × List (Access C L)) → Memory → Memory
  serially [] m = m
  serially ((i, scope) ∷ rest) m = serially rest (do_scope i scope m)

  abbrev pub scopes_of : ℕ → List (ℕ × List (Access C L)) → List (List (Access C L))
  scopes_of i [] = []
  scopes_of i ((j, scope) ∷ rest) = if j == i then scope ∷ scopes_of i rest else scopes_of i rest

  -- The scopes that a thread has not left.
  abbrev pub pending : Thread C L → List (List (Access C L))
  pending (outside rest) = rest
  pending (inside before after rest) = (before ++ after) ∷ rest

  abbrev pub begun : Thread C L → List (Access C L)
  begun (outside rest) = []
  begun (inside before after rest) = before

  abbrev pub Owns : ℕ → Option ℕ → Thread C L → Type 0
  Owns i mutex (outside rest) = mutex ≢ some i
  Owns i mutex (inside before after rest) = mutex ≡ some i

  -- The memory between two scopes, and in the scope of a thread.
  abbrev pub Serial : Memory → Memory → (ℕ → Thread C L) → Option ℕ → Type 0
  Serial m settled threads none = m ≡ settled
  Serial m settled threads (some i) = m ≡ do_scope i (begun (threads i)) settled

  -- A thread is in a scope just if it holds the mutex. The memory is what the scopes that were left
  -- make of it one after the other, and then the part that is done of the scope that a thread is in.
  -- Each thread has left its scopes in their order.
  pub record IsSerial (program : ℕ → List (List (Access C L))) (init : Memory) (s : Threads C L)
      : Type 0 where
    pub exclusive : (i : ℕ) → Owns i s.object.mutex (s.threads i)
    pub serial : Serial (s.object.var, s.own) (serially s.closed init) s.threads s.object.mutex
    pub ordered : (i : ℕ) → scopes_of i s.closed ++ pending (s.threads i) ≡ program i

  do_scope-append :
      (i : ℕ) (xs ys : List (Access C L)) (m : Memory)
      → do_scope i (xs ++ ys) m ≡ do_scope i ys (do_scope i xs m)
  do_scope-append i [] ys m = refl
  do_scope-append i (x ∷ xs) ys m = do_scope-append i xs ys (do_access i x m)

  serially-append :
      (xs ys : List (ℕ × List (Access C L))) (m : Memory)
      → serially (xs ++ ys) m ≡ serially ys (serially xs m)
  serially-append [] ys m = refl
  serially-append ((i, x) ∷ xs) ys m = serially-append xs ys (do_scope i x m)

  scopes_of-append :
      (i : ℕ) (xs ys : List (ℕ × List (Access C L)))
      → scopes_of i (xs ++ ys) ≡ scopes_of i xs ++ scopes_of i ys
  scopes_of-append i [] ys = refl
  scopes_of-append i ((j, x) ∷ xs) ys = elim (Bool-cases (j == i)) [
    | inl e ↦ rw e (ap (λ l. x ∷ l) (scopes_of-append i xs ys))
    | inr e ↦ rw e (scopes_of-append i xs ys)
  ]

  other_enters : (i j : ℕ) (t : Thread C L) → i ≢ j → Owns j none t → Owns j (some i) t
  other_enters i j (outside rest) differ h = λ e. differ (some_inj e)
  other_enters i j (inside before after rest) differ h = cc

  other_leaves : (i j : ℕ) (t : Thread C L) → i ≢ j → Owns j (some i) t → Owns j none t
  other_leaves i j (outside rest) differ h = λ e. cc
  other_leaves i j (inside before after rest) differ h = absurd (differ (some_inj h))

  -- A thread waits while another holds the mutex.
  waits :
      (i j : ℕ) (scope : List (Access C L)) (rest : List (List (Access C L))) (s : Threads C L)
      → s.object.mutex ≡ some j
      → move C L i (outside (scope ∷ rest)) s ≡ s
  unfolding move locked_access
  waits i j scope rest s e = rw (e, locked_access)

  -- Whatever a thread does next.
  move-IsSerial :
      (program : ℕ → List (List (Access C L))) (init : Memory) (i : ℕ) (t : Thread C L)
      (s : Threads C L)
      → s.threads i ≡ t
      → IsSerial program init s
      → IsSerial program init (move C L i t s)
  unfolding move locked_access unlock
  move-IsSerial program init i (outside []) s at h = h
  move-IsSerial program init i (outside (scope ∷ rest)) s at h =
      elim (Option-cases s.object.mutex) [
        | inr (j, e) ↦ subst (IsSerial program init) (sym (waits i j scope rest s e)) h
        | inl e ↦
            rw (e, locked_access)
              (record {
                exclusive = λ j. elim (Bool-cases (i == j)) [
                  | inl same ↦ rw same (ap some ((==_iff i j).0 same))
                  | inr other ↦ rw other (
                      other_enters i j (s.threads j) (λ eq. cc (other, (==_iff i j).1 eq))
                        (rw e at (h.exclusive j)))
                ];
                serial = rw (==_refl i) (rw e at h.serial);
                ordered = λ j. elim (Bool-cases (i == j)) [
                  | inl same ↦
                      let here = (==_iff i j).0 same in
                      rw same (rw (← here) (rw at at (h.ordered i)))
                  | inr other ↦ rw other (h.ordered j)
                ];
              })
      ]
  move-IsSerial program init i (inside before [] rest) s at h =
      let held : s.object.mutex ≡ some i = rw at at (h.exclusive i) in
      record {
        exclusive = λ j. elim (Bool-cases (i == j)) [
          | inl same ↦ rw same (λ e. cc)
          | inr other ↦ rw other (
              other_leaves i j (s.threads j) (λ eq. cc (other, (==_iff i j).1 eq))
                (rw held at (h.exclusive j)))
        ];
        serial =
            (rw (held, at) at h.serial) ∙ sym (serially-append s.closed ((i, before) ∷ []) init);
        ordered = λ j. elim (Bool-cases (i == j)) [
          | inl same ↦
              let here = (==_iff i j).0 same in
              rw same (
                rw (← here) (
                  rw (scopes_of-append i s.closed ((i, before) ∷ []), ==_refl i, append_assoc)
                    (rw (at, append-nil) at (h.ordered i))))
          | inr other ↦
              rw other (
                rw (scopes_of-append j s.closed ((i, before) ∷ []), other, append-nil)
                  (h.ordered j))
        ];
      }
  move-IsSerial program init i (inside before (access ∷ after) rest) s at h =
      let held : s.object.mutex ≡ some i = rw at at (h.exclusive i) in
      record {
        exclusive = λ j. elim (Bool-cases (i == j)) [
          | inl same ↦ rw same (held ∙ ap some ((==_iff i j).0 same))
          | inr other ↦ rw other (h.exclusive j)
        ];
        serial =
            rw (held, ==_refl i)
              (ap (do_access i access) (rw (held, at) at h.serial)
                ∙ sym (do_scope-append i before (access ∷ []) (serially s.closed init)));
        ordered = λ j. elim (Bool-cases (i == j)) [
          | inl same ↦
              let here = (==_iff i j).0 same in
              rw same (rw (← here) (rw append_assoc (rw at at (h.ordered i))))
          | inr other ↦ rw other (h.ordered j)
        ];
      }

  pub run-IsSerial :
      (program : ℕ → List (List (Access C L))) (init : Memory) (schedule : List ℕ) (s : Threads C L)
      → IsSerial program init s
      → IsSerial program init (run C L schedule s)
  unfolding run
  run-IsSerial program init [] s h = h
  run-IsSerial program init (i ∷ schedule) s h =
      run-IsSerial program init schedule (move C L i (s.threads i) s)
        (move-IsSerial program init i (s.threads i) s refl h)

  -- However threads that use the object in scopes with a `LockedAccess` are scheduled: a thread is in
  -- a scope just if it holds the mutex; the object and the variables of the threads are what the scopes
  -- that were left make of them one after the other, in the order in which they were left, and then
  -- what the scope in progress has done; and each thread has left its scopes in the order of its
  -- program.
  pub run-start_threads :
      (program : ℕ → List (List (Access C L))) (own : ℕ → L) (init : C) (schedule : List ℕ)
      → IsSerial program (init, own) (run C L schedule (start_threads C L program own init))
  unfolding start_threads new_lockable
  run-start_threads program own init schedule =
      run-IsSerial program (init, own) schedule (start_threads C L program own init)
        (record { exclusive = λ i e. cc; serial = refl; ordered = λ i. refl })
