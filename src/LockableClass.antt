-- ===== src/LockableClass.antt =====
-- src/UpdateThread/LockableClass.hpp: an object and the mutex that every access to it holds, and
-- threads that use it. A thread is a sequence of scopes, each with one `LockedAccess`, which the
-- constructor locks and the destructor unlocks; in it the thread reads and changes the object by
-- `get`, `set` and `->`, and its own variables.
pub mod Serial
pub mod Progress
use robot_remote_control.Base.{ℕ, ◌==◌, if◌then◌else◌, Option, none, some, List, [], ◌∷◌, ◌++◌}

-- `mutex` is the thread that holds the mutex.
pub record LockableClass (C : Type 0) : Type 0 where
  pub var : C
  pub mutex : Option ℕ

-- One use of the `LockedAccess`, on the object and the variables of the thread.
abbrev pub Access : Type 0 → Type 0 → Type 0
Access C L = C × L → C × L

module _ {C : Type 0} where
  unfoldable pub new_lockable : C → LockableClass C
  new_lockable init = record { var = init; mutex = none }

  -- The constructor of `LockedAccess` in the thread `i`; `none` while it has to wait.
  unfoldable pub locked_access : ℕ → LockableClass C → Option (LockableClass C)
  locked_access i o = elim o.mutex [ none ↦ some (record o { mutex = some i }) | some j ↦ none ]

  -- The destructor of `LockedAccess`, by which its `unique_lock` unlocks.
  unfoldable pub unlock : LockableClass C → LockableClass C
  unlock o = record o { mutex = none }

module _ {C L : Type 0} where
  -- `operator->`, and `get`: the object itself is used.
  unfoldable pub arrow : (C → C) → Access C L
  arrow member (object, own) = (member object, own)

  -- What `get` gives is put into a variable of the thread.
  unfoldable pub get : (C → L → L) → Access C L
  get assign (object, own) = (object, assign object own)

  -- `set` of a value that the thread has.
  unfoldable pub set : (L → C) → Access C L
  set value (object, own) = (value own, own)

abbrev pub update : {A : Type 0} → (ℕ → A) → ℕ → A → ℕ → A
update f i a j = if i == j then a else f j

module _ (C L : Type 0) where
  -- Where a thread is: between two scopes, or in one, of which a part is done.
  pub data Thread : Type 0 where
    outside : List (List (Access C L)) → Thread
    inside : List (Access C L) → List (Access C L) → List (List (Access C L)) → Thread

  -- The object, the threads with their variables, and the scopes that were left, in this order.
  pub record Threads : Type 0 where
    pub object : LockableClass C
    pub threads : ℕ → Thread
    pub own : ℕ → L
    pub closed : List (ℕ × List (Access C L))

  -- The next step of the thread `i`. A thread that has to wait, or is done, does nothing.
  unfoldable pub move : ℕ → Thread → Threads → Threads
  unfolding locked_access unlock
  move i (outside []) s = s
  move i (outside (scope ∷ rest)) s = elim (locked_access i s.object) [
    | none ↦ s
    | some o ↦ record s { object = o; threads = update s.threads i (inside [] scope rest) }
  ]
  move i (inside before [] rest) s = record s {
    object = unlock s.object;
    threads = update s.threads i (outside rest);
    closed = s.closed ++ (i, before) ∷ [];
  }
  move i (inside before (access ∷ after) rest) s =
      let (changed, own') = access (s.object.var, s.own i) in
      record s {
        object = record (s.object) { var = changed };
        threads = update s.threads i (inside (before ++ access ∷ []) after rest);
        own = update s.own i own';
      }

  -- The steps of the threads in the order in which they are scheduled.
  unfoldable pub run : List ℕ → Threads → Threads
  unfolding move
  run [] s = s
  run (i ∷ schedule) s = run schedule (move i (s.threads i) s)

  unfoldable pub start_threads : (ℕ → List (List (Access C L))) → (ℕ → L) → C → Threads
  unfolding new_lockable
  start_threads program own init = record {
    object = new_lockable init;
    threads = λ i. outside (program i);
    own = own;
    closed = [];
  }
