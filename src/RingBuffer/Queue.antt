-- ===== src/RingBuffer/Queue.antt =====
-- What a ring buffer promises: a queue of at most `cap` elements, oldest first. A full queue refuses
-- an element, or drops its oldest one for it. And a client's calls in order, with what each returns.
use robot_remote_control.Base.{
  ℕ, ◌==◌, if◌then◌else◌, Bool, true, false, Option, none, some, List, [], ◌∷◌, ◌++◌, length, drop,
}

module _ {ℓ} {A : Type ℓ} where
  unfoldable pub push : ℕ → List A → A → Bool → Bool × List A
  push cap q x overwrite =
      if length q == cap
      then (if overwrite then (true, drop 1 q ++ x ∷ []) else (false, q))
      else (true, q ++ x ∷ [])

  unfoldable pub first : List A → Option A
  first [] = none
  first (x ∷ q) = some x

  unfoldable pub pop : List A → Option A × List A
  unfolding first
  pop q = (first q, drop 1 q)

-- A client's calls of the ring, and what it sees of each.
pub data Call (A : Type 0) : Type 0 where
  push_call : A → Bool → Call A
  pop_call : Call A
  peek_call : Call A

pub data Reply (A : Type 0) : Type 0 where
  answered : Bool → Reply A
  given : Option A → Reply A

module _ {A : Type 0} where
  unfoldable pub step : ℕ → List A → Call A → Reply A × List A
  unfolding push pop first
  step cap q (push_call x overwrite) =
      let (stored, q') = push cap q x overwrite in (answered stored, q')
  step cap q pop_call = let (x, q') = pop q in (given x, q')
  step cap q peek_call = (given (first q), q)

  unfoldable pub run : ℕ → List A → List (Call A) → List (Reply A) × List A
  unfolding step
  run cap q [] = ([], q)
  run cap q (c ∷ cs) =
      let (reply, q') = step cap q c in let (replies, q'') = run cap q' cs in (reply ∷ replies, q'')
