-- ===== src/RobotController/Stream.antt =====
-- The telemetry that waits when `update` is called, taken in as a whole.
use robot_remote_control.Base.{
  length-append, ==_iff, Bool-cases, inl, inr, ◌≢◌, ℕ, zero, suc, ◌<◌, ◌≤◌, ◌≡◌, refl, sym, ◌∙◌, ap,
  ◌==◌, ==_ne, false, Option, none, some, List, [], ◌∷◌, ◌++◌, map, Result, ok, length, take,
  get_elem?, All, Returns_value, arith,
}
use robot_remote_control.Bytes.{Bytes, encode_uint16}
use robot_remote_control.Types.{Kind}
use robot_remote_control.Transport.{noblock}
use robot_remote_control.RingBuffer.Queue
use robot_remote_control.Env.{Env}
use robot_remote_control.RobotController.{Controller}
use robot_remote_control.RobotController.Receiving.{evaluate_telemetry}
use robot_remote_control.RobotController.Update.{receive_all, receive_telemetry}
use robot_remote_control.RobotController.Delivered.{Pending, evaluate_telemetry-Pending}

not_full : (n cap : ℕ) → (n == cap) ≡ false → n ≢ cap
not_full n cap e same = grind (arith, e, same)

module _ {A : Type 0} where
  -- A queue of the capacity after all elements were pushed, none of which may displace another.
  unfoldable pub push_all : ℕ → List A → List A → List A
  push_all cap q [] = q
  push_all cap q (x ∷ xs) = push_all cap (Queue.push cap q x false).1 xs

  take-full : (cap : ℕ) (q xs : List A) → length q ≡ cap → take cap (q ++ xs) ≡ q
  take-full zero [] xs full = refl
  take-full zero (y ∷ q) xs full = absurd (omega arith)
  take-full (suc cap) [] xs full = absurd (omega arith)
  take-full (suc cap) (y ∷ q) xs full = ap (λ ys. y ∷ ys) (take-full cap q xs (omega arith))

  take_fits : (cap : ℕ) (q : List A) → length q ≤ cap → take cap (q ++ []) ≡ q
  take_fits zero [] fits = refl
  take_fits zero (y ∷ q) fits = absurd (omega arith)
  take_fits (suc cap) [] fits = refl
  take_fits (suc cap) (y ∷ q) fits = ap (λ ys. y ∷ ys) (take_fits cap q (omega arith))

  append_one : (q : List A) (x : A) (xs : List A) → (q ++ x ∷ []) ++ xs ≡ q ++ x ∷ xs
  append_one [] x xs = refl
  append_one (y ∷ q) x xs = ap (λ ys. y ∷ ys) (append_one q x xs)

  head_same : (x y : A) (xs ys : List A) → Path (List A) (x ∷ xs) (y ∷ ys) → x ≡ y
  head_same x y xs ys e = ap (λ zs. elim zs [ [] ↦ x | z ∷ rest ↦ z ]) e

  tail_same : (x y : A) (xs ys : List A) → Path (List A) (x ∷ xs) (y ∷ ys) → xs ≡ ys
  tail_same x y xs ys e = ap (λ zs. elim zs [ [] ↦ xs | z ∷ rest ↦ rest ]) e

  -- It keeps what fits, and of what does not it keeps the oldest.
  pub push_all-take :
      (cap : ℕ) (q xs : List A) → length q ≤ cap → push_all cap q xs ≡ take cap (q ++ xs)
  unfolding push_all Queue.push
  push_all-take cap q [] fits = sym (take_fits cap q fits)
  push_all-take cap q (x ∷ xs) fits = elim (Bool-cases (length q == cap)) [
    | inl e ↦
        let full : length q ≡ cap = (==_iff (length q) cap).0 e in
        rw e (
          push_all-take cap q xs fits
          ∙ take-full cap q xs full
          ∙ sym (take-full cap q (x ∷ xs) full))
    | inr e ↦ rw e (
        push_all-take cap (q ++ x ∷ []) xs
          (let differs = not_full (length q) cap e in omega (arith, length-append q (x ∷ [])))
        ∙ ap (take cap) (append_one q x xs))
  ]

module _ (env : Env) where
  open env.protobuf use {Message, kind_of, serialize}
  open env.transport use {State, receive}

  -- These messages wait on a connection, and then none.
  pub data Yields : State → List Bytes → State → Type 0 where
    nothing : (t : State) → (receive noblock t).0 ≡ 0 → Yields t [] (receive noblock t).2
    one_more :
        (t last : State) (ms : List Bytes)
        → (receive noblock t).0 ≢ 0
        → Yields (receive noblock t).2 ms last
        → Yields t ((receive noblock t).1 ∷ ms) last

  receive_more :
      (fuel : ℕ) (t : State) (c : Controller env) (out : ℕ × Controller env)
      → (receive noblock t).0 ≢ 0
      → evaluate_telemetry env
          (receive noblock t).1
          (record c { telemetry_transport = some (receive noblock t).2 })
        ≡ ok out
      → receive_all env (suc fuel) t c ≡ receive_all env fuel (receive noblock t).2 out.1
  unfolding receive_all
  receive_more fuel t c out more e = rw (receive_all, ==_ne (receive noblock t).0 0 more, e)

  abbrev Taken : ℕ → ℕ → Message → List Message → Controller env → ℕ × Controller env → Type 0
  Taken type cap m q c out =
      (out.0 ≡ type)
      × (out.1.telemetry_adders ≡ c.telemetry_adders)
      × Pending env type (kind_of m) cap (Queue.push cap q m false).1 out.1

  receive_all-Pending :
      (fuel type cap : ℕ) (k : Kind) (t last : State) (ms : List Message) (bs : List Bytes)
      (q : List Message) (c : Controller env)
      → bs ≡ map (λ m. encode_uint16 type ++ serialize m) ms
      → Yields t bs last
      → length ms < fuel
      → type < 65536
      → All (λ m. kind_of m ≡ k) ms
      → get_elem? c.telemetry_adders type ≡ some (some k)
      → Pending env type k cap q c
      → (out : Controller env) × (receive_all env fuel t c ≡ some (ok out))
        × (out.telemetry_transport ≡ some last)
        × Pending env type k cap (push_all cap q ms) out
  unfolding receive_all push_all
  receive_all-Pending zero type cap k t last ms bs q c same waits enough small of_class adder
        waiting =
      elim enough [ ]
  receive_all-Pending (suc fuel) type cap k t last [] bs q c same (nothing _ none_there) enough
        small of_class adder waiting =
      (
        record c { telemetry_transport = some (receive noblock t).2 },
        rw (none_there, receive_all) refl,
        refl,
        waiting,
      )
  receive_all-Pending (suc fuel) type cap k t last [] bs q c same (one_more _ _ bs' more rest)
        enough small of_class adder waiting =
      absurd (grind (arith, same))
  receive_all-Pending (suc fuel) type cap k t last (m ∷ ms) bs q c same (nothing _ none_there)
        enough small of_class adder waiting =
      absurd (grind (arith, same))
  receive_all-Pending (suc fuel) type cap k t last (m ∷ ms) bs q c same (one_more _ _ bs' more rest)
        enough small of_class adder waiting =
      let (count, buf, t') = receive noblock t in
      let c' = record c { telemetry_transport = some t' } in
      let message = encode_uint16 type ++ serialize m in
      let came : buf ≡ message =
        head_same buf message bs' (map (λ m. encode_uint16 type ++ serialize m) ms) same in
      let (out, e, done) =
        Returns_value (Taken type cap m q c') (evaluate_telemetry env message c') (
          evaluate_telemetry-Pending env type cap m q c' small (rw of_class.0 adder)
            (rw of_class.0 waiting)) in
      let (final, ran, last_one, pending) =
        receive_all-Pending fuel type cap k t' last ms bs' (Queue.push cap q m false).1 out.1
          (tail_same buf message bs' (map (λ m. encode_uint16 type ++ serialize m) ms) same) rest
          (omega arith) small of_class.1 (ap (λ adders. get_elem? adders type) done.1 ∙ adder)
          (rw of_class.0 at done.2) in
      (final, receive_more fuel t c out more (rw came e) ∙ ran, last_one, pending)

  receive_connected :
      (fuel : ℕ) (t : State) (c : Controller env)
      → c.telemetry_transport ≡ some t
      → receive_telemetry env fuel c ≡ receive_all env fuel t c
  unfolding receive_telemetry
  receive_connected fuel t c connected =
      ap
        (λ (o : Option State). elim o as (λ x. Option (Result (Controller env))) [
          | none ↦ some (ok c)
          | some u ↦ receive_all env fuel u c
        ])
        connected

  -- If messages of one registered type wait on the telemetry channel, the loop of `update` takes all of
  -- them in, in their order and in one round each, and then ends: the buffer holds what it held and
  -- behind it what came, as far as it fits.
  pub receive_telemetry-Pending :
      (fuel type cap : ℕ) (k : Kind) (t last : State) (ms q : List Message) (c : Controller env)
      → c.telemetry_transport ≡ some t
      → Yields t (map (λ m. encode_uint16 type ++ serialize m) ms) last
      → length ms < fuel
      → type < 65536
      → All (λ m. kind_of m ≡ k) ms
      → get_elem? c.telemetry_adders type ≡ some (some k)
      → length q ≤ cap
      → Pending env type k cap q c
      → (out : Controller env) × (receive_telemetry env fuel c ≡ some (ok out))
        × (out.telemetry_transport ≡ some last)
        × Pending env type k cap (take cap (q ++ ms)) out
  receive_telemetry-Pending fuel type cap k t last ms q c connected waits enough small of_class
        adder fits waiting =
      let (out, ran, ended, pending) =
        receive_all-Pending fuel type cap k t last ms _ q c refl waits enough small of_class adder
          waiting in
      (
        out,
        receive_connected fuel t c connected ∙ ran,
        ended,
        rw (push_all-take cap q ms fits) at pending,
      )
