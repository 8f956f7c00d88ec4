-- ===== src/TelemetryBuffer/Registered.antt =====
-- A type that was registered has its buffer and its converter, whatever is registered for others;
-- a request for any other type is a fault.
use robot_remote_control.Base.{
  ℕ, ◌+◌, ◌≡◌, ◌≢◌, ◌<◌, ◌≤◌, refl, sym, ◌∙◌, ◌==◌, leb, leb→le, not, ◌||◌, true, Bool-cases,
  Option, none, some, ok, fault, Fault, read_at, length, List, Returns, arith, inl, inr, get_elem?,
  Option-cases, size_mod, get_elem?-set_self, get_elem?-set_ne, get_elem?-resize, length-resize,
  write_at_ok, get_elem?-lt, get_elem?-none,
}
use robot_remote_control.Types.{Kind, Protobuf}
use robot_remote_control.MessageTypes.Telemetry.{no_telemetry_data, telemetry_message_types_number}
use robot_remote_control.RingBuffer.{new_ring}
use robot_remote_control.RingBuffer.Access.{AnyBuffer}
use robot_remote_control.RingBuffer.Latest.{Sized, Holds, new_ring-Sized}
use robot_remote_control.RingBuffer.Placed.{peek_at-Holds}
use robot_remote_control.TelemetryBuffer.{
  Converter, TelemetryBuffer, fitted, register_type, peek_serialized,
}

abbrev pub reads : Kind → ℕ → Converter
reads k type = record { pbtype = k; type = type }

-- The type has a converter that reads its buffer, which is of the kind `k` and the capacity `cap`.
pub record Registered {A : Type 0} (type : ℕ) (k : Kind) (cap : ℕ) (t : TelemetryBuffer A)
    : Type 0 where
  pub converter : get_elem? t.converters type ≡ some (some (reads k type))
  pub buffer : Returns (read_at t.slots type) (Sized k cap)

pub fitted_lem {ℓ} :
    {B : Type ℓ} (type : ℕ) (xs : List (Option B))
    → (type < length (fitted type xs))
      × ((j : ℕ) → j < length xs → get_elem? (fitted type xs) j ≡ get_elem? xs j)
fitted_lem {B} type xs = elim (Bool-cases (leb (length xs) type)) [
  | inr enough ↦ rw enough (ground arith, (λ j below. refl))
  | inl short ↦
      let long = length-resize {A = Option B} (type + 1) none xs in
      let small = leb→le (length xs) type short in
      rw short (omega arith, (λ j below. get_elem?-resize (type + 1) none xs j (omega arith) below))
]

pub read_at-lt {ℓ} :
    {A : Type ℓ} (P : A → Type 0) (xs : List A) (i : ℕ) → Returns (read_at xs i) P → i < length xs
read_at-lt P xs i h = elim (Option-cases (get_elem? xs i)) [
  | inl e ↦ absurd (rw e at h)
  | inr (a, e) ↦ get_elem?-lt xs i e
]

module _ {A : Type 0} where
  -- What a registration has done: the type is registered, and so are those that were before.
  pub record Registers (type : ℕ) (k : Kind) (cap : ℕ) (old new : TelemetryBuffer A) : Type 0 where
    pub registered : Registered type k cap new
    pub others :
        (j : ℕ) (l : Kind) (size : ℕ) → j ≢ type → Registered j l size old → Registered j l size new

  -- `registerType` returns for a capacity above 0: the type has its empty buffer and its converter, and
  -- the other registered types have theirs.
  pub register_type-Registers :
      (k : Kind) (default : A) (type cap : ℕ) (t : TelemetryBuffer A)
      → 0 < cap
      → cap < size_mod
      → Returns (register_type k default type cap t) (Registers type k cap t)
  unfolding register_type
  register_type-Registers k default type cap t some_room small =
      let new : AnyBuffer A = record { kind = k; ring = new_ring default cap } in
      let (inside, same) = fitted_lem type t.slots in
      let (inside', same') = fitted_lem type t.converters in
      rw
        (
          write_at_ok (fitted type t.slots) type (some new) inside,
          write_at_ok (fitted type t.converters) type (some (reads k type)) inside',
        )
        (record {
          registered = record {
            converter =
                get_elem?-set_self (fitted type t.converters) type (some (reads k type)) inside';
            buffer =
                rw (get_elem?-set_self (fitted type t.slots) type (some new) inside)
                  (new_ring-Sized k default cap some_room small);
          };
          others = λ j l size other was. record {
            converter =
                get_elem?-set_ne (fitted type t.converters) type j (some (reads k type))
                  (λ e. other (sym e))
                ∙ same' j (get_elem?-lt t.converters j was.converter)
                ∙ was.converter;
            buffer =
                rw
                  (
                    get_elem?-set_ne (fitted type t.slots) type j (some new) (λ e. other (sym e)),
                    same j (read_at-lt (Sized l size) t.slots j was.buffer),
                  )
                  was.buffer;
          };
        })

always_asked :
    (type : ℕ)
    → (not (type == no_telemetry_data) || not (type == telemetry_message_types_number)) ≡ true
always_asked type = ground arith

module _ {F : Type 0} (pb : Protobuf F) where
  open pb use {Message, serialize}

  -- A request for a registered type whose buffer holds a message is answered with that message.
  pub peek_serialized-Holds :
      (t : TelemetryBuffer Message) (type cap : ℕ) (k : Kind) (m : Message)
      → Registered type k cap t
      → Returns (read_at t.slots type) (Holds k m)
      → peek_serialized pb t type ≡ ok (serialize m)
  unfolding peek_serialized
  peek_serialized-Holds t type cap k m reg holds =
      rw (always_asked type, reg.converter, peek_at-Holds k type m t.slots holds)

  -- A request for a type that has no converter is undefined: it reads behind the vector, or calls a
  -- function of a null pointer.
  pub peek_serialized_unregistered :
      (t : TelemetryBuffer Message) (type : ℕ)
      → ((length t.converters ≤ type → peek_serialized pb t type ≡ fault Fault.out_of_bounds)
          × (get_elem? t.converters type ≡ some none
              → peek_serialized pb t type ≡ fault Fault.null_pointer))
  unfolding peek_serialized
  peek_serialized_unregistered t type = (
    λ long. rw (always_asked type, get_elem?-none t.converters type long),
    λ e. rw (always_asked type, e),
  )
