-- ===== src/Tests/Buffers.antt =====
-- Concrete cases for the buffers.
use robot_remote_control.Base.{
  ◌+◌, ℕ, ◌≤◌, ◌≡◌, refl, arith, true, false, none, some, List, [], ◌∷◌, ok, fault, Fault, Returns,
  length, get_elem?,
}
use robot_remote_control.RingBuffer.{RingBuffer, push_data, pop_data, peek_data, resize}
use robot_remote_control.RingBuffer.Queue.{push_call, pop_call, peek_call, answered, given, Call}
use robot_remote_control.RingBuffer.Queue
use robot_remote_control.RingBuffer.Valid.{IsValid, contents}
use robot_remote_control.RingBuffer.Pop.{peek_data-first}
use robot_remote_control.RingBuffer.Calls.{run, Ran, run-refines}
use robot_remote_control.RingBuffer.Resize.{
  resize-contents, push_data-resize, push_data-resize_full,
}
use robot_remote_control.TelemetryBuffer.{new_telemetry_buffer, peek_serialized}
use robot_remote_control.TelemetryBuffer.Registered.{peek_serialized_unregistered}
use robot_remote_control.Tests.Samples.{Note, notes}

-- A ring of three places that is full and goes round the end: 4 and 5 are behind 3.
abbrev full_ring : RingBuffer ℕ
full_ring = record {
  buffersize = 3;
  contentsize = 3;
  in_index = 2;
  out_index = 2;
  buffer = 4 ∷ 5 ∷ 3 ∷ [];
  callbacks = 7 ∷ [];
}

full_ring-IsValid : IsValid full_ring
full_ring-IsValid = record {
  storage = refl;
  small = omega arith;
  fits = omega arith;
  out_inside = omega arith;
  linked = refl;
}

-- A ring with one element.
abbrev short_ring : RingBuffer ℕ
short_ring = record {
  buffersize = 3;
  contentsize = 1;
  in_index = 1;
  out_index = 0;
  buffer = 8 ∷ 0 ∷ 0 ∷ [];
  callbacks = [];
}

short_ring-IsValid : IsValid short_ring
short_ring-IsValid = record {
  storage = refl;
  small = omega arith;
  fits = omega arith;
  out_inside = omega arith;
  linked = refl;
}

abbrev calls : List (Call ℕ)
calls = push_call 6 true ∷ pop_call ∷ push_call 7 false ∷ push_call 8 false ∷ peek_call ∷ []

run_full : Returns (run full_ring calls) (λ out.
    out.0 ≡ answered true ∷ given (some 4) ∷ answered true ∷ answered false ∷ given (some 5) ∷ [])
unfolding run push_data pop_data peek_data
run_full = refl

run-refines_example : Returns (run full_ring calls) (Ran full_ring calls)
run-refines_example = run-refines full_ring calls full_ring-IsValid

peek_data-first_example : peek_data full_ring ≡ ok (Queue.first (contents full_ring))
peek_data-first_example = peek_data-first full_ring full_ring-IsValid

resize-contents_example :
    IsValid (resize 0 2 short_ring) × (contents (resize 0 2 short_ring) ≡ contents short_ring)
resize-contents_example =
    resize-contents short_ring 0 2 short_ring-IsValid (omega arith) (omega arith) (omega arith)

push_data-resize_full_example :
    ¬ IsValid (resize 0 5 full_ring)
    × Returns (push_data (resize 0 5 full_ring) 6 false) (λ out.
      (out.0 ≡ true)
      × (out.1.contentsize ≡ full_ring.contentsize + 1)
      × (peek_data out.1 ≡ ok (some 6)))
push_data-resize_full_example =
    push_data-resize_full full_ring 0 6 5 false full_ring-IsValid refl (omega arith) (omega arith)

push_data-resize_example : push_data (resize 0 2 full_ring) 6 true ≡ fault Fault.out_of_bounds
push_data-resize_example =
    push_data-resize full_ring 0 6 2 true (omega arith) (λ e. omega (arith, e))

peek_serialized_unregistered_example :
    (length (new_telemetry_buffer {A = Note}).converters ≤ 99
      → peek_serialized notes new_telemetry_buffer 99 ≡ fault Fault.out_of_bounds)
    × (get_elem? (new_telemetry_buffer {A = Note}).converters 99 ≡ some none
        → peek_serialized notes new_telemetry_buffer 99 ≡ fault Fault.null_pointer)
peek_serialized_unregistered_example = peek_serialized_unregistered notes new_telemetry_buffer 99
