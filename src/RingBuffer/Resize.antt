-- ===== src/RingBuffer/Resize.antt =====
-- `RingBuffer::resize`: when it keeps the contents, and the writes past the end that it can lead to.
use native.Mathlib.Nat.{mod-eq_of_lt}
use robot_remote_control.Base.{
  ℕ, zero, suc, ◌+◌, ◌<◌, ◌≤◌, ◌≡◌, ◌≢◌, refl, ◌∙◌, sym, ap, ap₂, ◌%◌, true, Bool, ltb, Returns, ok,
  some, length, write_at_ok, modulo_ok, add_size, get_elem?-set_self, if◌then◌else◌, List, arith,
  get_elem?, size_mod, fault, Fault, write_at, length-resize, get_elem?-resize, get_elem?-none,
  ==_ne, le→ltb, resize as vector_resize,
}
use robot_remote_control.RingBuffer.{RingBuffer, push_data, peek_data, resize}
use robot_remote_control.RingBuffer.Push.{add_size_small, once_round}
use robot_remote_control.RingBuffer.Valid.{IsValid, moved_on, contents, window, cons_elem}

write_index_cut : (newsize i : ℕ) → newsize ≤ i → (if ltb newsize i then newsize else i) ≡ newsize
write_index_cut newsize i cut = ground arith

module _ {A : Type 0} where
  -- A window that does not go round is the same in another buffer that agrees below its end.
  window_straight :
      (buf buf' : List A) (cap cap' h n : ℕ)
      → h + n < cap
      → h + n < cap'
      → ((i : ℕ) → i < h + n → get_elem? buf' i ≡ get_elem? buf i)
      → window buf' cap' h n ≡ window buf cap h n
  window_straight buf buf' cap cap' h zero inside inside' same = refl
  window_straight buf buf' cap cap' h (suc n) inside inside' same =
      rw
        (
          mod-eq_of_lt {n = h + 1} {m = cap} (omega arith),
          mod-eq_of_lt {n = h + 1} {m = cap'} (omega arith),
        )
        (ap₂ cons_elem (same h (omega arith)) (
          window_straight buf buf' cap cap' (h + 1) n (omega arith) (omega arith)
            (λ i below. same i (omega arith))))

  back_at_out :
      (r : RingBuffer A) → IsValid r → r.contentsize ≡ r.buffersize → r.in_index ≡ r.out_index
  back_at_out r v full =
      v.linked
      ∙ ap (λ n. (r.out_index + n) % r.buffersize) full
      ∙ once_round r.out_index r.buffersize v.out_inside

  -- A resize of a ring whose contents do not go round the end and leave a place free behind them, to a
  -- size that leaves a place behind them too, keeps the ring valid and keeps its contents.
  pub resize-contents :
      (r : RingBuffer A) (default : A) (newsize : ℕ)
      → IsValid r
      → r.out_index + r.contentsize < r.buffersize
      → r.out_index + r.contentsize < newsize
      → newsize < size_mod
      → IsValid (resize default newsize r) × (contents (resize default newsize r) ≡ contents r)
  unfolding resize
  resize-contents r default newsize v straight room small =
      let at_end : r.in_index ≡ r.out_index + r.contentsize = grind arith in
      rw (le→ltb newsize r.in_index (omega arith), le→ltb newsize r.out_index (omega arith))
        (
          record {
            storage = length-resize newsize default r.buffer;
            small = small;
            fits = omega arith;
            out_inside = omega arith;
            linked = at_end ∙ sym (mod-eq_of_lt room);
          },
          window_straight r.buffer (vector_resize newsize default r.buffer) r.buffersize newsize
              r.out_index r.contentsize straight room
              (λ i below. get_elem?-resize newsize default r.buffer i (omega arith) (omega arith)),
        )

  -- After a resize to no more than the write index, the next push into what the ring takes for free
  -- space writes behind the end of the storage.
  pub push_data-resize :
      (r : RingBuffer A) (default x : A) (newsize : ℕ) (overwrite : Bool)
      → newsize ≤ r.in_index
      → r.contentsize ≢ newsize
      → push_data (resize default newsize r) x overwrite ≡ fault Fault.out_of_bounds
  unfolding resize push_data
  push_data-resize r default x newsize overwrite cut not_full = rw (
    ==_ne r.contentsize newsize not_full,
    write_index_cut newsize r.in_index cut,
    get_elem?-none (vector_resize newsize default r.buffer) newsize
        (omega (arith, length-resize newsize default r.buffer)),
    write_at,
  )

  grown_invalid :
      (r : RingBuffer A) (default : A) (newsize : ℕ)
      → IsValid r
      → r.contentsize ≡ r.buffersize
      → r.buffersize < newsize
      → ¬ IsValid (resize default newsize r)
  unfolding resize
  grown_invalid r default newsize v full grown valid =
      let at_out : r.in_index ≡ r.out_index = back_at_out r v full in
      let in_kept : (resize default newsize r).in_index ≡ r.in_index =
        rw (le→ltb newsize r.in_index (omega arith)) refl in
      let out_kept : (resize default newsize r).out_index ≡ r.out_index =
        rw (le→ltb newsize r.out_index (omega arith)) refl in
      moved_on newsize r.out_index r.contentsize (omega arith) (omega arith) (omega arith) (
        ap (λ h. (h + r.contentsize) % newsize) (sym out_kept)
        ∙ sym valid.linked
        ∙ in_kept
        ∙ at_out)

  -- A full ring that has grown, whatever its place of the oldest element, is no valid ring: the next
  -- push is taken as one into free space, and it is the new element that is read next: it has
  -- overwritten the oldest one, while the size counts both.
  pub push_data-resize_full :
      (r : RingBuffer A) (default x : A) (newsize : ℕ) (overwrite : Bool)
      → IsValid r
      → r.contentsize ≡ r.buffersize
      → r.buffersize < newsize
      → newsize < size_mod
      → ¬ IsValid (resize default newsize r)
        × Returns (push_data (resize default newsize r) x overwrite) (λ out.
          (out.0 ≡ true)
          × (out.1.contentsize ≡ r.contentsize + 1)
          × (peek_data out.1 ≡ ok (some x)))
  unfolding resize push_data peek_data
  push_data-resize_full r default x newsize overwrite v full grown small =
      let at_out : r.in_index ≡ r.out_index = back_at_out r v full in
      let stored = vector_resize newsize default r.buffer in
      let positive : ltb 0 (r.contentsize + 1) ≡ true = ground arith in
      let inside : r.out_index < length stored =
        omega (arith, length-resize newsize default r.buffer, v.out_inside) in
      (
        grown_invalid r default newsize v full grown,
        rw
            (
              ==_ne r.contentsize newsize (λ e. omega (arith, e)),
              at_out,
              le→ltb newsize r.out_index (omega arith),
              write_at_ok stored r.out_index x inside,
              modulo_ok (add_size r.out_index 1) newsize (omega arith),
              add_size_small {n = r.contentsize} {m = newsize} (omega arith) small,
            )
            (refl, refl, rw (positive, get_elem?-set_self stored r.out_index x inside) refl),
      )
