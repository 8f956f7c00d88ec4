-- ===== src/RingBuffer/Valid.antt =====
-- The representation invariant of `RingBuffer`, and what a valid ring holds.
use native.Mathlib.Nat.{mod-eq_of_lt, mod-add-mod, add-zero}
use robot_remote_control.Base.{
  ℕ, zero, suc, ◌+◌, ◌-◌, ◌%◌, ◌<◌, ◌≤◌, ◌≡◌, ◌≢◌, refl, ◌∙◌, ap, Option, none, some, List, [], ◌∷◌,
  ◌++◌, arith, length, get_elem?, set, size_mod, get_elem?-some, get_elem?-set_self,
  get_elem?-set_ne,
}
use robot_remote_control.RingBuffer.{RingBuffer}

pub record IsValid {ℓ} {A : Type ℓ} (r : RingBuffer A) : Type 0 where
  pub storage : length r.buffer ≡ r.buffersize
  pub small : r.buffersize < size_mod
  pub fits : r.contentsize ≤ r.buffersize
  pub out_inside : r.out_index < r.buffersize
  pub linked : r.in_index ≡ (r.out_index + r.contentsize) % r.buffersize

module _ {ℓ} {A : Type ℓ} where
  abbrev pub cons_elem : Option A → List A → List A
  cons_elem none xs = xs
  cons_elem (some x) xs = x ∷ xs

module _ {ℓ} {A : Type ℓ} (buf : List A) (cap : ℕ) where
  -- The `n` elements from index `h` on, going round at `cap`.
  abbrev pub window : ℕ → ℕ → List A
  window h zero = []
  window h (suc n) = cons_elem (get_elem? buf h) (window ((h + 1) % cap) n)

  pub length-window : (h n : ℕ) → cap ≤ length buf → h < cap → length (window h n) ≡ n
  length-window h zero hs hh = refl
  length-window h (suc n) hs hh =
      let (x, e) = get_elem?-some buf h (omega arith) in
      rw e (ap suc (length-window ((h + 1) % cap) n hs (omega arith)))

  -- A window that is not empty begins with the element at its start.
  pub window_front :
      (h n : ℕ) → 0 < n → window h n ≡ cons_elem (get_elem? buf h) (window ((h + 1) % cap) (n - 1))
  window_front h zero p = absurd (omega arith)
  window_front h (suc n) p = ap (λ k. window h (suc k)) (omega arith)

-- Going on by less than a whole round leaves the place.
pub moved_on : (cap h k : ℕ) → h < cap → 0 < k → k < cap → (h + k) % cap ≢ h
moved_on cap h k inside forth short = grind arith

pub mod-shift : (h n cap : ℕ) → (h + suc n) % cap ≡ ((h + 1) % cap + n) % cap
mod-shift h n cap = rw mod-add-mod (ap (λ k. k % cap) (omega arith))

module _ {ℓ} {A : Type ℓ} where
  -- Writing just past a window extends it by that element.
  pub window-set :
      (buf : List A) (cap : ℕ) (x : A) (count start next : ℕ)
      → cap ≤ length buf
      → start < cap
      → count < cap
      → next ≡ (start + count) % cap
      → window (set buf next x) cap start (suc count) ≡ window buf cap start count ++ x ∷ []
  window-set buf cap x zero start next stored inside room e =
      rw (e, add-zero, mod-eq_of_lt inside, get_elem?-set_self buf start x (omega arith))
  window-set buf cap x (suc count) start next stored inside room e =
      let (y, found) = get_elem?-some buf start (omega arith) in
      let apart = moved_on cap start (suc count) inside (omega arith) room in
      rw (get_elem?-set_ne buf next start x (rw e apart), found)
        (ap (λ ys. y ∷ ys)
          (window-set buf cap x count ((start + 1) % cap) next stored (omega arith) (omega arith)
            (e ∙ mod-shift start count cap)))

  -- What the ring holds, oldest first.
  abbrev pub contents : RingBuffer A → List A
  contents r = window r.buffer r.buffersize r.out_index r.contentsize

  pub length-contents : (r : RingBuffer A) → IsValid r → length (contents r) ≡ r.contentsize
  length-contents r v =
      length-window r.buffer r.buffersize r.out_index r.contentsize (omega arith) (omega arith)
