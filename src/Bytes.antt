-- ===== src/Bytes.antt =====
-- Byte strings (`std::string`) and the two-byte message type at the front of every message. The
-- source writes and reads it through a `uint16_t*`, so in the host's byte order, which is little
-- endian on the platforms that the library is built for.
use robot_remote_control.Base.{
  ℕ, ◌+◌, ◌*◌, ◌/◌, ◌%◌, ◌<◌, ◌≡◌, refl, ap, ◌↔◌, Bool, true, false, ◌==◌, ◌&&◌, List, [], ◌∷◌,
  ◌++◌, Result, ok, fault, Fault, arith,
}

abbrev pub Bytes : Type 0
Bytes = List ℕ

-- `*reinterpret_cast<uint16_t*>(p) = type`
unfoldable pub encode_uint16 : ℕ → Bytes
encode_uint16 n = n % 256 ∷ (n / 256) % 256 ∷ []

-- `*reinterpret_cast<uint16_t*>(s.data())`. Behind its last character a string has a terminator of 0,
-- which may be read. The empty string has too few bytes for the read.
unfoldable pub read_uint16 : Bytes → Result ℕ
read_uint16 [] = fault Fault.out_of_bounds
read_uint16 (low ∷ []) = ok low
read_uint16 (low ∷ high ∷ rest) = ok (low + 256 * high)

-- `std::string(s.data() + sizeof(uint16_t), s.size() - sizeof(uint16_t))`. The length of a shorter
-- string wraps round to more than a string can hold, which throws.
unfoldable pub strip_type : Bytes → Result Bytes
strip_type [] = fault Fault.length_error
strip_type (low ∷ []) = fault Fault.length_error
strip_type (low ∷ high ∷ rest) = ok rest

unfoldable pub str_eq : Bytes → Bytes → Bool
str_eq [] [] = true
str_eq [] (b ∷ bs) = false
str_eq (a ∷ as') [] = false
str_eq (a ∷ as') (b ∷ bs) = a == b && str_eq as' bs

pub str_eq_refl : (s : Bytes) → str_eq s s ≡ true
unfolding str_eq
str_eq_refl [] = refl
str_eq_refl (a ∷ as') = ground (arith, str_eq_refl as')

pub str_eq→eq : (s t : Bytes) → str_eq s t ≡ true → s ≡ t
unfolding str_eq
str_eq→eq [] [] h = refl
str_eq→eq [] (b ∷ bs) h = cc
str_eq→eq (a ∷ as') [] h = cc
str_eq→eq (a ∷ as') (b ∷ bs) h = ground (arith, str_eq→eq as' bs)

pub str_eq_iff : (s t : Bytes) → (str_eq s t ≡ true) ↔ (s ≡ t)
str_eq_iff s t = (str_eq→eq s t, λ e. rw e (str_eq_refl t))

-- A type written in front of a body is read back, and stripping it leaves the body.
pub read_uint16-encode_uint16 :
    (n : ℕ) (body : Bytes)
    → n < 65536
    → (read_uint16 (encode_uint16 n ++ body) ≡ ok n)
      × (strip_type (encode_uint16 n ++ body) ≡ ok body)
unfolding read_uint16 encode_uint16 strip_type
read_uint16-encode_uint16 n body small = (ap ok (omega arith), refl)

pub read_uint16_encode : (n : ℕ) → n < 65536 → read_uint16 (encode_uint16 n) ≡ ok n
unfolding read_uint16 encode_uint16
read_uint16_encode n small = ap ok (omega arith)
