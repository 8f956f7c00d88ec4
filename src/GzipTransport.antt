-- ===== src/GzipTransport.antt =====
-- src/Transports/TransportWrapperGzip.hpp and TransportWrapperGzip.cpp: a transport that compresses
-- what it sends by another one. The functions of zlib are an interface.
use robot_remote_control.Base.{
  ℕ, ◌+◌, ◌*◌, ◌/◌, ◌%◌, ◌≡◌, ◌≤◌, ◌<◌, refl, ap, ◌∙◌, ltb, if◌then◌else◌, ◌==◌, Option, none, some,
  [], ◌∷◌, ◌++◌, Result, ok, fault, Fault, ◌>>=◌, length, resize, length-resize, arith, Bool-cases,
  inl, inr,
}
use robot_remote_control.Base.Int.{ℤ, to_int, pos, negsuc}
use robot_remote_control.Bytes.{Bytes}
use robot_remote_control.Transport.{Transport, Flags}

-- The levels that zlib knows: from -1, which stands for the default, to 9.
abbrev pub IsLevel : ℤ → Type 0
IsLevel (pos n) = n ≤ 9
IsLevel (negsuc n) = n ≡ 0

-- Of a call into a buffer: the status that it returns, Z_OK being 0, and what is in the buffer up to
-- the length that it reports.
pub record Zlib : Type 0 where
  -- `compressBound`
  pub compress_bound : ℕ → ℕ
  -- `compress2` of the source into so many bytes at the level.
  pub compress2 : Bytes → ℕ → ℤ → ℤ × Bytes
  -- `uncompress` into a destination, of which so many bytes may be used.
  pub uncompress : Bytes → ℕ → Bytes → ℤ × Bytes
  -- What was compressed at a level that zlib knows into enough bytes is uncompressed by its length.
  pub uncompress-compress2 :
      (source destination : Bytes) (level : ℤ)
      → IsLevel level
      → length source ≤ length destination
      → ((compress2 source (compress_bound (length source)) level).0 ≡ pos 0)
        × (uncompress destination
              (length source)
              (compress2 source (compress_bound (length source)) level).1
            ≡ (pos 0, source))

-- `htonl` and `ntohl` on the four bytes at the front, for a number that is cut to 32 bits.
unfoldable pub encode_size : ℕ → Bytes
encode_size n = (n / 16_777_216) % 256 ∷ (n / 65_536) % 256 ∷ (n / 256) % 256 ∷ n % 256 ∷ []

-- The size and what is behind it. A shorter string is read behind its end, here or by `uncompress`,
-- which is told a length that wrapped around.
unfoldable pub split_size : Bytes → Result (ℕ × Bytes)
split_size (a ∷ b ∷ c ∷ d ∷ rest) = ok (16_777_216 * a + 65_536 * b + 256 * c + d, rest)
split_size _ = fault Fault.out_of_bounds

split_size-encode_size :
    (n : ℕ) (rest : Bytes) → n < 4_294_967_296 → split_size (encode_size n ++ rest) ≡ ok (n, rest)
unfolding split_size encode_size
split_size-encode_size n rest small = ap (λ k. ok (k, rest)) (omega arith)

module _ (z : Zlib) (level : ℤ) (inner : Transport) where
  open inner use {State, send, receive}

  -- What is handed to the other transport. The status of `compress2` is not looked at.
  unfoldable pub compressed : Bytes → Bytes
  compressed uncompressed =
      encode_size (length uncompressed)
      ++ (z.compress2 uncompressed (z.compress_bound (length uncompressed)) level).1

  -- `none` is an exception of the other transport.
  unfoldable pub gzip_send : Bytes → Flags → State → Option ℤ × State
  unfolding compressed
  gzip_send uncompressed flags s =
      let (sent, s') = send (compressed uncompressed) flags s in
      (
        elim sent [
          | none ↦ none
          | some n ↦ if n == 0 then some (pos 0) else some (to_int (length uncompressed))
        ],
        s',
      )

  -- `*uncompressed` as it is before the call, made longer if need be.
  abbrev pub destination : Bytes → ℕ → Bytes
  destination uncompressed n =
      if ltb (length uncompressed) n then resize n 0 uncompressed else uncompressed

  -- What is returned, and `*uncompressed` after the call, for what the other transport received.
  unfoldable pub unpack : Bytes → Bytes → Result (ℤ × Bytes)
  unfolding split_size
  unpack uncompressed message = do
    (size, source) ← split_size message
    let (status, out) = z.uncompress (destination uncompressed size) size source
    ok (to_int (length out), out)

  -- What the other transport returns is not looked at.
  unfoldable pub gzip_receive : Bytes → Flags → State → Result (ℤ × Bytes) × State
  unfolding unpack
  gzip_receive uncompressed flags s =
      let (count, message, s') = receive flags s in (unpack uncompressed message, s')

  too_short :
      (old message : Bytes) → length message < 4 → unpack old message ≡ fault Fault.out_of_bounds
  unfolding unpack
  too_short old [] short = refl
  too_short old (a ∷ []) short = refl
  too_short old (a ∷ b ∷ []) short = refl
  too_short old (a ∷ b ∷ c ∷ []) short = refl
  too_short old (a ∷ b ∷ c ∷ d ∷ rest) short = absurd (omega arith)

  long_enough : (old : Bytes) (n : ℕ) → n ≤ length (destination old n)
  long_enough old n = elim (Bool-cases (ltb (length old) n)) [
    | inl short ↦ rw short (omega (arith, length-resize n 0 old))
    | inr enough ↦ rw enough (ground arith)
  ]

  -- At a level that zlib knows, if the other transport delivers what it was given, then a message of
  -- less than 2^32 bytes that was sent is received, whatever `*uncompressed` held before. The result
  -- is its length as an `int`, which is negative from 2^31 on.
  pub gzip_receive-compressed :
      (message old : Bytes) (flags : Flags) (s : State)
      → IsLevel level
      → length message < 4_294_967_296
      → (receive flags s).1 ≡ compressed message
      → (gzip_receive old flags s).0 ≡ ok (to_int (length message), message)
  unfolding gzip_receive compressed
  gzip_receive-compressed message old flags s known small delivered =
      ap (unpack old) delivered
      ∙ rw (
        unpack,
        split_size-encode_size (length message)
            (z.compress2 message (z.compress_bound (length message)) level).1 small,
        (z.uncompress-compress2 message (destination old (length message)) level known
            (long_enough old (length message))).1,
      )

  -- If nothing was received, or less than four bytes, the size is read behind the end of the string: the
  -- wrapper cannot say that there was no data, as `Transport` asks it to.
  pub gzip_receive_short :
      (old : Bytes) (flags : Flags) (s : State)
      → length (receive flags s).1 < 4
      → (gzip_receive old flags s).0 ≡ fault Fault.out_of_bounds
  unfolding gzip_receive
  gzip_receive_short old flags s short = too_short old (receive flags s).1 short
