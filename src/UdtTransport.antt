-- ===== src/UdtTransport.antt =====
-- src/Transports/TransportUDT.hpp and TransportUDT.cpp: sending and receiving on a socket. The
-- functions of the UDT library are an interface; what is printed about errors is left out.
pub mod Connecting
use robot_remote_control.Base.{
  ℕ, ◌≡◌, refl, sym, not, ◌&&◌, if◌then◌else◌, Bool, true, false, Bool-cases, Option, none, some,
  inl, inr, length,
}
use robot_remote_control.Bytes.{Bytes}
use robot_remote_control.Transport.{Flags, none_flag, noblock}

-- A connected socket. `sendmsg` and `recvmsg` depend on the options UDT_SNDSYN and UDT_SNDTIMEO, and
-- UDT_RCVSYN and UDT_RCVTIMEO, of the socket, which are their first arguments: whether to wait, and at
-- most how many milliseconds, `none` being without a limit. `none` of a result is UDT::ERROR.
pub record Udt : Type 1 where
  pub Socket : Type 0
  pub sendmsg : Bool → Option ℕ → Bytes → Socket → Option ℕ × Socket
  -- What is put into a buffer of the size.
  pub recvmsg : Bool → Option ℕ → ℕ → Socket → Option Bytes × Socket

-- `sndsyn`, `rcvsyn`, `sndtimeo` and `rcvtimeo` are the options of the socket, and `blocking_send` and
-- `blocking_recv` what the class remembers of the first two.
pub record UdtTransport (S : Type 0) : Type 0 where
  pub socket : S
  pub sndsyn : Bool
  pub rcvsyn : Bool
  pub sndtimeo : Option ℕ
  pub rcvtimeo : Option ℕ
  pub blocking_send : Bool
  pub blocking_recv : Bool
  pub recv_buffer_size : ℕ

abbrev pub is_noblock : Flags → Bool
is_noblock none_flag = false
is_noblock noblock = true

module _ (u : Udt) where
  open u use {Socket, sendmsg, recvmsg}

  -- The two branches that change the mode of sending, and of receiving.
  unfoldable pub choose_send : Flags → UdtTransport Socket → UdtTransport Socket
  choose_send flags t =
      if is_noblock flags && t.blocking_send
      then record t { blocking_send = false; sndsyn = false }
      else if not (is_noblock flags) && not t.blocking_send
      then record t { blocking_send = true; sndsyn = true }
      else t

  unfoldable pub choose_recv : Flags → UdtTransport Socket → UdtTransport Socket
  choose_recv flags t =
      if is_noblock flags && t.blocking_recv
      then record t { blocking_recv = false; rcvsyn = false }
      else if not (is_noblock flags) && not t.blocking_recv
      then record t { blocking_recv = true; rcvsyn = true }
      else t

  unfoldable pub udt_send : Bytes → Flags → UdtTransport Socket → ℕ × UdtTransport Socket
  unfolding choose_send
  udt_send buf flags t =
      let t' = choose_send flags t in
      let (sent, s) = sendmsg t'.sndsyn t'.sndtimeo buf t'.socket in
      (elim sent [ none ↦ 0 | some n ↦ n ], record t' { socket = s })

  -- What is returned, and `*buf` after the call, which is left alone if there was nothing.
  unfoldable pub udt_receive : Bytes → Flags → UdtTransport Socket → ℕ × Bytes × UdtTransport Socket
  unfolding choose_recv
  udt_receive buf flags t =
      let t' = choose_recv flags t in
      let (received, s) = recvmsg t'.rcvsyn t'.rcvtimeo t'.recv_buffer_size t'.socket in
      (
        elim received [ none ↦ 0 | some message ↦ length message ],
        elim received [ none ↦ buf | some message ↦ message ],
        record t' { socket = s },
      )

  -- What the class remembers of the options is what they are.
  pub record Remembers (t : UdtTransport Socket) : Type 0 where
    pub of_send : t.blocking_send ≡ t.sndsyn
    pub of_recv : t.blocking_recv ≡ t.rcvsyn

  choose_send_lem :
      (flags : Flags) (t : UdtTransport Socket)
      → Remembers t
      → Remembers (choose_send flags t)
        × ((choose_send flags t).sndsyn ≡ not (is_noblock flags))
        × ((choose_send flags t).socket ≡ t.socket)
        × ((choose_send flags t).sndtimeo ≡ t.sndtimeo)
  unfolding choose_send
  choose_send_lem none_flag t known = elim (Bool-cases t.blocking_send) [
    | inl e ↦
        let now : true ≡ t.sndsyn = rw e at known.of_send in
        rw e (record { of_send = now; of_recv = known.of_recv }, sym now, refl, refl)
    | inr e ↦ rw e (record { of_send = refl; of_recv = known.of_recv }, refl, refl, refl)
  ]
  choose_send_lem noblock t known = elim (Bool-cases t.blocking_send) [
    | inl e ↦ rw e (record { of_send = refl; of_recv = known.of_recv }, refl, refl, refl)
    | inr e ↦
        let now : false ≡ t.sndsyn = rw e at known.of_send in
        rw e (record { of_send = now; of_recv = known.of_recv }, sym now, refl, refl)
  ]

  choose_recv_lem :
      (flags : Flags) (t : UdtTransport Socket)
      → Remembers t
      → Remembers (choose_recv flags t)
        × ((choose_recv flags t).rcvsyn ≡ not (is_noblock flags))
        × ((choose_recv flags t).socket ≡ t.socket)
        × ((choose_recv flags t).recv_buffer_size ≡ t.recv_buffer_size)
        × ((choose_recv flags t).rcvtimeo ≡ t.rcvtimeo)
  unfolding choose_recv
  choose_recv_lem none_flag t known = elim (Bool-cases t.blocking_recv) [
    | inl e ↦
        let now : true ≡ t.rcvsyn = rw e at known.of_recv in
        rw e (record { of_send = known.of_send; of_recv = now }, sym now, refl, refl, refl)
    | inr e ↦ rw e (record { of_send = known.of_send; of_recv = refl }, refl, refl, refl, refl)
  ]
  choose_recv_lem noblock t known = elim (Bool-cases t.blocking_recv) [
    | inl e ↦ rw e (record { of_send = known.of_send; of_recv = refl }, refl, refl, refl, refl)
    | inr e ↦
        let now : false ≡ t.rcvsyn = rw e at known.of_recv in
        rw e (record { of_send = known.of_send; of_recv = now }, sym now, refl, refl, refl)
  ]

  -- As long as the class remembers the options of its socket it goes on to: each message is sent, and
  -- each is received, in the mode that the flags of the call ask for, whatever the calls before were;
  -- an error is the result 0, and leaves `*buf` alone.
  pub udt_send-udt_receive :
      (buf : Bytes) (flags : Flags) (t : UdtTransport Socket)
      → Remembers t
      → Remembers (udt_send buf flags t).1
        × Remembers (udt_receive buf flags t).2
        × ((udt_send buf flags t).0
            ≡ elim (sendmsg (not (is_noblock flags)) t.sndtimeo buf t.socket).0 [
              | none ↦ 0
              | some n ↦ n
            ])
        × ((udt_receive buf flags t).1
            ≡ elim (recvmsg (not (is_noblock flags)) t.rcvtimeo t.recv_buffer_size t.socket).0 [
              | none ↦ buf
              | some message ↦ message
            ])
  unfolding udt_send udt_receive
  udt_send-udt_receive buf flags t known =
      let (sends, sndsyn, same, limit) = choose_send_lem flags t known in
      let (receives, rcvsyn, same', room, limit') = choose_recv_lem flags t known in
      (
        record { of_send = sends.of_send; of_recv = sends.of_recv },
        record { of_send = receives.of_send; of_recv = receives.of_recv },
        rw (sndsyn, same, limit),
        rw (rcvsyn, same', room, limit'),
      )
