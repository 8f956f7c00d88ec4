-- ===== src/UdtTransport/Connecting.antt =====
-- src/Transports/TransportUDT.cpp: the constructor, the thread that it starts to accept or to make the
-- connection, and the destructor. That thread holds the lock of the socket from its first to its last
-- statement, so `send` and `receive` come before it or after it.
use robot_remote_control.Base.{
  ℕ, ◌+◌, ◌≡◌, refl, ap, ◌∙◌, not, Bool, true, false, Bool-cases, inl, inr, if◌then◌else◌, Option,
  none, some, List, [], ◌∷◌,
}
use mathlib.Core.Option
use robot_remote_control.Bytes.{Bytes}
use robot_remote_control.Transport.{Flags, none_flag, noblock}
use robot_remote_control.UdtTransport.{
  Udt, UdtTransport, Remembers, is_noblock, choose_send, choose_recv, udt_send, udt_receive,
  udt_send-udt_receive,
}

pub data ConnectionType : Type 0 where
  server client : ConnectionType

abbrev or_zero : Option ℕ → ℕ
or_zero none = 0
or_zero (some n) = n

abbrev or_kept : Bytes → Option Bytes → Bytes
or_kept buf none = buf
or_kept buf (some message) = message

-- Sockets that may be invalid, as that of a server is before it has accepted a client. Every call on
-- an invalid socket is an error.
abbrev pub or_invalid : Udt → Udt
or_invalid u = record {
  Socket = Option u.Socket;
  sendmsg = λ blocking limit message s. elim s [
    | none ↦ (none, none)
    | some t ↦ let (sent, t') = u.sendmsg blocking limit message t in (sent, some t')
  ];
  recvmsg = λ blocking limit room s. elim s [
    | none ↦ (none, none)
    | some t ↦ let (received, t') = u.recvmsg blocking limit room t in (received, some t')
  ];
}

-- What `UDT::accept` returns: a socket, which comes with options of its own.
pub record Accepted (S : Type 0) : Type 0 where
  pub socket : S
  pub sndsyn : Bool
  pub rcvsyn : Bool
  pub sndtimeo : Option ℕ
  pub rcvtimeo : Option ℕ

-- The class while its thread may not have made the connection yet. `serving` says whether `serv` is a
-- socket, and `ended` whether the thread has ended.
pub record Endpoint (S : Type 0) : Type 0 where
  pub transport : UdtTransport S
  pub serving : Bool
  pub ended : Bool

module _ (u : Udt) where
  open u use {Socket, sendmsg, recvmsg}

  abbrev pub Connection : Type 0
  Connection = Endpoint (Option Socket)

  -- `created` is what `UDT::socket` returns for a client; both modes of a new socket are blocking,
  -- without a limit.
  unfoldable pub new_transport : ConnectionType → ℕ → Option Socket → Connection
  new_transport type buffersize created = record {
    transport = record {
      socket = elim type [ server ↦ none | client ↦ created ];
      sndsyn = true;
      rcvsyn = true;
      sndtimeo = none;
      rcvtimeo = none;
      blocking_send = true;
      blocking_recv = true;
      recv_buffer_size = buffersize;
    };
    serving = elim type [ server ↦ true | client ↦ false ];
    ended = false;
  }

  -- The threads. `accepted` is what `UDT::accept` returns, whose options are set one by one, and
  -- `joined` what `UDT::connect` makes of the socket; that it failed is printed only.
  unfoldable pub accept : Accepted (Option Socket) → Connection → Connection
  accept accepted e =
      let stored = record (e.transport) {
        socket = accepted.socket;
        sndsyn = accepted.sndsyn;
        rcvsyn = accepted.rcvsyn;
        sndtimeo = accepted.sndtimeo;
        rcvtimeo = accepted.rcvtimeo;
      } in
      let receiving = record stored { rcvsyn = stored.blocking_recv } in
      let sending = record receiving { sndsyn = receiving.blocking_send } in
      let send_limited = record sending { sndtimeo = some 500 } in
      record e { transport = record send_limited { rcvtimeo = some 500 }; ended = true }

  unfoldable pub connect : (Socket → Socket) → Connection → Connection
  connect joined e = record e {
    transport = record (e.transport) {
      socket = Option.map joined e.transport.socket;
      rcvsyn = e.transport.blocking_recv;
      sndsyn = e.transport.blocking_send;
    };
    ended = true;
  }

  -- The destructor: how many sockets it closes; `none` while it waits for the thread.
  unfoldable pub destroy : Connection → Option ℕ
  destroy e =
      if e.ended
      then some (elim e.transport.socket [ none ↦ 0 | some s ↦ 1 ] + (if e.serving then 1 else 0))
      else none

  -- What happens to the object, in the order in which the lock is taken.
  pub data Call : Type 0 where
    sending : Bytes → Flags → Call
    receiving : Bytes → Flags → Call
    accepting : Accepted (Option Socket) → Call
    connecting : (Socket → Socket) → Call

  unfoldable pub make_call : Call → Connection → Connection
  unfolding accept connect
  make_call (sending buf flags) e = record e {
    transport = (udt_send (or_invalid u) buf flags e.transport).1;
  }
  make_call (receiving buf flags) e = record e {
    transport = (udt_receive (or_invalid u) buf flags e.transport).2;
  }
  make_call (accepting accepted) e = accept accepted e
  make_call (connecting joined) e = connect joined e

  unfoldable pub make_calls : List Call → Connection → Connection
  unfolding make_call
  make_calls [] e = e
  make_calls (call ∷ calls) e = make_calls calls (make_call call e)

  make_call-Remembers :
      (call : Call) (e : Connection)
      → Remembers (or_invalid u) e.transport
      → Remembers (or_invalid u) (make_call call e).transport
  unfolding make_call accept connect
  make_call-Remembers (sending buf flags) e known =
      (udt_send-udt_receive (or_invalid u) buf flags e.transport known).0
  make_call-Remembers (receiving buf flags) e known =
      (udt_send-udt_receive (or_invalid u) buf flags e.transport known).1
  make_call-Remembers (accepting accepted) e known = record { of_send = refl; of_recv = refl }
  make_call-Remembers (connecting joined) e known = record { of_send = refl; of_recv = refl }

  make_calls-Remembers :
      (calls : List Call) (e : Connection)
      → Remembers (or_invalid u) e.transport
      → Remembers (or_invalid u) (make_calls calls e).transport
  unfolding make_calls
  make_calls-Remembers [] e known = known
  make_calls-Remembers (call ∷ calls) e known =
      make_calls-Remembers calls (make_call call e) (make_call-Remembers call e known)

  -- How long a call waits: 500 ms from the acceptance of a client on.
  abbrev pub limit : Option ℕ → List Call → Option ℕ
  limit old [] = old
  limit old (sending buf flags ∷ calls) = limit old calls
  limit old (receiving buf flags ∷ calls) = limit old calls
  limit old (accepting accepted ∷ calls) = limit (some 500) calls
  limit old (connecting joined ∷ calls) = limit old calls

  choose_send-limits :
      (flags : Flags) (t : UdtTransport (Option Socket))
      → ((choose_send (or_invalid u) flags t).sndtimeo ≡ t.sndtimeo)
        × ((choose_send (or_invalid u) flags t).rcvtimeo ≡ t.rcvtimeo)
  unfolding choose_send
  choose_send-limits none_flag t = elim (Bool-cases t.blocking_send) [
    | inl e ↦ rw e (refl, refl)
    | inr e ↦ rw e (refl, refl)
  ]
  choose_send-limits noblock t = elim (Bool-cases t.blocking_send) [
    | inl e ↦ rw e (refl, refl)
    | inr e ↦ rw e (refl, refl)
  ]

  choose_recv-limits :
      (flags : Flags) (t : UdtTransport (Option Socket))
      → ((choose_recv (or_invalid u) flags t).sndtimeo ≡ t.sndtimeo)
        × ((choose_recv (or_invalid u) flags t).rcvtimeo ≡ t.rcvtimeo)
  unfolding choose_recv
  choose_recv-limits none_flag t = elim (Bool-cases t.blocking_recv) [
    | inl e ↦ rw e (refl, refl)
    | inr e ↦ rw e (refl, refl)
  ]
  choose_recv-limits noblock t = elim (Bool-cases t.blocking_recv) [
    | inl e ↦ rw e (refl, refl)
    | inr e ↦ rw e (refl, refl)
  ]

  same_limits :
      (call : Call) (e : Connection)
      → ((make_call call e).transport.sndtimeo ≡ limit e.transport.sndtimeo (call ∷ []))
        × ((make_call call e).transport.rcvtimeo ≡ limit e.transport.rcvtimeo (call ∷ []))
  unfolding make_call accept connect udt_send udt_receive
  same_limits (sending buf flags) e = choose_send-limits flags e.transport
  same_limits (receiving buf flags) e = choose_recv-limits flags e.transport
  same_limits (accepting accepted) e = (refl, refl)
  same_limits (connecting joined) e = (refl, refl)

  limit-cons :
      (old : Option ℕ) (call : Call) (calls : List Call)
      → limit (limit old (call ∷ [])) calls ≡ limit old (call ∷ calls)
  limit-cons old (sending buf flags) calls = refl
  limit-cons old (receiving buf flags) calls = refl
  limit-cons old (accepting accepted) calls = refl
  limit-cons old (connecting joined) calls = refl

  make_calls-limit :
      (calls : List Call) (e : Connection)
      → ((make_calls calls e).transport.sndtimeo ≡ limit e.transport.sndtimeo calls)
        × ((make_calls calls e).transport.rcvtimeo ≡ limit e.transport.rcvtimeo calls)
  unfolding make_calls
  make_calls-limit [] e = (refl, refl)
  make_calls-limit (call ∷ calls) e =
      let (snd, rcv) = make_calls-limit calls (make_call call e) in
      let (snd', rcv') = same_limits call e in
      (
        snd ∙ ap (λ old. limit old calls) snd' ∙ limit-cons e.transport.sndtimeo call calls,
        rcv ∙ ap (λ old. limit old calls) rcv' ∙ limit-cons e.transport.rcvtimeo call calls,
      )

  sends_so :
      (blocking : Bool) (wait : Option ℕ) (buf : Bytes) (s : Option Socket)
      → or_zero ((or_invalid u).sendmsg blocking wait buf s).0
        ≡ elim s [ none ↦ 0 | some t ↦ or_zero (sendmsg blocking wait buf t).0 ]
  sends_so blocking wait buf none = refl
  sends_so blocking wait buf (some t) = refl

  receives_so :
      (blocking : Bool) (wait : Option ℕ) (buf : Bytes) (room : ℕ) (s : Option Socket)
      → or_kept buf ((or_invalid u).recvmsg blocking wait room s).0
        ≡ elim s [ none ↦ buf | some t ↦ or_kept buf (recvmsg blocking wait room t).0 ]
  receives_so blocking wait buf room none = refl
  receives_so blocking wait buf room (some t) = refl

  -- Wherever the thread makes the connection among the calls of the application, in whatever modes they
  -- were, and whatever modes an accepted socket comes with: what the class remembers of the modes of its
  -- socket is what they are; the next message is sent and the next is received in the mode that the
  -- flags of the call ask for, with a limit of 500 ms if a client was accepted and without one
  -- otherwise; and without a socket or on an error the result of `send` is 0, and the string of
  -- `receive` is left alone.
  pub make_calls-new_transport :
      (type : ConnectionType) (buffersize : ℕ) (created : Option Socket) (calls : List Call)
      (buf : Bytes) (flags : Flags) (t : UdtTransport (Option Socket))
      → t ≡ (make_calls calls (new_transport type buffersize created)).transport
      → Remembers (or_invalid u) t
        × ((udt_send (or_invalid u) buf flags t).0 ≡ elim t.socket [
          | none ↦ 0
          | some s ↦ or_zero (sendmsg (not (is_noblock flags)) (limit none calls) buf s).0
        ])
        × ((udt_receive (or_invalid u) buf flags t).1 ≡ elim t.socket [
          | none ↦ buf
          | some s ↦
              or_kept buf
                (recvmsg (not (is_noblock flags)) (limit none calls) t.recv_buffer_size s).0
        ])
  unfolding new_transport
  make_calls-new_transport type buffersize created calls buf flags t e =
      let start = new_transport type buffersize created in
      let known =
        rw (← e) at
          (make_calls-Remembers calls start (record { of_send = refl; of_recv = refl })) in
      let both = udt_send-udt_receive (or_invalid u) buf flags t known in
      let (snd, rcv) = make_calls-limit calls start in
      let snd' : t.sndtimeo ≡ limit none calls = ap (λ t. t.sndtimeo) e ∙ snd in
      let rcv' : t.rcvtimeo ≡ limit none calls = ap (λ t. t.rcvtimeo) e ∙ rcv in
      (
        known,
        both.2
            ∙ sends_so (not (is_noblock flags)) t.sndtimeo buf t.socket
            ∙ ap
                (λ wait. elim t.socket [
                  | none ↦ 0
                  | some s ↦ or_zero (sendmsg (not (is_noblock flags)) wait buf s).0
                ])
                snd',
        both.3
            ∙ receives_so (not (is_noblock flags)) t.rcvtimeo buf t.recv_buffer_size t.socket
            ∙ ap
                (λ wait. elim t.socket [
                  | none ↦ buf
                  | some s ↦
                      or_kept buf (recvmsg (not (is_noblock flags)) wait t.recv_buffer_size s).0
                ])
                rcv',
      )
