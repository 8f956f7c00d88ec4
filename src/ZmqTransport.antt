-- ===== src/ZmqTransport.antt =====
-- src/Transports/TransportZmq.hpp and TransportZmq.cpp. The functions of the ZeroMQ library are an
-- interface.
use robot_remote_control.Base.{
  ℕ, ◌<◌, ◌≡◌, refl, Bool, true, false, if◌then◌else◌, Option, none, some, List, [], ◌∷◌, length,
}
use mathlib.Core.Option
use robot_remote_control.Base.Int.{ℤ, pos, to_int, to_int_small}
use robot_remote_control.Bytes.{Bytes}
use robot_remote_control.Transport.{Flags, none_flag, noblock}

pub data ConnectionType : Type 0 where
  req rep pub_type sub : ConnectionType

-- The options that the class sets.
pub data SocketOption : Type 0 where
  req_correlate req_relaxed subscribe_all : SocketOption

-- `connect` and `bind` throw, `none`, and so do `send` and `recv`, but if they would have to wait with
-- ZMQ_NOBLOCK, the Boolean: then they return false.
pub record Zmq : Type 1 where
  pub Context : Type 0
  pub Socket : Type 0
  pub new_context : ℕ → Context
  pub new_socket : Context → ConnectionType → Socket
  pub setsockopt : SocketOption → Socket → Socket
  pub connect : Bytes → Socket → Option Socket
  pub bind : Bytes → Socket → Option Socket
  pub send : Bool → Bytes → Socket → Option Bool × Socket
  -- The result, and what is in the message then.
  pub recv : Bool → Socket → Option (Bool × Bytes) × Socket
  -- A message stays empty if nothing was received.
  pub recv_nothing :
      (blocking : Bool) (s : Socket) (m : Bytes) → (recv blocking s).0 ≡ some (false, m) → m ≡ []

abbrev pub zmq_noblock : Flags → Bool
zmq_noblock none_flag = false
zmq_noblock noblock = true

module _ (z : Zmq) where
  open z use {Context, Socket, new_context, new_socket, setsockopt, connect, bind, send, recv}

  -- The local static variable is `none` before the first call.
  unfoldable pub get_context_instance : ℕ → Option Context → Context × Option Context
  get_context_instance threads none = (new_context threads, some (new_context threads))
  get_context_instance threads (some c) = (c, some c)

  -- The socket of a new object, `none` for an exception, and the static variable.
  unfoldable pub zmq_socket : ConnectionType → Bytes → Context → Option Socket
  zmq_socket req addr c =
      connect addr (setsockopt req_relaxed (setsockopt req_correlate (new_socket c req)))
  zmq_socket rep addr c = bind addr (new_socket c rep)
  zmq_socket pub_type addr c = bind addr (new_socket c pub_type)
  zmq_socket sub addr c = connect addr (setsockopt subscribe_all (new_socket c sub))

  unfoldable pub new_transport_zmq :
      ConnectionType → Bytes → Option Context → Option Socket × Option Context
  unfolding get_context_instance zmq_socket
  new_transport_zmq type addr static =
      let (context, static') = get_context_instance 1 static in
      (zmq_socket type addr context, static')

  -- The result is an `int`; `none` for an exception.
  unfoldable pub zmq_send : Bytes → Flags → Socket → Option ℤ × Socket
  zmq_send buf flags s =
      let (sent, s') = send (zmq_noblock flags) buf s in
      (Option.map (λ done. if done then to_int (length buf) else pos 0) sent, s')

  -- What is returned, with `*buf` after the call.
  unfoldable pub zmq_receive : Flags → Socket → Option (ℤ × Bytes) × Socket
  zmq_receive flags s =
      let (received, s') = recv (zmq_noblock flags) s in
      (Option.map (λ out. (to_int (length out.1), out.1)) received, s')

  -- All objects of a program share the context that the first one made, whatever they connect to.
  unfoldable pub shares : (types : List (ConnectionType × Bytes)) → Option Context → Option Context
  shares [] static = static
  shares ((type, addr) ∷ types) static = shares types (new_transport_zmq type addr static).1

  shares_kept :
      (types : List (ConnectionType × Bytes)) (c : Context) → shares types (some c) ≡ some c
  unfolding shares new_transport_zmq get_context_instance
  shares_kept [] c = refl
  shares_kept ((type, addr) ∷ types) c = shares_kept types c

  -- `receive` with nothing to receive returns 0 and empties the string. A message that comes is received
  -- with its length, if that is below 2^31. Whatever transports a program makes, each has its socket in
  -- the context that the first one made.
  pub zmq_receive-recv :
      (flags : Flags) (s : Socket) (m : Bytes) (first type : ConnectionType) (addr addr' : Bytes)
      (others : List (ConnectionType × Bytes))
      → ((recv (zmq_noblock flags) s).0 ≡ some (false, m)
          → (zmq_receive flags s).0 ≡ some (pos 0, []))
        × ((recv (zmq_noblock flags) s).0 ≡ some (true, m)
            → length m < 2_147_483_648
            → (zmq_receive flags s).0 ≡ some (pos (length m), m))
        × ((new_transport_zmq type addr (shares ((first, addr') ∷ others) none)).0
            ≡ zmq_socket type addr (new_context 1))
  unfolding zmq_receive new_transport_zmq shares get_context_instance
  zmq_receive-recv flags s m first type addr addr' others = (
    (λ e. rw (e, z.recv_nothing (zmq_noblock flags) s m e) refl),
    (λ e small. rw (e, to_int_small (length m) small) refl),
    rw (shares_kept others (new_context 1)) refl,
  )
