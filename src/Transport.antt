-- ===== src/Transport.antt =====
-- src/Transports/Transport.hpp: the interface `Transport`, which applications implement. The state is
-- the one of the connection and of the peer behind it, so what a call returns may be anything.
use robot_remote_control.Base.{ℕ, Option, some, List, [], ◌∷◌, ◌++◌, length}
use robot_remote_control.Bytes.{Bytes}

pub data Flags : Type 0 where
  none_flag noblock : Flags

pub record Transport : Type 1 where
  pub State : Type 0
  -- The number of bytes sent, or `none` for an exception.
  pub send : Bytes → Flags → State → Option ℕ × State
  -- The number that is returned, 0 if there was nothing, and what `*buf` holds then.
  pub receive : Flags → State → ℕ × Bytes × State

-- A connection with the messages that wait, and those that were sent.
pub record Link : Type 0 where
  pub inbox : List Bytes
  pub outbox : List Bytes

abbrev pub link_receive : List Bytes → List Bytes → ℕ × Bytes × Link
link_receive [] sent = (0, [], record { inbox = []; outbox = sent })
link_receive (m ∷ ms) sent = (length m, m, record { inbox = ms; outbox = sent })

abbrev pub link : Transport
link = record {
  State = Link;
  send = λ m flags l. (some (length m), record l { outbox = l.outbox ++ m ∷ [] });
  receive = λ flags l. link_receive l.inbox l.outbox;
}
