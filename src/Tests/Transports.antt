-- ===== src/Tests/Transports.antt =====
-- Concrete cases for the transports.
use robot_remote_control.Base.{
  length, true, Option, none, some, List, ◌≡◌, refl, [], ◌∷◌, ok, arith,
}
use robot_remote_control.Base.Int.{pos}
use robot_remote_control.Bytes.{Bytes}
use robot_remote_control.Transport.{link, noblock, none_flag}
use robot_remote_control.GzipTransport.{Zlib, compressed, gzip_receive, gzip_receive-compressed}
use robot_remote_control.UdtTransport.{Udt, UdtTransport, Remembers, udt_send, udt_receive}
use robot_remote_control.UdtTransport.Connecting.{
  Accepted, Call, sending, accepting, server, or_invalid, new_transport, make_calls,
  make_calls-new_transport,
}
use robot_remote_control.Tests.Samples.{waiting}

-- A zlib that copies at the levels that it knows.
abbrev stored : Zlib
stored = record {
  compress_bound = λ n. n;
  compress2 = λ source room level. (pos 0, source);
  uncompress = λ destination room source. (pos 0, source);
  uncompress-compress2 = λ source destination level known long. (refl, refl);
}

gzip_receive-compressed_example :
    (gzip_receive stored
      (pos 9)
      link
      (1 ∷ 1 ∷ 1 ∷ [])
      noblock
      (waiting (compressed stored (pos 9) link (7 ∷ 8 ∷ []) ∷ []))).0
    ≡ ok (pos 2, 7 ∷ 8 ∷ [])
gzip_receive-compressed_example =
    gzip_receive-compressed stored (pos 9) link (7 ∷ 8 ∷ []) (1 ∷ 1 ∷ 1 ∷ []) noblock
      (waiting (compressed stored (pos 9) link (7 ∷ 8 ∷ []) ∷ [])) (omega arith) (omega arith) refl

-- A socket on which three bytes wait, and which sends everything.
abbrev sockets : Udt
sockets = record {
  Socket = Bytes;
  sendmsg = λ blocking limit message s. (some (length message), s);
  recvmsg = λ blocking limit room s. (some s, []);
}

-- A client, on a socket that waits.
abbrev client : Accepted (Option Bytes)
client = record {
  socket = some (1 ∷ 2 ∷ 3 ∷ []);
  sndsyn = true;
  rcvsyn = true;
  sndtimeo = none;
  rcvtimeo = none;
}

-- A server that was used without waiting, and then accepted a client.
abbrev calls : List (Call sockets)
calls = sending (4 ∷ []) noblock ∷ accepting client ∷ []

abbrev accepted : UdtTransport (Option Bytes)
accepted = (make_calls sockets calls (new_transport sockets server 100 none)).transport

make_calls-new_transport_example :
    Remembers (or_invalid sockets) accepted
    × ((udt_send (or_invalid sockets) (4 ∷ []) none_flag accepted).0 ≡ 1)
    × ((udt_receive (or_invalid sockets) (4 ∷ []) none_flag accepted).1 ≡ 1 ∷ 2 ∷ 3 ∷ [])
unfolding make_calls new_transport
make_calls-new_transport_example =
    make_calls-new_transport sockets server 100 none calls (4 ∷ []) none_flag accepted refl
