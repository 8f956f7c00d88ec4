-- ===== src/Env.antt =====
-- What the library uses and does not implement: `float` arithmetic, the generated message classes
-- and the transports.
use robot_remote_control.Floats.{Floats}
use robot_remote_control.Types.{Protobuf}
use robot_remote_control.Transport.{Transport}

pub record Env : Type 1 where
  pub floats : Floats
  pub protobuf : Protobuf floats.Float
  pub transport : Transport
