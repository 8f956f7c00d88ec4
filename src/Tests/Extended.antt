-- ===== src/Tests/Extended.antt =====
-- A concrete case for the extended robot.
use robot_remote_control.Base.{[], ◌∷◌}
use robot_remote_control.MessageTypes.Control
use robot_remote_control.Extension.{control_class, telemetry_class}
use robot_remote_control.Tests.Samples.{Note}

abbrev a_control : Note
a_control = record { class_of = control_class; content = 4 ∷ [] }

abbrev a_sample : Note
a_sample = record { class_of = telemetry_class; content = 5 ∷ [] }
