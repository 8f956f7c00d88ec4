-- ===== src/MessageTypes/Level.antt =====
-- src/MessageTypes.hpp: `LogLevel`
use robot_remote_control.Base.{ℕ}

abbrev pub none_level : ℕ
none_level = 0

abbrev pub fatal : ℕ
fatal = 1

abbrev pub error : ℕ
error = 2

abbrev pub warn : ℕ
warn = 3

abbrev pub info : ℕ
info = 4

abbrev pub debug : ℕ
debug = 5

abbrev pub custom : ℕ
custom = 20
