-- ===== src/MessageTypes.antt =====
-- src/MessageTypes.hpp: the numbers of the messages. A type is a `uint16_t`, and may be any such
-- number: those of an application come behind the last of each enumeration.
pub mod Control
pub mod Telemetry
pub mod Level
