-- ===== src/Tests.antt =====
-- Concrete runs of the model, and concrete cases of its theorems.
pub mod Samples
pub mod Buffers
pub mod Robot
pub mod Messages
pub mod Controller
pub mod Threads
mod Streams
mod Extended
mod Moving
pub mod Transports
pub mod Sessions
mod Lockables
mod Conversions
mod Counting
