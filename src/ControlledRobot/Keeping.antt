-- ===== src/ControlledRobot/Keeping.antt =====
-- Every operation of the robot keeps it sound.
pub mod Requests
pub mod Sending
pub mod Updating
pub mod Application
