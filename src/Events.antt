-- ===== src/Events.antt =====
-- The events of include/boost/task/spin: a child module for each. The yields and interruption points between
-- two rounds of a loop change nothing; where a thread is interrupted there, its call ends.
pub mod AutoReset
pub mod CountDown
pub mod ManualReset
pub mod Rounds
pub mod Release
pub mod Overshoot
mod Tests
