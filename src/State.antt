-- ===== src/State.antt =====
-- pkg/state: the vector clocks, the ticket state machine and the notifier.
pub mod VectorClock
pub mod Machine
pub mod Notifier
