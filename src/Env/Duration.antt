-- ===== src/Env/Duration.antt =====
-- The durations of env/env.go: what `Duration` calls of Go's library, and the proofs about it.
pub mod Parse
pub mod Text
pub mod Clock
pub mod Termination
pub mod Numbers
pub mod Shown
pub mod Seconds
pub mod Times
