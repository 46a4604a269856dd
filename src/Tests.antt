-- ===== src/Tests.antt =====
-- Concrete data, runs of the code on it, and applications of the theorems to it.
pub mod Data
mod Domain
mod Books
mod Calls
mod Runs
mod Service
mod Live
mod Reversals
mod Loops
