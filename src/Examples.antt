-- ===== src/Examples.antt =====
-- The theorems at concrete inputs.
mod Contests
mod Boards
mod Judging
mod Reviews
mod Tasks
mod Attempts
mod Dispatch
