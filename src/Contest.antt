-- ===== src/Contest.antt =====
-- internal/contest: contests, their access rules, policies and scoreboards.
pub mod Types
pub mod Access
pub mod Policy
pub mod Scoreboard
