-- ===== src/Judge.antt =====
-- internal/judge, internal/judge/events and internal/judgecore: verdicts, results, and the judging.
pub mod Verdict
pub mod Result
pub mod Events
pub mod Core
