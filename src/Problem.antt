-- ===== src/Problem.antt =====
-- internal/problem: who may do what with a problem, what publishing asks for, and the review.
pub mod Policy
pub mod Readiness
pub mod Review
