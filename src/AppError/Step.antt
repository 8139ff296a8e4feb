-- ===== src/AppError/Step.antt =====
-- Fallible calls that change a state: a Go method that returns `(T, error)`.
use soj.AppError.{Result, ok, err}

-- A call that may fail and that changes the state `S`.
abbrev pub Step : Type 0 → Type 0 → Type 0
Step S A = S → Result A × S

abbrev pub resume : {S A B : Type 0} → Result A → S → (A → Step S B) → Result B × S
resume (ok a) s f = f a s
resume (err e) s f = (err e, s)

infixl 5 ◌then_do◌
abbrev pub ◌then_do◌ : {S A B : Type 0} → Step S A → (A → Step S B) → Step S B
(m then_do f) s = resume (m s).0 (m s).1 f

abbrev pub return : {S A : Type 0} → A → Step S A
return a s = (ok a, s)
