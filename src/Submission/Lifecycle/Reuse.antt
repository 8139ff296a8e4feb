-- ===== src/Submission/Lifecycle/Reuse.antt =====
-- Asking twice for the attempt of a task: EnsureJudgeAttempt of
-- internal/submission/judge_repository.go.
use soj.Prelude.{
  ℕ, ◌+◌, ◌<◌, ◌≡◌, refl, ap, sym, ◌∙◌, Bool, true, false, Bool-cases, inl, inr, Option, none, some,
  List, [], ◌∷◌, ◌++◌, filter, arith, if◌then◌else◌, ◌==◌, some_injective,
}
use soj.AppError.{ok}
use soj.AppError.Bind.{ok_injective}
use soj.Submission.Tables.{AttemptRow, Tables, refers}
use soj.Submission.Repository.Attempts.{
  EnsureJudgeAttemptInput, QueuedItem, ItemStore, newer, newest, first_of, is_of,
  latest_attempt_for_subject, is_reusable, new_attempt, create_attempt, reuse_attempt,
  follow_attempt, ensure_for_task, ensure_from, ensure_judge_attempt,
}

newest-append :
    (a row : AttemptRow) (xs : List AttemptRow)
    → newest a (xs ++ (row ∷ [])) ≡ (if newer row (newest a xs) then row else newest a xs)
newest-append a row [] = refl
newest-append a row (x ∷ xs) = newest-append (if newer x a then x else a) row xs

first_of-append :
    (row a : AttemptRow) (xs : List AttemptRow)
    → first_of xs ≡ some a
    → newer row a ≡ true
    → first_of (xs ++ (row ∷ [])) ≡ some row
first_of-append row a [] e n = ground arith
first_of-append row a (x ∷ xs) e n =
    let best : newest x xs ≡ a = some_injective e in
    ap (λ (b : AttemptRow). some b)
      (newest-append x row xs
        ∙ ap (λ (b : AttemptRow). if newer row b then row else b) best
        ∙ rw n refl)

first_of-none :
    (row : AttemptRow) (xs : List AttemptRow)
    → first_of xs ≡ none
    → first_of (xs ++ (row ∷ [])) ≡ some row
first_of-none row [] e = refl
first_of-none row (x ∷ xs) e = ground arith

filter-append :
    {A : Type 0} (p : A → Bool) (row : A) (xs : List A)
    → p row ≡ true
    → filter p (xs ++ (row ∷ [])) ≡ filter p xs ++ (row ∷ [])
filter-append p row [] e = rw e refl
filter-append p row (x ∷ xs) e = elim (Bool-cases (p x)) [
  | inl q ↦ rw q (ap (λ l. x ∷ l) (filter-append p row xs e))
  | inr q ↦ rw q (filter-append p row xs e)
]

refers_self : (n : ℕ) → refers (some n) n ≡ true
refers_self n = ground arith

module _ {P : Type 0} (store : ItemStore P) (input : EnsureJudgeAttemptInput) where
  -- The input names a submission or a run.
  abbrev pub HasSubject : Type 0
  HasSubject =
      (attempts : List AttemptRow)
      → latest_attempt_for_subject input attempts ≡ ok (first_of (filter (is_of input) attempts))

  new_is_of :
      (n : ℕ) (item : Option QueuedItem) (t : Tables P) (s r : Option ℕ)
      → input.submission_id ≡ s
      → input.run_id ≡ r
      → HasSubject
      → is_of input (new_attempt store input n item t) ≡ true
  unfolding latest_attempt_for_subject
  new_is_of n item t (some k) r e f h = rw e (refers_self k)
  new_is_of n item t none (some k) e f h = rw (e, f, f) (refers_self k)
  new_is_of n item t none none e f h = absurd (ground (arith, e, f, h []))

  module _ (t : Tables P) (subject : HasSubject) (task : 0 < input.task_id)
      (language : 0 < input.language_id)
      (free : store.queued_item input.task_id t.others ≡ ok none) where
    -- What the function does where no item waits.
    ensure_follows :
        (xs : List AttemptRow) (o : Option AttemptRow)
        → first_of (filter (is_of input) xs) ≡ o
        → ensure_for_task store input (record t { attempts = xs })
          ≡ follow_attempt store input o none (record t { attempts = xs })
    unfolding ensure_for_task
    ensure_follows xs o e = rw (free, not_zero, subject xs, e) refl
      where
        not_zero : (input.language_id == 0) ≡ false
        not_zero = ground arith

    reusable : (n : ℕ) → is_reusable input (new_attempt store input n none t) ≡ true
    reusable n = rw not_zero (rw (refers_self input.task_id) refl)
      where
        not_zero : (input.task_id == 0) ≡ false
        not_zero = ground arith

    -- A new attempt that is the newest one is taken up again.
    created_again :
        (n : ℕ) (u : Tables P) (row : AttemptRow)
        → first_of (filter (is_of input) t.attempts ++ (new_attempt store input n none t ∷ []))
          ≡ some (new_attempt store input n none t)
        → create_attempt store input n none t ≡ ok (row, u)
        → ensure_for_task store input u ≡ ok (row, u)
    unfolding create_attempt follow_attempt reuse_attempt
    created_again n u row first e = rw (← after, ← is_row) again
      where
        fresh : AttemptRow
        fresh = new_attempt store input n none t

        xs : List AttemptRow
        xs = t.attempts ++ (fresh ∷ [])

        same : ◌≡◌ {A = AttemptRow × Tables P} (fresh, record t { attempts = xs }) (row, u)
        same = ok_injective e

        is_row : fresh ≡ row
        is_row = ap (λ (p : AttemptRow × Tables P). p.0) same

        after : record t { attempts = xs } ≡ u
        after = ap (λ (p : AttemptRow × Tables P). p.1) same

        found : first_of (filter (is_of input) xs) ≡ some fresh
        found =
            ap first_of (
              filter-append (is_of input) fresh t.attempts
                (new_is_of n none t input.submission_id input.run_id refl refl subject))
            ∙ first

        again :
            ensure_for_task store input (record t { attempts = xs })
            ≡ ok (fresh, record t { attempts = xs })
        again = ensure_follows xs (some fresh) found ∙ rw (reusable n) refl

    follow_again :
        (o : Option AttemptRow) (u : Tables P) (row : AttemptRow)
        → first_of (filter (is_of input) t.attempts) ≡ o
        → follow_attempt store input o none t ≡ ok (row, u)
        → ensure_for_task store input u ≡ ok (row, u)
    unfolding follow_attempt reuse_attempt
    follow_again none u row e f =
        created_again 1 u row (first_of-none _ (filter (is_of input) t.attempts) e) f
    follow_again (some a) u row e f = elim (Bool-cases (is_reusable input a)) [
      | inr q ↦
          created_again (a.attempt_no + 1) u row
            (first_of-append _ a (filter (is_of input) t.attempts) e newest_one) (rw q at f)
      | inl q ↦
          let same : ◌≡◌ {A = AttemptRow × Tables P} (a, t) (row, u) = ok_injective (rw q at f) in
          let after : t ≡ u = ap (λ (p : AttemptRow × Tables P). p.1) same in
          rw (← after) (ensure_follows t.attempts (some a) e ∙ f ∙ rw (← after) refl)
    ]
      where
        newest_one : newer (new_attempt store input (a.attempt_no + 1) none t) a ≡ true
        newest_one = ground arith

    ensured_again :
        (u : Tables P) (row : AttemptRow)
        → ensure_for_task store input t ≡ ok (row, u)
        → ensure_for_task store input u ≡ ok (row, u)
    ensured_again u row e =
        follow_again (first_of (filter (is_of input) t.attempts)) u row refl
          (sym (ensure_follows t.attempts (first_of (filter (is_of input) t.attempts)) refl) ∙ e)

  without_id :
      (t : Tables P)
      → input.attempt_id ≡ none
      → ensure_judge_attempt store input t ≡ ensure_for_task store input t
  unfolding ensure_judge_attempt ensure_from
  without_id t e = ap (λ o. ensure_from store input o t) e

  -- Asking again for the attempt of a task, where the input has no attempt but a subject, a task and a
  -- language, and where no rejudge waits, returns the attempt of the first time and changes nothing.
  pub ensure_twice :
      (t u : Tables P) (row : AttemptRow)
      → HasSubject
      → 0 < input.task_id
      → 0 < input.language_id
      → store.queued_item input.task_id t.others ≡ ok none
      → input.attempt_id ≡ none
      → ensure_judge_attempt store input t ≡ ok (row, u)
      → ensure_judge_attempt store input u ≡ ok (row, u)
  ensure_twice t u row subject task language free fresh e =
      without_id u fresh
      ∙ ensured_again t subject task language free u row (sym (without_id t fresh) ∙ e)
