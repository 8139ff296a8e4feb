-- ===== src/Submission/Lifecycle/Machine.antt =====
-- The judge task as a state machine, which the requests of internal/submission implement.
use soj.Prelude.{ℕ, ◌≡◌, refl, Bool, true, Option, none, some, List, String, arith, ◌==◌}
use soj.AppError.{ok}
use soj.Submission.Status.{terminal_status}
use soj.Submission.Tables.{TaskState, TaskRow, SubmissionRow, Tables, set, update}
use soj.Submission.Tables.Rows.{In, In-map, set-cases}
use soj.Submission.Tables.Tasks.{
  is_pending, in_flight, is_settled, is_dead, can_stall, once_dispatched, update_task,
}
use soj.Submission.Tables.Submissions.{
  update_submission, set_system_error, submission_in, is_open, system_error_row,
}
use soj.Submission.Repository.{
  Ledgers, text, mark_submission_system_error, fail_subject, rebuild_recovered,
}
use soj.Submission.Lifecycle.Rules.{
  After, kept, rolled_back, then_After, After-imp, read_After, if_After, write-After, put-After,
  update_or_After, last_After,
}

-- What a request may do to tasks.
pub data Label : Type 0 where
  nothing claiming publishing starting finishing failing putting_back recovering rejudging : Label

-- The transitions of a task, each under the one label that allows it; a task may stay as it is under
-- any of them.
pub data Edge : Label → TaskState → TaskState → Type 0 where
  stay : {l : Label} {s : TaskState} → Edge l s s
  claim : {s : TaskState} → is_pending s ≡ true → Edge Label.claiming s TaskState.dispatching
  publish : Edge Label.publishing TaskState.dispatching TaskState.dispatched
  start : {s : TaskState} → in_flight s ≡ true → Edge Label.starting s TaskState.running
  finish : {s : TaskState} → in_flight s ≡ true → Edge Label.finishing s TaskState.done
  fail : {s : TaskState} → in_flight s ≡ true → Edge Label.failing s TaskState.dead
  put_back : {s : TaskState} → in_flight s ≡ true → Edge Label.putting_back s TaskState.pending
  recover : {s : TaskState} → is_dead s ≡ true → Edge Label.recovering s TaskState.pending
  reopen : {s : TaskState} → is_settled s ≡ true → Edge Label.rejudging s TaskState.pending

-- Each row of `u` is one of `t`, whose task made a transition that the label allows or none.
abbrev pub Traced : {P : Type 0} → Label → Tables P → Tables P → Type 0
Traced l t u =
    (k : TaskRow)
    → In k u.tasks
    → (j : TaskRow) × In j t.tasks × (k.id ≡ j.id) × Edge l j.status k.status

pub once_dispatched-Edge : (s : TaskState) → Edge Label.publishing s (once_dispatched s)
once_dispatched-Edge TaskState.pending = stay
once_dispatched-Edge TaskState.dispatching = publish
once_dispatched-Edge TaskState.dispatched = stay
once_dispatched-Edge TaskState.running = stay
once_dispatched-Edge TaskState.done = stay
once_dispatched-Edge TaskState.dead = stay

pub stalled-in_flight : (s : TaskState) → can_stall s ≡ true → in_flight s ≡ true
stalled-in_flight s h = ground arith

pub same-Traced : {P : Type 0} {l : Label} (t : Tables P) → Traced l t t
same-Traced t k i = (k, i, refl, stay)

-- An update along the edges.
pub update_traced :
    {l : Label} (p : TaskRow → Bool) (f : TaskRow → TaskRow) (rows : List TaskRow)
    → ((j : TaskRow) → (f j).id ≡ j.id)
    → ((j : TaskRow) → p j ≡ true → Edge l j.status (f j).status)
    → (k : TaskRow) → In k (update p f rows)
    → (j : TaskRow) × In j rows × (k.id ≡ j.id) × Edge l j.status k.status
update_traced {l = l} p f rows same edge k i =
    let (j, ij, ej) = In-map (set p f) k rows i in
    (
      j,
      ij,
      rw ej (set-cases p f (λ x. x.id ≡ j.id) j (λ q. same j) (λ q. refl)),
      rw ej (set-cases p f (λ x. Edge l j.status x.status) j (λ q. edge j q) (λ q. stay)),
    )

module _ {P : Type 0} (t : Tables P) where
  pub statement-Traced :
      {l : Label} (p : TaskRow → Bool) (f : TaskRow → TaskRow)
      → ((j : TaskRow) → (f j).id ≡ j.id)
      → ((j : TaskRow) → p j ≡ true → Edge l j.status (f j).status)
      → After (λ _ u. Traced l t u) (update_task p f t)
  statement-Traced p f same edge =
      last_After p f t.tasks _ (λ x i e. update_traced p f t.tasks same edge)

  pub submission-Traced :
      {l : Label} (p : SubmissionRow → Bool) (f : SubmissionRow → SubmissionRow)
      → After (λ _ u. Traced l t u) (update_submission p f t)
  submission-Traced p f = last_After p f t.submissions _ (λ x i e. same-Traced t)

  module _ {L : Type 0} (ledgers : Ledgers P L) where
    system_error_same :
        (id : ℕ) (reason : String)
        → After (λ _ u. u.tasks ≡ t.tasks) (mark_submission_system_error ledgers id reason t)
    unfolding mark_submission_system_error set_system_error
    system_error_same id reason =
        read_After (λ r. r.id == id) t.submissions t _
          (λ row j e.
            if_After (terminal_status row.status) _ _ (λ o. kept refl)
              (λ o.
                write-After (ledgers.lock_contest_problem_projection row t.others) t _ (λ lock p.
                  update_or_After (submission_in id is_open) (system_error_row (text reason) t.now)
                    t.submissions _ _ _ (λ n. kept refl)
                    (λ x l q.
                      let failed = system_error_row (text reason) t.now x in
                      let u = record t {
                        submissions =
                            update (submission_in id is_open) (system_error_row (text reason) t.now)
                              t.submissions;
                        others = p;
                      } in
                      put-After (ledgers.rebuild_contest_problem_result u failed lock) u
                        (λ _ v. ok (failed, v)) (λ p'. kept refl)))))

    pub failure_same :
        (id : ℕ) (reason : String) (x : TaskRow) (o : Option ℕ)
        → x.submission_id ≡ o
        → After (λ _ u. u.tasks ≡ t.tasks) (fail_subject ledgers id reason x t)
    unfolding fail_subject
    failure_same id reason x none e = rw e (rolled_back _)
    failure_same id reason x (some submission) e = rw e (
        then_After (mark_submission_system_error ledgers submission reason t) _ (
          After-imp _ _ (mark_submission_system_error ledgers submission reason t)
            (λ a u k.
              put-After (ledgers.fail_active_rejudge_item id (text reason) u.others) u _
                (λ p. kept k))
            (system_error_same submission reason)))

    pub rebuilding_same :
        (submission : ℕ) (lock : L) (task : TaskRow)
        → After (λ _ u. u.tasks ≡ t.tasks) (rebuild_recovered ledgers submission lock task t)
    unfolding rebuild_recovered
    rebuilding_same submission lock task =
        if_After (ledgers.enabled lock) _ _
          (λ e.
            read_After (λ r. r.id == submission) t.submissions t _
              (λ r j f.
                put-After (ledgers.rebuild_contest_problem_result t r lock) t (λ _ u. ok (task, u))
                  (λ p. kept refl)))
          (λ e. kept refl)
