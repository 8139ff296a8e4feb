-- ===== src/Contest/Types.antt =====
-- The records and constants of internal/contest/service.go. Instants are nanoseconds since Go's
-- zero time, identifiers are database keys and so natural numbers, and an `int32` is an integer in
-- range that is wrapped at each write. A string constant is a constructor, any other text `other`.
use soj.Prelude.{
  ℕ, ◌-◌, ◌/◌, Bool, true, false, Option, List, String, ltb, leb, str_eq, if◌then◌else◌,
}
use soj.Submission.Status.{Status}
use soj.Prelude.Int.{ℤ, pos, sub_ℕ}

abbrev pub Time : Type 0
Time = ℕ

-- `a.Before(b)` and `a.After(b)`
abbrev pub before : Time → Time → Bool
before a b = ltb a b

abbrev pub after : Time → Time → Bool
after a b = ltb b a

-- `Sub` stops at the largest and at the least int64.
abbrev pub saturated : ℕ → ℕ → ℕ
saturated most n = if leb n most then n else most

-- `int32(a.Sub(b).Minutes())`: the minutes from `b` to `a`, cut towards zero. They fit an int32, since
-- `Sub` saturates near 292 years. The float64 that `Minutes` returns rounds to the same integer for the
-- microsecond instants that the database keeps.
abbrev pub minutes_between : Time → Time → ℤ
minutes_between a b =
    if leb b a
    then pos (saturated 9223372036854775807 (a - b) / 60000000000)
    else sub_ℕ 0 (saturated 9223372036854775808 (b - a) / 60000000000)

pub data Visibility : Type 0 where
  public private : Visibility
  other : String → Visibility

pub data ContestStatus : Type 0 where
  draft published running ended archived : ContestStatus
  other : String → ContestStatus

pub data RegistrationStatus : Type 0 where
  active canceled : RegistrationStatus
  other : String → RegistrationStatus

abbrev pub is_active : RegistrationStatus → Bool
is_active RegistrationStatus.active = true
is_active _ = false

-- The status of a cell, and of a stored problem result.
pub data CellStatus : Type 0 where
  none attempted accepted frozen : CellStatus
  other : String → CellStatus

abbrev pub is_accepted : CellStatus → Bool
is_accepted CellStatus.accepted = true
is_accepted _ = false

pub data ScoreboardView : Type 0 where
  unset live frozen final : ScoreboardView
  other : String → ScoreboardView

abbrev pub is_frozen_view : ScoreboardView → Bool
is_frozen_view ScoreboardView.frozen = true
is_frozen_view _ = false

abbrev pub is_unset : ScoreboardView → Bool
is_unset ScoreboardView.unset = true
is_unset _ = false

-- The test of two view names for equality.
abbrev pub same_view : ScoreboardView → ScoreboardView → Bool
same_view ScoreboardView.unset ScoreboardView.unset = true
same_view ScoreboardView.live ScoreboardView.live = true
same_view ScoreboardView.frozen ScoreboardView.frozen = true
same_view ScoreboardView.final ScoreboardView.final = true
same_view (ScoreboardView.other s) (ScoreboardView.other t) = str_eq s t
same_view _ _ = false

pub record ContestProblem : Type 0 where
  pub contest_id : ℕ
  pub problem_id : ℕ
  pub alias : String
  pub sort_order : ℤ
  pub title : String

pub record ContestRecord : Type 0 where
  pub id : ℕ
  pub owner_user_id : ℕ
  pub title : String
  pub description : Option String
  pub visibility : Visibility
  pub status : ContestStatus
  pub start_at : Time
  pub end_at : Time
  pub freeze_at : Time
  pub invite_code_hash : String
  pub score_revision : ℕ
  pub registered : Bool
  pub problems : List ContestProblem

pub record ContestRegistration : Type 0 where
  pub id : ℕ
  pub contest_id : ℕ
  pub user_id : ℕ
  pub display_name : String
  pub email : String
  pub status : RegistrationStatus
  pub registered_at : Time
  pub accepted_count : ℤ
  pub penalty_minutes : ℤ

pub record ContestProblemResult : Type 0 where
  pub contest_id : ℕ
  pub user_id : ℕ
  pub problem_id : ℕ
  pub status : CellStatus
  pub attempts : ℤ
  pub accepted_at : Option Time
  pub penalty_minutes : ℤ
  pub last_submission_id : Option ℕ

pub record ContestSubmissionResult : Type 0 where
  pub id : ℕ
  pub contest_id : ℕ
  pub user_id : ℕ
  pub problem_id : ℕ
  pub status : Status
  pub submitted_at : Time
  pub judged_at : Time
  pub first_judged_at : Option Time
