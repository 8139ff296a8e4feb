-- ===== src/Contest/Scoreboard/Service/Views.antt =====
-- internal/contest/scoreboard.go: which view of the board an actor gets, and when.
use soj.Prelude.{◌≡◌, ◌≤◌, refl, false, sym, arith, inl, inr, Bool-cases}
use soj.AppError.{ok}
use soj.Auth.{Actor}
use soj.Contest.Types.{Time, ContestRecord, ScoreboardView, before}
use soj.Contest.Scoreboard.Service.{default_scoreboard_view, can_view_scoreboard}

later :
    (t chosen checked : Time)
    → chosen ≤ checked
    → before chosen t ≡ false
    → before checked t ≡ false
later t chosen checked le h = ground arith

-- Whoever asks for no view in particular gets one that they may see, if the clock has not gone back
-- between the choice of the view and its check, and the freeze has not begun between the two.
pub can_view_scoreboard-default_scoreboard_view :
    (actor : Actor) (contest : ContestRecord) (chosen checked : Time)
    → chosen ≤ checked
    → before chosen contest.freeze_at ≡ before checked contest.freeze_at
    → can_view_scoreboard checked actor contest
        (default_scoreboard_view chosen contest ScoreboardView.unset)
      ≡ ok tt
unfolding can_view_scoreboard default_scoreboard_view
can_view_scoreboard-default_scoreboard_view actor contest chosen checked le same =
    elim (Bool-cases (before chosen contest.end_at)) [
      | inr e ↦ rw e (rw (later contest.end_at chosen checked le e) refl)
      | inl e ↦ elim (Bool-cases (before chosen contest.freeze_at)) [
        | inr f ↦ rw e (rw f (rw (sym same) (rw f refl)))
        | inl f ↦ rw e (rw f (rw (sym same) (rw f refl)))
      ]
    ]
