-- ===== src/Contest/Scoreboard/Ranking.antt =====
-- What the ranks of a board mean: `rankRows` gives each row one more than the rows that beat it.
use soj.Prelude.{
  ℕ, suc, ◌+◌, ◌≡◌, refl, ◌∙◌, ap, Bool, true, false, ◌&&◌, ◌||◌, Option, some, List, [], ◌∷◌,
  arith, count, count_ext, count-All, count_none, All-imp, All-zip, All-trivial, length, All,
  Bool-cases, inl, inr,
}
use soj.Prelude.Int.{ℤ, pos, to_int32, ltb_ℤ, eqb_ℤ}
use soj.Prelude.Sort.{sort, IsOrdered, sort-IsOrdered, count-sort, All-sort}
use soj.Contest.Scoreboard.Rows.{
  ScoreboardRow, ranks_before, ties, rank_of, assign_ranks, rank_rows,
}

-- Row `a` beats row `b`: it has more problems accepted, or as many with less penalty.
abbrev pub beats_by : ℤ → ℤ → ℤ → ℤ → Bool
beats_by n m p q = ltb_ℤ m n || eqb_ℤ n m && ltb_ℤ p q

abbrev pub beats : ScoreboardRow → ScoreboardRow → Bool
beats a b = beats_by a.accepted_count b.accepted_count a.penalty_minutes b.penalty_minutes

beats_by_trans :
    (a b c p q r : ℤ)
    → beats_by b a q p ≡ false
    → beats_by c b r q ≡ false
    → beats_by c a r p ≡ false
beats_by_trans a b c p q r h k = ground arith

-- `x` may stand before `y`.
abbrev pub NotBeaten : ScoreboardRow → ScoreboardRow → Type 0
NotBeaten x y = beats y x ≡ false

NotBeaten-trans : (x y z : ScoreboardRow) → NotBeaten x y → NotBeaten y z → NotBeaten x z
NotBeaten-trans x y z =
    beats_by_trans x.accepted_count y.accepted_count z.accepted_count x.penalty_minutes
      y.penalty_minutes z.penalty_minutes

ranks_before→NotBeaten : (x y : ScoreboardRow) → ranks_before y x ≡ true → NotBeaten y x
unfolding ranks_before
ranks_before→NotBeaten x y h = ground arith

not_ranks_before→NotBeaten : (x y : ScoreboardRow) → ranks_before y x ≡ false → NotBeaten x y
unfolding ranks_before
not_ranks_before→NotBeaten x y h = ground arith

beats_of_ties :
    (a b c p q r : ℤ) → eqb_ℤ b c ≡ true → eqb_ℤ q r ≡ true → beats_by a b p q ≡ beats_by a c p r
beats_of_ties a b c p q r h k = ground arith

beats_of_not_ties : (x y : ScoreboardRow) → ties y x ≡ false → NotBeaten x y → beats x y ≡ true
beats_of_not_ties x y h k = ground arith

beats_chain : (b x y : ScoreboardRow) → NotBeaten b x → beats x y ≡ true → beats b y ≡ true
beats_chain b x y h k = ground arith

beats_self : (x : ScoreboardRow) → beats x x ≡ false
beats_self x = ground arith

-- How many of `rows` beat `row`.
abbrev pub beaten_by : List ScoreboardRow → ScoreboardRow → ℕ
beaten_by rows row = count (λ other. beats other row) rows

-- The state of the loop after the rows `done`, the last of them `previous`.
abbrev Ready : List ScoreboardRow → Option ScoreboardRow → List ScoreboardRow → Type 0
Ready [] Option.none rows = Unit
Ready (d ∷ done) Option.none rows = ⊥
Ready done (some p) rows =
    All (λ b. NotBeaten b p) done
    × All (NotBeaten p) rows
    × (p.rank ≡ to_int32 (pos (suc (beaten_by done p))))

rank_of_tie :
    (done : List ScoreboardRow) (p row : ScoreboardRow)
    → ties row p ≡ true
    → beaten_by done p ≡ beaten_by done row
rank_of_tie done p row h =
    count_ext (λ b. beats b p) (λ b. beats b row) done
      λ b. ground (
        arith,
        beats_of_ties b.accepted_count row.accepted_count p.accepted_count b.penalty_minutes
            row.penalty_minutes p.penalty_minutes,
      )

rank_of_drop :
    (done : List ScoreboardRow) (p row : ScoreboardRow)
    → All (λ b. NotBeaten b p) done
    → NotBeaten p row
    → ties row p ≡ false
    → beaten_by done row ≡ length done
rank_of_drop done p row above h t =
    count-All (λ b. beats b row) done
      (All-imp (λ b. NotBeaten b p) (λ b. beats b row ≡ true)
        (λ b k. beats_chain b p row k (beats_of_not_ties p row t h)) done above)

rank_of-beaten_by :
    (done : List ScoreboardRow) (previous : Option ScoreboardRow) (row : ScoreboardRow)
    (rows : List ScoreboardRow)
    → Ready done previous (row ∷ rows)
    → rank_of (length done) previous row ≡ to_int32 (pos (suc (beaten_by done row)))
unfolding rank_of
rank_of-beaten_by [] Option.none row rows h = refl
rank_of-beaten_by (d ∷ done) Option.none row rows h = absurd h
rank_of-beaten_by done (some p) row rows h = elim (Bool-cases (ties row p)) [
  | inl t ↦ rw (t, h.2, rank_of_tie done p row t) refl
  | inr t ↦ rw (t, rank_of_drop done p row h.0 h.1.0 t) (ap (λ n. to_int32 (pos n)) (omega arith))
]

NotBeaten-by_rest :
    (row : ScoreboardRow) (rows : List ScoreboardRow)
    → All (NotBeaten row) rows
    → beaten_by (row ∷ rows) row ≡ 0
NotBeaten-by_rest row rows h = count_none (λ b. beats b row) (row ∷ rows) (beats_self row, h)

abbrev RankOk : List ScoreboardRow → List ScoreboardRow → ScoreboardRow → Type 0
RankOk done rows row = row.rank ≡ to_int32 (pos (suc (beaten_by done row + beaten_by rows row)))

RankOk-shift :
    (done : List ScoreboardRow) (row ranked : ScoreboardRow) (rows : List ScoreboardRow)
    → ((x : ScoreboardRow) → beats ranked x ≡ beats row x)
    → (x : ScoreboardRow) → RankOk (ranked ∷ done) rows x
    → RankOk done (row ∷ rows) x
RankOk-shift done row ranked rows same x h =
    h ∙ ap (λ n. to_int32 (pos (suc n))) (ground (arith, same x))

Ready-next :
    (done : List ScoreboardRow) (row : ScoreboardRow) (rows : List ScoreboardRow)
    → All (λ b. NotBeaten b row) done
    → All (NotBeaten row) rows
    → row.rank ≡ to_int32 (pos (suc (beaten_by done row)))
    → Ready (row ∷ done) (some row) rows
Ready-next done row rows above below e = ((beats_self row, above), below, rw (beats_self row) e)

assign_ranks-RankOk :
    (done : List ScoreboardRow) (previous : Option ScoreboardRow) (rows : List ScoreboardRow)
    → Ready done previous rows
    → All (λ row. All (λ b. NotBeaten b row) done) rows
    → IsOrdered NotBeaten rows
    → All (RankOk done rows) (assign_ranks (length done) previous rows)
unfolding assign_ranks
assign_ranks-RankOk done previous [] ready above ordered = tt
assign_ranks-RankOk done previous (row ∷ rows) ready above ordered =
    let rank = rank_of (length done) previous row in
    let ranked = record row { rank = rank } in
    let e : rank ≡ to_int32 (pos (suc (beaten_by done row))) =
      rank_of-beaten_by done previous row rows ready in
    (
      e ∙ ap (λ n. to_int32 (pos (suc n))) (omega (arith, NotBeaten-by_rest row rows ordered.0)),
      All-imp (RankOk (ranked ∷ done) rows) (RankOk done (row ∷ rows))
          (RankOk-shift done row ranked rows (λ x. refl))
          (assign_ranks (suc (length done)) (some ranked) rows)
          (assign_ranks-RankOk (ranked ∷ done) (some ranked) rows
            (Ready-next done ranked rows above.0 ordered.0 e)
            (All-zip (NotBeaten row) (λ r. All (λ b. NotBeaten b r) done) rows ordered.0 above.1)
            ordered.1),
    )

-- The rank of each row of a ranked board is one more than the number of the board's rows that beat
-- it (stored in an int32): equal rows share a rank, and the next rank is skipped as often.
pub rank_rows-beaten_by :
    (rows : List ScoreboardRow)
    → All (λ row. row.rank ≡ to_int32 (pos (suc (beaten_by rows row)))) (rank_rows rows)
unfolding rank_rows
rank_rows-beaten_by rows =
    let sorted = sort ranks_before rows in
    All-imp (RankOk [] sorted) (λ row. row.rank ≡ to_int32 (pos (suc (beaten_by rows row))))
      (λ row h.
        h
        ∙ ap (λ n. to_int32 (pos (suc n)))
            (omega (arith, count-sort ranks_before (λ b. beats b row) rows)))
      (assign_ranks 0 Option.none sorted)
      (assign_ranks-RankOk [] Option.none sorted tt (All-trivial sorted) (
        sort-IsOrdered NotBeaten NotBeaten-trans ranks_before ranks_before→NotBeaten
          not_ranks_before→NotBeaten rows))

All-assign_ranks :
    (P : ScoreboardRow → Type 0)
    → ((row : ScoreboardRow) (rank : ℤ) → P row → P (record row { rank = rank }))
    → (i : ℕ) (previous : Option ScoreboardRow) (rows : List ScoreboardRow) → All P rows
    → All P (assign_ranks i previous rows)
unfolding assign_ranks
All-assign_ranks P keep i previous [] h = tt
All-assign_ranks P keep i previous (row ∷ rows) h =
    let rank = rank_of i previous row in
    (
      keep row rank h.0,
      All-assign_ranks P keep (suc i) (some (record row { rank = rank })) rows h.1,
    )

-- What holds of the rows whatever their ranks holds of the ranked rows.
pub All-rank_rows :
    (P : ScoreboardRow → Type 0)
    → ((row : ScoreboardRow) (rank : ℤ) → P row → P (record row { rank = rank }))
    → (rows : List ScoreboardRow) → All P rows
    → All P (rank_rows rows)
unfolding rank_rows
All-rank_rows P keep rows h =
    All-assign_ranks P keep 0 Option.none (sort ranks_before rows) (All-sort ranks_before P rows h)

assign_ranks-IsOrdered :
    (i : ℕ) (previous : Option ScoreboardRow) (rows : List ScoreboardRow)
    → IsOrdered NotBeaten rows
    → IsOrdered NotBeaten (assign_ranks i previous rows)
unfolding assign_ranks
assign_ranks-IsOrdered i previous [] h = tt
assign_ranks-IsOrdered i previous (row ∷ rows) h =
    let ranked = record row { rank = rank_of i previous row } in
    (
      All-assign_ranks (NotBeaten ranked) (λ r k n. n) (suc i) (some ranked) rows h.0,
      assign_ranks-IsOrdered (suc i) (some ranked) rows h.1,
    )

count-assign_ranks :
    (p : ScoreboardRow → Bool)
    → ((row : ScoreboardRow) (rank : ℤ) → p (record row { rank = rank }) ≡ p row)
    → (i : ℕ) (previous : Option ScoreboardRow) (rows : List ScoreboardRow)
    → count p (assign_ranks i previous rows) ≡ count p rows
unfolding assign_ranks
count-assign_ranks p blind i previous [] = refl
count-assign_ranks p blind i previous (row ∷ rows) =
    let rank = rank_of i previous row in
    ground (
      arith,
      blind row rank,
      count-assign_ranks p blind (suc i) (some (record row { rank = rank })) rows,
    )

-- A ranked board shows no row below one that it beats, and holds the given rows: any test that does
-- not look at the rank is passed by as many rows as before.
pub rank_rows_sorts :
    (rows : List ScoreboardRow) (p : ScoreboardRow → Bool)
    → ((row : ScoreboardRow) (rank : ℤ) → p (record row { rank = rank }) ≡ p row)
    → IsOrdered NotBeaten (rank_rows rows) × (count p (rank_rows rows) ≡ count p rows)
unfolding rank_rows
rank_rows_sorts rows p blind = (
  assign_ranks-IsOrdered 0 Option.none (sort ranks_before rows) (
      sort-IsOrdered NotBeaten NotBeaten-trans ranks_before ranks_before→NotBeaten
        not_ranks_before→NotBeaten rows),
  count-assign_ranks p blind 0 Option.none (sort ranks_before rows)
      ∙ count-sort ranks_before p rows,
)
