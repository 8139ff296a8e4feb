-- ===== src/Contest/Scoreboard/Paging.antt =====
-- The ranks that the pages of a live board show are those of the whole board.
use soj.Prelude.{
  ℕ, suc, ◌+◌, ◌<◌, ◌≡◌, refl, sym, ap, ◌∙◌, true, false, Option, some, List, [], ◌∷◌, ◌++◌, arith,
  if◌then◌else◌, length, flatten, All,
}
use mathlib.Core.Path.{ap₂}
use soj.Prelude.Int.{pos, ◌+ℤ◌, to_int32, eqb_ℤ, to_int32-add, to_int32-add_right, pos-add}
use soj.Contest.Types.{ScoreboardView}
use soj.Contest.Scoreboard.Rows.{ScoreboardRow, ties, rank_of, assign_ranks}
use soj.Contest.Scoreboard.Cursor.{
  ScoreboardCursor, zero_cursor, page_rank, page_ranks_from, apply_page_ranks,
}
use soj.Contest.Scoreboard.Live.{next_cursor, last_from, get_last}

module _ (contest_id : ℕ) (view : ScoreboardView) where
  -- A reader who follows the cursors: the rows of page after page, as they are shown.
  unfoldable pub follow_pages : ScoreboardCursor → List (List ScoreboardRow) → List ScoreboardRow
  follow_pages cursor [] = []
  follow_pages cursor (page ∷ pages) =
      let rows = apply_page_ranks cursor page in
      rows ++ elim (get_last rows) [
        | Option.none ↦ []
        | some last ↦ follow_pages (next_cursor contest_id view cursor rows last) pages
      ]

-- The cursor of a reader who has seen `n` rows, the last of them `previous`.
abbrev Follows : ScoreboardCursor → ℕ → Option ScoreboardRow → Type 0
Follows cursor n Option.none =
    (n ≡ 0) × (eqb_ℤ cursor.contest_id (pos 0) ≡ true) × (cursor.rows_seen ≡ pos 0)
Follows cursor n (some p) =
    (eqb_ℤ cursor.contest_id (pos 0) ≡ false)
    × (cursor.after_accepted_count ≡ p.accepted_count)
    × (cursor.after_penalty ≡ p.penalty_minutes)
    × (cursor.last_rank ≡ p.rank)
    × (cursor.rows_seen ≡ to_int32 (pos n))

sum_32 : (n i : ℕ) → to_int32 (to_int32 (pos n) +ℤ to_int32 (pos i)) ≡ to_int32 (pos (n + i))
sum_32 n i =
    to_int32-add (pos n) (to_int32 (pos i))
    ∙ to_int32-add_right (pos n) (pos i)
    ∙ ap to_int32 (pos-add n i)

rank_32 :
    (n i : ℕ)
    → to_int32 (to_int32 (to_int32 (pos n) +ℤ to_int32 (pos i)) +ℤ pos 1)
      ≡ to_int32 (pos (n + i + 1))
rank_32 n i =
    ap (λ z. to_int32 (z +ℤ pos 1)) (sum_32 n i)
    ∙ to_int32-add (pos (n + i)) (pos 1)
    ∙ ap to_int32 (pos-add (n + i) 1)

page_rank-rank_of :
    (cursor : ScoreboardCursor) (n i : ℕ) (p row : ScoreboardRow)
    → cursor.rows_seen ≡ to_int32 (pos n)
    → page_rank cursor i (some p) row ≡ rank_of (n + i) (some p) row
unfolding page_rank rank_of
page_rank-rank_of cursor n i p row h = rw (h, rank_32 n i) refl

page_ranks_from-assign_ranks :
    (cursor : ScoreboardCursor) (n i : ℕ) (p : ScoreboardRow) (rows : List ScoreboardRow)
    → cursor.rows_seen ≡ to_int32 (pos n)
    → page_ranks_from cursor i (some p) rows ≡ assign_ranks (n + i) (some p) rows
unfolding page_ranks_from assign_ranks
page_ranks_from-assign_ranks cursor n i p [] h = refl
page_ranks_from-assign_ranks cursor n i p (row ∷ rows) h =
    rw (page_rank-rank_of cursor n i p row h) (
      let ranked = record row { rank = rank_of (n + i) (some p) row } in
      ap (λ l. ranked ∷ l)
        (page_ranks_from-assign_ranks cursor n (suc i) ranked rows h
          ∙ ap (λ k. assign_ranks k (some ranked) rows) (omega arith)))

first_rank :
    (cursor : ScoreboardCursor) (n : ℕ) (previous : Option ScoreboardRow) (row : ScoreboardRow)
    → Follows cursor n previous
    → page_rank cursor 0 Option.none row ≡ rank_of n previous row
unfolding page_rank rank_of ◌+ℤ◌ to_int32
first_rank cursor n Option.none row h = rw (h.1, h.2, h.0) refl
first_rank cursor n (some p) row h =
    rw (h.0, h.1, h.2, h.3, h.4, rank_32 n 0)
      (ap (λ k. if ties row p then p.rank else to_int32 (pos (k + 1))) (omega arith))

apply_page_ranks-assign_ranks :
    (cursor : ScoreboardCursor) (n : ℕ) (previous : Option ScoreboardRow)
    (rows : List ScoreboardRow)
    → Follows cursor n previous
    → cursor.rows_seen ≡ to_int32 (pos n)
    → apply_page_ranks cursor rows ≡ assign_ranks n previous rows
unfolding apply_page_ranks page_ranks_from assign_ranks
apply_page_ranks-assign_ranks cursor n previous [] h seen = refl
apply_page_ranks-assign_ranks cursor n previous (row ∷ rows) h seen =
    rw (first_rank cursor n previous row h) (
      let ranked = record row { rank = rank_of n previous row } in
      ap (λ l. ranked ∷ l)
        (page_ranks_from-assign_ranks cursor n 1 ranked rows seen
          ∙ ap (λ k. assign_ranks k (some ranked) rows) (omega arith)))

seen_of_Follows :
    (cursor : ScoreboardCursor) (n : ℕ) (previous : Option ScoreboardRow)
    → Follows cursor n previous
    → cursor.rows_seen ≡ to_int32 (pos n)
unfolding to_int32
seen_of_Follows cursor n Option.none h = rw (h.0, h.2) refl
seen_of_Follows cursor n (some p) h = h.4

assign_ranks-append :
    (n : ℕ) (previous : Option ScoreboardRow) (xs ys : List ScoreboardRow)
    → assign_ranks n previous (xs ++ ys)
      ≡ assign_ranks n previous xs
        ++ assign_ranks (n + length xs) (last_from previous (assign_ranks n previous xs)) ys
unfolding assign_ranks
assign_ranks-append n previous [] ys = ap (λ k. assign_ranks k previous ys) (omega arith)
assign_ranks-append n previous (x ∷ xs) ys =
    let ranked = record x { rank = rank_of n previous x } in
    let rest = assign_ranks (suc n) (some ranked) xs in
    ap (λ l. ranked ∷ l)
      (assign_ranks-append (suc n) (some ranked) xs ys
        ∙ ap (λ k. rest ++ assign_ranks k (last_from (some ranked) rest) ys) (omega arith))

length-assign_ranks :
    (n : ℕ) (previous : Option ScoreboardRow) (rows : List ScoreboardRow)
    → length (assign_ranks n previous rows) ≡ length rows
unfolding assign_ranks
length-assign_ranks n previous [] = refl
length-assign_ranks n previous (row ∷ rows) =
    ap suc (length-assign_ranks (suc n) (some (record row { rank = rank_of n previous row })) rows)

last_from-some :
    (x : ScoreboardRow) (xs : List ScoreboardRow)
    → (last : ScoreboardRow) × (last_from (some x) xs ≡ some last)
last_from-some x [] = (x, refl)
last_from-some x (y ∷ ys) = last_from-some y ys

abbrev IsNonempty : List ScoreboardRow → Type 0
IsNonempty [] = ⊥
IsNonempty (row ∷ rows) = Unit

-- A page of ranked rows has a last row, whatever stands before it.
assign_ranks_last :
    (n : ℕ) (previous before : Option ScoreboardRow) (rows : List ScoreboardRow)
    → IsNonempty rows
    → (last : ScoreboardRow) × (last_from before (assign_ranks n previous rows) ≡ some last)
unfolding assign_ranks
assign_ranks_last n previous before [] h = absurd h
assign_ranks_last n previous before (row ∷ rows) h =
    let ranked = record row { rank = rank_of n previous row } in
    last_from-some ranked (assign_ranks (suc n) (some ranked) rows)

last_from_blind :
    (n : ℕ) (previous before : Option ScoreboardRow) (rows : List ScoreboardRow)
    → IsNonempty rows
    → last_from before (assign_ranks n previous rows) ≡ get_last (assign_ranks n previous rows)
unfolding assign_ranks
last_from_blind n previous before [] h = absurd h
last_from_blind n previous before (row ∷ rows) h = refl

module _ (contest_id : ℕ) (view : ScoreboardView) (positive : 0 < contest_id) where
  Follows-next_cursor :
      (cursor : ScoreboardCursor) (n : ℕ) (rows : List ScoreboardRow) (last : ScoreboardRow)
      → cursor.rows_seen ≡ to_int32 (pos n)
      → (k : ℕ) → length rows ≡ k
      → Follows (next_cursor contest_id view cursor rows last) (n + k) (some last)
  unfolding next_cursor
  Follows-next_cursor cursor n rows last h k e =
      (ground arith, refl, refl, refl, rw (h, e) (sum_32 n k))

  follow_pages-from :
      (cursor : ScoreboardCursor) (n : ℕ) (previous : Option ScoreboardRow)
      (pages : List (List ScoreboardRow))
      → Follows cursor n previous
      → All IsNonempty pages
      → follow_pages contest_id view cursor pages ≡ assign_ranks n previous (flatten pages)
  unfolding follow_pages
  follow_pages-from cursor n previous [] h full = unfold assign_ranks in refl
  follow_pages-from cursor n previous (page ∷ pages) h full =
      let seen = seen_of_Follows cursor n previous h in
      let shown = apply_page_ranks cursor page in
      let ranked = assign_ranks n previous page in
      let same : shown ≡ ranked = apply_page_ranks-assign_ranks cursor n previous page h seen in
      let (last, e) = assign_ranks_last n previous previous page full.0 in
      let found : get_last shown ≡ some last =
        ap get_last same ∙ sym (last_from_blind n previous previous page full.0) ∙ e in
      let next = next_cursor contest_id view cursor shown last in
      let rest : follow_pages contest_id view next pages
          ≡ assign_ranks (n + length page) (some last) (flatten pages) =
        follow_pages-from next (n + length page) (some last) pages
          (Follows-next_cursor cursor n shown last seen (length page)
            (ap length same ∙ length-assign_ranks n previous page))
          full.1 in
      rw found (rw (assign_ranks-append n previous page (flatten pages), e) (ap₂ ◌++◌ same rest))

  -- Whatever the page sizes, a reader who starts with no cursor and follows the cursor of each page
  -- sees the rows with the ranks of the whole board, if no page but a last one is empty and the
  -- contest has a positive id.
  pub follow_pages-assign_ranks :
      (pages : List (List ScoreboardRow))
      → All IsNonempty pages
      → follow_pages contest_id view zero_cursor pages ≡ assign_ranks 0 Option.none (flatten pages)
  follow_pages-assign_ranks pages full =
      follow_pages-from zero_cursor 0 Option.none pages (refl, ground arith, refl) full
