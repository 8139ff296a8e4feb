-- ===== src/Submission/Lifecycle/Claims.antt =====
-- The claims of internal/postgres/db/submissions.sql.go: how many tasks one takes, and that no task is
-- taken twice.
use soj.Prelude.{
  ℕ, zero, suc, ◌+◌, ◌≤◌, ◌≡◌, refl, ap, sym, ◌∙◌, Bool, true, false, Bool-cases, ◌&&◌, ◌||◌, not,
  inl, inr, List, [], ◌∷◌, filter, any, count, take, length, length-map, arith, ◌==◌,
}
use soj.Prelude.Sort.{sort}
use soj.Submission.Tables.{TaskRow, Tables, set, update}
use soj.Submission.Tables.Rows.{In, In-map, In-filter, unique, set_keeps, IsUnique}
use soj.Submission.Tables.Tasks.{
  runs_before, claimed, is_claimed, claim_tasks, dispatching_row, is_pending,
}
use soj.Submission.Lifecycle.{IsConsistent}

length-take : {A : Type 0} (n : ℕ) (xs : List A) → length (take n xs) ≤ n
length-take zero xs = omega arith
length-take (suc n) [] = omega arith
length-take (suc n) (x ∷ xs) = omega (arith, length-take n xs)

pub length-filter : {A : Type 0} (p : A → Bool) (xs : List A) → length (filter p xs) ≡ count p xs
length-filter p [] = refl
length-filter p (x ∷ xs) = ground (arith, length-filter p xs)

count_imp :
    {A : Type 0} (p q : A → Bool) (xs : List A)
    → ((x : A) → p x ≡ true → q x ≡ true)
    → count p xs ≤ count q xs
count_imp p q [] h = omega arith
count_imp p q (x ∷ xs) h = ground (arith, h x, count_imp p q xs h)

count_or :
    {A : Type 0} (p q : A → Bool) (xs : List A)
    → count (λ x. p x || q x) xs ≤ count p xs + count q xs
count_or p q [] = omega arith
count_or p q (x ∷ xs) = ground (arith, count_or p q xs)

count_never : {A : Type 0} (xs : List A) → count (λ x. false) xs ≡ 0
count_never [] = refl
count_never (x ∷ xs) = count_never xs

-- No more rows have one of some keys than there are keys.
count_keys :
    (tasks chosen : List TaskRow)
    → IsUnique (λ (row : TaskRow) k. row.id == k) tasks
    → count (λ row. any (λ c. row.id == c.id) chosen) tasks ≤ length chosen
count_keys tasks [] h = omega (arith, count_never tasks)
count_keys tasks (c ∷ chosen) h = omega (
  arith,
  count_or (λ row. row.id == c.id) (λ row. any (λ d. row.id == d.id) chosen) tasks,
  h c.id,
  count_keys tasks chosen h,
)

pub claimed-pending :
    (chosen : List TaskRow) (y : TaskRow) → is_claimed chosen y ≡ true → is_pending y.status ≡ true
claimed-pending chosen y q = ground arith

same_id :
    (a b x z : TaskRow) → a.id ≡ x.id → b.id ≡ z.id → (a.id == b.id) ≡ true → (x.id == z.id) ≡ true
same_id a b x z e f q = ground arith

module _ {P : Type 0} (due : TaskRow → Bool) (locked : ℕ → Bool) where
  -- A claim of consistent tables returns at most as many tasks as its limit.
  pub length-claim_tasks :
      (t : Tables P) (limit : ℕ)
      → IsConsistent t
      → length (claim_tasks locked due limit t).0 ≤ limit
  unfolding claim_tasks claimed
  length-claim_tasks t limit h = omega (
    arith,
    length-map (dispatching_row t.now) (filter (is_claimed chosen) t.tasks),
    length-filter (is_claimed chosen) t.tasks,
    count_imp (is_claimed chosen) (λ row. any (λ c. row.id == c.id) chosen) t.tasks
        (λ x q. ground arith),
    count_keys t.tasks chosen h.task_key,
    length-take limit (sort runs_before (filter (λ row. due row && not (locked row.id)) t.tasks)),
  )
    where
      chosen : List TaskRow
      chosen = claimed due locked limit t.tasks

module _ {P : Type 0} (due other_due : TaskRow → Bool) (locked other_locked : ℕ → Bool) where
  -- Whatever two claims in a row ask for, and whichever rows are locked, no task is in both answers.
  pub claimed_once :
      (t : Tables P) (limit other_limit : ℕ)
      → IsConsistent t
      → (a b : TaskRow) → In a (claim_tasks locked due limit t).0
      → In b (claim_tasks other_locked other_due other_limit (claim_tasks locked due limit t).1).0
      → (a.id == b.id) ≡ false
  unfolding claim_tasks
  claimed_once t limit other_limit h a b i l =
      let (x, ix, ex) = In-map take_row a (filter this t.tasks) i in
      let (jx, qx) = In-filter this x t.tasks ix in
      let (y, iy, ey) = In-map take_row b (filter that (update this take_row t.tasks)) l in
      let (jy, qy) = In-filter that y (update this take_row t.tasks) iy in
      let (z, iz, ez) = In-map (set this take_row) y t.tasks jy in
      elim (Bool-cases (a.id == b.id)) [
        | inr e ↦ e
        | inl e ↦
            let key =
              same_id a b x z (ap (λ (r : TaskRow). r.id) ex)
                (ap (λ (r : TaskRow). r.id) ey ∙ ap (λ (r : TaskRow). r.id) ez ∙ kept_id z) e in
            absurd (not_twice x z jx iz qx key (ap that (sym ez) ∙ qy))
      ]
    where
      chosen : List TaskRow
      chosen = claimed due locked limit t.tasks

      this : TaskRow → Bool
      this = is_claimed chosen

      take_row : TaskRow → TaskRow
      take_row = dispatching_row t.now

      that : TaskRow → Bool
      that = is_claimed (claimed other_due other_locked other_limit (update this take_row t.tasks))

      kept_id : (z : TaskRow) → (set this take_row z).id ≡ z.id
      kept_id = set_keeps this take_row (λ r. r.id) (λ r. refl)

      moved : (z : TaskRow) → this z ≡ true → set this take_row z ≡ take_row z
      moved z q = rw q refl

      not_twice :
          (x z : TaskRow)
          → In x t.tasks
          → In z t.tasks
          → this x ≡ true
          → (x.id == z.id) ≡ true
          → that (set this take_row z) ≡ true
          → ⊥
      not_twice x z i k q e r =
          let same : x ≡ z =
            unique (λ j. j.id == z.id) x z t.tasks (h.task_key z.id) i k e (ground arith) in
          ground (
            arith,
            claimed-pending _ (take_row z) (ap that (sym (moved z (ap this (sym same) ∙ q))) ∙ r),
          )
