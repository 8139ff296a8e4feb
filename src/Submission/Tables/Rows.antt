-- ===== src/Submission/Tables/Rows.antt =====
-- Keys and membership in a table of internal/postgres/db.
use soj.Prelude.{
  ℕ, ◌≤◌, ◌≡◌, refl, ap, ◌∙◌, ◌⊎◌, inl, inr, Bool, true, false, List, [], ◌∷◌, map, count, arith,
  Bool-cases, if◌then◌else◌, filter, any,
}
use soj.Submission.Tables.{set}

module _ {A : Type 0} where
  -- `row` is a row of the table.
  abbrev pub In : A → List A → Type 0
  In row [] = ⊥
  In row (x ∷ xs) = (row ≡ x) ⊎ In row xs

  -- A unique index: no value `k` is that of two rows.
  abbrev pub IsUnique : (A → ℕ → Bool) → List A → Type 0
  IsUnique key rows = (k : ℕ) → count (λ row. key row k) rows ≤ 1

  pub count-In : (p : A → Bool) (row : A) (xs : List A) → In row xs → p row ≡ true → 1 ≤ count p xs
  count-In p row [] h e = absurd h
  count-In p row (x ∷ xs) (inl h) e = rw (← h, e) (omega arith)
  count-In p row (x ∷ xs) (inr h) e = ground (arith, count-In p row xs h e)

  pub unique :
      (p : A → Bool) (a b : A) (xs : List A)
      → count p xs ≤ 1
      → In a xs
      → In b xs
      → p a ≡ true
      → p b ≡ true
      → a ≡ b
  unique p a b [] few h k e f = absurd h
  unique p a b (x ∷ xs) few (inl h) (inl k) e f = cc
  unique p a b (x ∷ xs) few (inl h) (inr k) e f =
      absurd (ground (arith, ap p h, count-In p b xs k f))
  unique p a b (x ∷ xs) few (inr h) (inl k) e f =
      absurd (ground (arith, ap p k, count-In p a xs h e))
  unique p a b (x ∷ xs) few (inr h) (inr k) e f = unique p a b xs (ground arith) h k e f

  kept :
      (p : A → Bool) (row x : A) (xs ys : List A) (b : Bool)
      → p x ≡ b
      → (In row ys → In row xs × (p row ≡ true))
      → In row (if b then x ∷ ys else ys)
      → In row (x ∷ xs) × (p row ≡ true)
  kept p row x xs ys true e rest (inl k) = (inl k, ap p k ∙ e)
  kept p row x xs ys true e rest (inr k) = (inr (rest k).0, (rest k).1)
  kept p row x xs ys false e rest k = (inr (rest k).0, (rest k).1)

  -- The rows that a statement selects are rows of the table that pass its test.
  pub In-filter :
      (p : A → Bool) (row : A) (xs : List A) → In row (filter p xs) → In row xs × (p row ≡ true)
  In-filter p row [] h = absurd h
  In-filter p row (x ∷ xs) h =
      kept p row x xs (filter p xs) (p x) refl (λ k. In-filter p row xs k) h

module _ {A B : Type 0} (f : A → B) where
  pub In-map : (row : B) (xs : List A) → In row (map f xs) → (x : A) × In x xs × (row ≡ f x)
  In-map row [] h = absurd h
  In-map row (x ∷ xs) (inl h) = (x, inl refl, h)
  In-map row (x ∷ xs) (inr h) = let (y, i, e) = In-map row xs h in (y, inr i, e)

  pub map-In : (x : A) (xs : List A) → In x xs → In (f x) (map f xs)
  map-In x [] i = i
  map-In x (y ∷ xs) (inl h) = inl (ap f h)
  map-In x (y ∷ xs) (inr h) = inr (map-In x xs h)

  pub count-map :
      (p : B → Bool) (q : A → Bool) (xs : List A)
      → ((x : A) → p (f x) ≡ q x)
      → count p (map f xs) ≡ count q xs
  count-map p q [] h = refl
  count-map p q (x ∷ xs) h = ground (arith, h x, count-map p q xs h)

module _ {A : Type 0} (p : A → Bool) (f : A → A) where
  -- A row after an update is the new row or the old one.
  pub set-cases :
      (C : A → Type 0) (x : A) → (p x ≡ true → C (f x)) → (p x ≡ false → C x) → C (set p f x)
  set-cases C x h k = elim (Bool-cases (p x)) [ inl e ↦ rw e (h e) | inr e ↦ rw e (k e) ]

  pub set_keeps :
      {K : Type 0} (key : A → K) → ((x : A) → key (f x) ≡ key x) → (x : A) → key (set p f x) ≡ key x
  set_keeps key h x = set-cases (λ y. key y ≡ key x) x (λ e. h x) (λ e. refl)

pub map_id : {A : Type 0} (xs : List A) → map (λ x. x) xs ≡ xs
map_id [] = refl
map_id (x ∷ xs) = ap (λ l. x ∷ l) (map_id xs)

-- What satisfies a test somewhere in a table.
pub any-In :
    {A : Type 0} (p : A → Bool) (xs : List A) → any p xs ≡ true → (x : A) × In x xs × (p x ≡ true)
any-In p [] h = ground arith
any-In p (y ∷ xs) h = elim (Bool-cases (p y)) [
  | inl e ↦ (y, inl refl, e)
  | inr e ↦ let (x, i, q) = any-In p xs (ground arith) in (x, inr i, q)
]

pub In-any :
    {A : Type 0} (p : A → Bool) (x : A) (xs : List A) → In x xs → p x ≡ true → any p xs ≡ true
In-any p x [] i e = absurd i
In-any p x (y ∷ xs) (inl h) e = ground (arith, ap p h)
In-any p x (y ∷ xs) (inr h) e = ground (arith, In-any p x xs h e)
