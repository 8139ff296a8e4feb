-- ===== src/Prelude/Sort.antt =====
-- A stable sort by a Boolean `less`, which is what `sort.SliceStable` computes, and `sort.Slice`
-- where no two items are equal in the order.
use soj.Prelude.{
  suc, length, ◌≡◌, refl, ap, Bool, true, false, List, [], ◌∷◌, map, arith, if◌then◌else◌, count,
  filter, All, Bool-cases, inl, inr, sym, ◌∙◌,
}

module _ {ℓ} {A : Type ℓ} (less : A → A → Bool) where
  -- `x` stands before the items that it is not greater than.
  unfoldable pub insert : A → List A → List A
  insert x [] = x ∷ []
  insert x (y ∷ ys) = let rest = insert x ys in if less y x then y ∷ rest else x ∷ y ∷ ys

  unfoldable pub sort : List A → List A
  unfolding insert
  sort [] = []
  sort (x ∷ xs) = insert x (sort xs)

  count-insert : (p : A → Bool) (x : A) (ys : List A) → count p (insert x ys) ≡ count p (x ∷ ys)
  unfolding insert
  count-insert p x [] = refl
  count-insert p x (y ∷ ys) = ground (arith, count-insert p x ys)

  length-insert : (x : A) (ys : List A) → length (insert x ys) ≡ suc (length ys)
  unfolding insert
  length-insert x [] = refl
  length-insert x (y ∷ ys) = ground (arith, length-insert x ys)

  -- The sort only moves items: as many satisfy a test after it as before.
  pub count-sort : (p : A → Bool) (xs : List A) → count p (sort xs) ≡ count p xs
  unfolding sort
  count-sort p [] = refl
  count-sort p (x ∷ xs) = ground (arith, count-insert p x (sort xs), count-sort p xs)

  pub length-sort : (xs : List A) → length (sort xs) ≡ length xs
  unfolding sort
  length-sort [] = refl
  length-sort (x ∷ xs) = length-insert x (sort xs) ∙ ap suc (length-sort xs)

  module _ {κ} (P : A → Type κ) where
    All-insert : (x : A) (ys : List A) → P x → All P ys → All P (insert x ys)
    unfolding insert
    All-insert x [] h k = (h, tt)
    All-insert x (y ∷ ys) h k = elim (Bool-cases (less y x)) [
      | inl e ↦ rw e (k.0, All-insert x ys h k.1)
      | inr e ↦ rw e (h, k)
    ]

    pub All-sort : (xs : List A) → All P xs → All P (sort xs)
    unfolding sort
    All-sort [] h = tt
    All-sort (x ∷ xs) h = All-insert x (sort xs) h.0 (All-sort xs h.1)

-- Each item is in relation `R` with all that follow it.
abbrev pub IsOrdered {ℓ κ} : {A : Type ℓ} → (A → A → Type κ) → List A → Type κ
IsOrdered R [] = Unit
IsOrdered R (x ∷ xs) = All (R x) xs × IsOrdered R xs

module _ {ℓ κ} {A : Type ℓ} (R : A → A → Type κ) (trans : (x y z : A) → R x y → R y z → R x z) where
  pub All-weaken : (x y : A) (zs : List A) → R x y → All (R y) zs → All (R x) zs
  All-weaken x y [] h k = tt
  All-weaken x y (z ∷ zs) h k = (trans x y z h k.0, All-weaken x y zs h k.1)

  module _ (less : A → A → Bool) (less→R : (x y : A) → less y x ≡ true → R y x)
      (not_less→R : (x y : A) → less y x ≡ false → R x y) where
    insert-IsOrdered : (x : A) (ys : List A) → IsOrdered R ys → IsOrdered R (insert less x ys)
    unfolding insert
    insert-IsOrdered x [] h = (tt, tt)
    insert-IsOrdered x (y ∷ ys) h = elim (Bool-cases (less y x)) [
      | inl e ↦ rw e (All-insert less (R y) x ys (less→R x y e) h.0, insert-IsOrdered x ys h.1)
      | inr e ↦ rw e ((not_less→R x y e, All-weaken x y ys (not_less→R x y e) h.0), h)
    ]

    -- The sort leaves the items in order.
    pub sort-IsOrdered : (xs : List A) → IsOrdered R (sort less xs)
    unfolding sort
    sort-IsOrdered [] = tt
    sort-IsOrdered (x ∷ xs) = insert-IsOrdered x (sort less xs) (sort-IsOrdered xs)

module _ {ℓ κ} {A : Type ℓ} {B : Type κ} (f : A → B) (less : A → A → Bool) (less' : B → B → Bool)
    (same : (x y : A) → less' (f x) (f y) ≡ less x y) where
  insert-map : (x : A) (ys : List A) → insert less' (f x) (map f ys) ≡ map f (insert less x ys)
  unfolding insert
  insert-map x [] = refl
  insert-map x (y ∷ ys) = elim (Bool-cases (less y x)) [
    | inl e ↦ rw (same y x, e, insert-map x ys) refl
    | inr e ↦ rw (same y x, e) refl
  ]

  -- A map that keeps the order of any two items may be made before or after the sort.
  pub sort-map : (xs : List A) → sort less' (map f xs) ≡ map f (sort less xs)
  unfolding sort
  sort-map [] = refl
  sort-map (x ∷ xs) = rw (sort-map xs) (insert-map x (sort less xs))

-- A strict weak order.
pub record IsOrder {ℓ} {A : Type ℓ} (less : A → A → Bool) : Type ℓ where
  pub asym : (x y : A) → less x y ≡ true → less y x ≡ false
  pub trans : (x y z : A) → less y x ≡ false → less z y ≡ false → less z x ≡ false

module _ {ℓ} {A : Type ℓ} (less : A → A → Bool) (order : IsOrder less) (p : A → Bool) where
  abbrev NotBefore : A → A → Type 0
  NotBefore x y = less y x ≡ false

  insert_first : (x : A) (ys : List A) → All (NotBefore x) ys → insert less x ys ≡ x ∷ ys
  unfolding insert
  insert_first x [] h = refl
  insert_first x (y ∷ ys) h = rw h.0

  All-filter : (P : A → Type 0) (ys : List A) → All P ys → All P (filter p ys)
  All-filter P [] h = tt
  All-filter P (y ∷ ys) h = elim (Bool-cases (p y)) [
    | inl e ↦ rw e (h.0, All-filter P ys h.1)
    | inr e ↦ rw e (All-filter P ys h.1)
  ]

  NotBefore-trans : (x y z : A) → NotBefore x y → NotBefore y z → NotBefore x z
  NotBefore-trans x y z = order.trans x y z

  kept-insert :
      (x : A) (ys : List A)
      → p x ≡ true
      → IsOrdered NotBefore ys
      → filter p (insert less x ys) ≡ insert less x (filter p ys)
  unfolding insert
  kept-insert x [] k h = rw k
  kept-insert x (y ∷ ys) k h = elim (Bool-cases (less y x)) [
    | inl e ↦ elim (Bool-cases (p y)) [
      | inl q ↦ rw (e, q, e) (ap (λ l. y ∷ l) (kept-insert x ys k h.1))
      | inr q ↦ rw (e, q) (kept-insert x ys k h.1)
    ]
    | inr e ↦ elim (Bool-cases (p y)) [
      | inl q ↦ rw (e, k, q, e) refl
      | inr q ↦
          rw (e, k, q)
            (sym (
              insert_first x (filter p ys)
                (All-filter (NotBefore x) ys (All-weaken NotBefore NotBefore-trans x y ys e h.0))))
    ]
  ]

  dropped-insert : (x : A) (ys : List A) → p x ≡ false → filter p (insert less x ys) ≡ filter p ys
  unfolding insert
  dropped-insert x [] k = rw k
  dropped-insert x (y ∷ ys) k = ground (arith, dropped-insert x ys k)

  sorted : (xs : List A) → IsOrdered NotBefore (sort less xs)
  sorted = sort-IsOrdered NotBefore NotBefore-trans less (λ x y. order.asym y x) (λ x y h. h)

  -- Selecting and sorting commute.
  pub filter-sort : (xs : List A) → filter p (sort less xs) ≡ sort less (filter p xs)
  unfolding sort
  filter-sort [] = refl
  filter-sort (x ∷ xs) = elim (Bool-cases (p x)) [
    | inl k ↦ rw (k, ← filter-sort xs) (kept-insert x (sort less xs) k (sorted xs))
    | inr k ↦ rw k (dropped-insert x (sort less xs) k ∙ filter-sort xs)
  ]
