-- ===== src/Submission/Lifecycle/Rules.antt =====
-- Rules for what a transaction of internal/submission leaves, one per statement: the rest of the
-- transaction is checked for a row of the table that the statement may have found.
use soj.Prelude.{
  ◌≡◌, refl, ap, inl, inr, Bool, true, false, Bool-cases, List, [], ◌∷◌, map, filter, arith,
  if◌then◌else◌,
}
use soj.AppError.{Result, ok, err, ◌>>=◌, Error}
use soj.AppError.Bind.{ok_injective}
use soj.Submission.Tables.{Tables, Tx, ◌and_then◌, one, no_rows, settle}
use soj.Submission.Tables.Rows.{In, In-filter}
use soj.Submission.Repository.{rescue, write, put, is_no_rows}

-- `Q` holds of what the transaction returns and leaves, if it is not rolled back.
pub data After {T A : Type 0} (Q : A → T → Type 0) : Result (A × T) → Type 0 where
  kept : {a : A} {t : T} → Q a t → After Q (ok (a, t))
  rolled_back : (e : Error) → After Q (err e)

pub settle-After :
    {T A : Type 0} (I : T → Type 0) (m : Result (A × T)) (t : T)
    → I t
    → After (λ a t'. I t') m
    → I (settle m t).1
settle-After I (ok (a, t')) t h (kept q) = q
settle-After I (err e) t h q = h

pub After-imp :
    {T A : Type 0} (Q R : A → T → Type 0) (m : Result (A × T))
    → ((a : A) (t : T) → Q a t → R a t)
    → After Q m
    → After R m
After-imp Q R (ok (a, t)) f (kept q) = kept (f a t q)
After-imp Q R (err e) f h = rolled_back e

module _ {T A B : Type 0} {Q : B → T → Type 0} where
  pub then_After :
      (m : Result (A × T)) (next : A → Tx T B)
      → After (λ a t. After Q (next a t)) m
      → After Q (m and_then next)
  then_After (ok (a, t)) next (kept h) = h
  then_After (err failure) next h = rolled_back failure

module _ {T B : Type 0} {Q : B → T → Type 0} where
  pub if_After :
      (b : Bool) (m n : Result (B × T))
      → (b ≡ true → After Q m)
      → (b ≡ false → After Q n)
      → After Q (if b then m else n)
  if_After true m n h k = h refl
  if_After false m n h k = k refl

  rescued_After :
      (b : Bool) (m : Result (B × T)) (e : Error) → After Q m → After Q (if b then m else err e)
  rescued_After true m e h = h
  rescued_After false m e h = rolled_back e

module _ {T R A B : Type 0} {Q : B → T → Type 0} where
  one-After :
      (f : R → A) (t' : T) (next : A → Tx T B) (ys : List R)
      → ((x : R) → In x ys → After Q (next (f x) t'))
      → After Q ((one (map f ys) >>= λ row. ok (row, t')) and_then next)
  one-After f t' next [] h = rolled_back no_rows
  one-After f t' next (y ∷ ys) h = h y (inl refl)

  rescue-After :
      (f : R → A) (t' : T) (missing : Result (B × T)) (next : A → Tx T B) (ys : List R)
      → (ys ≡ [] → After Q missing)
      → ((x : R) → In x ys → After Q (next (f x) t'))
      → After Q (rescue (one (map f ys) >>= λ row. ok (row, t')) missing next)
  rescue-After f t' missing next [] h k =
      rescued_After (is_no_rows no_rows) missing no_rows (h refl)
  rescue-After f t' missing next (y ∷ ys) h k = k y (inl refl)

  -- A statement that updates one row and returns it.
  pub update_After :
      (p : R → Bool) (f : R → A) (rows : List R) (t' : T) (next : A → Tx T B)
      → ((x : R) → In x rows → p x ≡ true → After Q (next (f x) t'))
      → After Q ((one (map f (filter p rows)) >>= λ row. ok (row, t')) and_then next)
  update_After p f rows t' next h =
      one-After f t' next (filter p rows) (λ x i. let (j, e) = In-filter p x rows i in h x j e)

  pub update_or_After :
      (p : R → Bool) (f : R → A) (rows : List R) (t' : T) (missing : Result (B × T))
      (next : A → Tx T B)
      → (filter p rows ≡ [] → After Q missing)
      → ((x : R) → In x rows → p x ≡ true → After Q (next (f x) t'))
      → After Q (rescue (one (map f (filter p rows)) >>= λ row. ok (row, t')) missing next)
  update_or_After p f rows t' missing next h k =
      rescue-After f t' missing next (filter p rows) h
        (λ x i. let (j, e) = In-filter p x rows i in k x j e)

module _ {T R B : Type 0} {Q : B → T → Type 0} where
  one_last_After :
      (f : R → B) (t' : T) (ys : List R)
      → ((x : R) → In x ys → Q (f x) t')
      → After Q (one (map f ys) >>= λ row. ok (row, t'))
  one_last_After f t' [] h = rolled_back no_rows
  one_last_After f t' (y ∷ ys) h = kept (h y (inl refl))

  -- A transaction of one statement, or the last of one.
  pub last_After :
      (p : R → Bool) (f : R → B) (rows : List R) (t' : T)
      → ((x : R) → In x rows → p x ≡ true → Q (f x) t')
      → After Q (one (map f (filter p rows)) >>= λ row. ok (row, t'))
  last_After p f rows t' h =
      one_last_After f t' (filter p rows) (λ x i. let (j, e) = In-filter p x rows i in h x j e)

  -- A query that reads one row.
  read_one-After :
      (t : T) (next : R → Tx T B) (ys : List R)
      → ((x : R) → In x ys → After Q (next x t))
      → After Q ((one ys >>= λ row. ok (row, t)) and_then next)
  read_one-After t next [] h = rolled_back no_rows
  read_one-After t next (y ∷ ys) h = h y (inl refl)

  pub read_After :
      (p : R → Bool) (rows : List R) (t : T) (next : R → Tx T B)
      → ((x : R) → In x rows → p x ≡ true → After Q (next x t))
      → After Q ((one (filter p rows) >>= λ row. ok (row, t)) and_then next)
  read_After p rows t next h =
      read_one-After t next (filter p rows) (λ x i. let (j, e) = In-filter p x rows i in h x j e)

module _ {P A B : Type 0} {Q : B → Tables P → Type 0} where
  pub write-After :
      (m : Result (A × P)) (t : Tables P) (next : A → Tx (Tables P) B)
      → ((a : A) (p : P) → After Q (next a (record t { others = p })))
      → After Q (write m t and_then next)
  write-After (ok (a, p)) t next h = h a p
  write-After (err e) t next h = rolled_back e

module _ {P B : Type 0} {Q : B → Tables P → Type 0} where
  pub put-After :
      (m : Result P) (t : Tables P) (next : Unit {0} → Tx (Tables P) B)
      → ((p : P) → After Q (next tt (record t { others = p })))
      → After Q (put m t and_then next)
  put-After (ok p) t next h = h p
  put-After (err e) t next h = rolled_back e

-- A statement that finds no row has none to find.
pub In-none :
    {R : Type 0} (p : R → Bool) (x : R) (rows : List R)
    → filter p rows ≡ []
    → In x rows
    → p x ≡ true
    → ⊥
In-none p x [] e i h = i
In-none p x (y ∷ rows) e i h = elim (Bool-cases (p y)) [
  | inl q ↦ ground arith
  | inr q ↦ elim i [ inl k ↦ ground (arith, ap p k) | inr k ↦ In-none p x rows (ground arith) k h ]
]

pub put_last_After :
    {P : Type 0} {Q : Unit {0} → Tables P → Type 0} (m : Result P) (t : Tables P)
    → ((p : P) → Q tt (record t { others = p }))
    → After Q (put m t)
put_last_After (ok p) t h = kept (h p)
put_last_After (err e) t h = rolled_back e

-- What a transaction that returns leaves.
pub After-ok :
    {T A : Type 0} {Q : A → T → Type 0} (m : Result (A × T)) {a : A} {t : T}
    → After Q m
    → m ≡ ok (a, t)
    → Q a t
After-ok {T} {A} {Q} (ok (b, u)) {a} {t} (kept q) e =
    let same : ◌≡◌ {A = A × T} (b, u) (a, t) = ok_injective e in
    rw (← ap (λ (y : A × T). y.0) same, ← ap (λ (y : A × T). y.1) same) q
After-ok (err failure) h e = ground arith

-- A read whose row the rest is given.
pub bind_After :
    {T A B : Type 0} {Q : B → T → Type 0} (m : Result A) (next : A → Result (B × T))
    → ((a : A) → After Q (next a))
    → After Q (m >>= next)
bind_After (ok a) next h = h a
bind_After (err e) next h = rolled_back e

-- A row is selected and given to the rest.
first_After :
    {T R B : Type 0} {Q : B → T → Type 0} (next : R → Result (B × T)) (ys : List R)
    → ((x : R) → In x ys → After Q (next x))
    → After Q (one ys >>= next)
first_After next [] h = rolled_back no_rows
first_After next (y ∷ ys) h = h y (inl refl)

pub select_After :
    {T R B : Type 0} {Q : B → T → Type 0} (p : R → Bool) (rows : List R) (next : R → Result (B × T))
    → ((x : R) → In x rows → p x ≡ true → After Q (next x))
    → After Q (one (filter p rows) >>= next)
select_After p rows next h =
    first_After next (filter p rows) (λ x i. let (j, e) = In-filter p x rows i in h x j e)
