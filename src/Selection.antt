-- ===== src/Selection.antt =====
-- The rows that `WHERE p ORDER BY le LIMIT n` picks from the jobs table.
pub mod Order
use mathlib.Core.Path.{ap₂}
use notify_queue.Prelude.{
  ℕ, zero, suc, ◌+◌, ◌≤◌, ◌≡◌, refl, sym, ◌∙◌, Bool, true, false, ◌||◌, Option, none, some, List,
  [], ◌∷◌, arith, ◌==◌, ==_iff, ap, if◌then◌else◌, select, take, drop, elem, insert_by, sort_by,
  Distinct, Bool-cases, inl, inr, ◌⊎◌, length,
}
use notify_queue.Domain.{Job}
use notify_queue.Tables.{find, ids}
use notify_queue.Tables.Find.{elem-find, find-id}
use Order.{
  All, All-map, All-sort, All-take, All-drop, All-both, IsSorted, sort-IsSorted, take-before-drop,
}

pub elem-take : (i n : ℕ) (xs : List Job) → elem i (ids (take n xs)) ≡ true → elem i (ids xs) ≡ true
unfolding elem
elem-take i zero xs h = cc
elem-take i (suc n) [] h = cc
elem-take i (suc n) (x ∷ xs) h = ground (arith, elem-take i n xs)

module _ (le : Job → Job → Bool) where
  elem-insert :
      (i : ℕ) (x : Job) (xs : List Job)
      → elem i (ids (insert_by le x xs)) ≡ ((x.id == i) || elem i (ids xs))
  unfolding elem insert_by
  elem-insert i x [] = refl
  elem-insert i x (y ∷ ys) = ground (arith, elem-insert i x ys)

  pub elem-sort : (i : ℕ) (xs : List Job) → elem i (ids (sort_by le xs)) ≡ elem i (ids xs)
  unfolding elem sort_by
  elem-sort i [] = refl
  elem-sort i (x ∷ xs) =
      elem-insert i x (sort_by le xs) ∙ ap (λ b. (x.id == i) || b) (elem-sort i xs)

module _ (p : Job → Bool) where
  elem-select : (i : ℕ) (xs : List Job) → elem i (ids (select p xs)) ≡ true → elem i (ids xs) ≡ true
  unfolding elem select
  elem-select i [] h = cc
  elem-select i (x ∷ xs) h = ground (arith, elem-select i xs)

  -- The row at the key of a selected row passes the test.
  pub select_sound :
      (i : ℕ) (xs : List Job)
      → Distinct (ids xs)
      → elem i (ids (select p xs)) ≡ true
      → (j : Job) × (find i xs ≡ some j) × (p j ≡ true)
  unfolding elem select
  select_sound i [] d h = cc
  select_sound i (x ∷ xs) d h = elim (Bool-cases (x.id == i)) [
    | inl y ↦ (x, rw y refl, ground (arith, elem-select i xs))
    | inr z ↦ let (j, at, ok_j) = select_sound i xs d.1 (ground arith) in (j, rw z at, ok_j)
  ]

  pub select_complete :
      (i : ℕ) (xs : List Job) {j : Job}
      → find i xs ≡ some j
      → p j ≡ true
      → elem i (ids (select p xs)) ≡ true
  unfolding elem select
  select_complete i [] h y = cc
  select_complete i (x ∷ xs) {j} h y = ground (arith, select_complete i xs {j = j})

-- What the statement picks is a row that passes the test.
pub pick_sound :
    (p : Job → Bool) (le : Job → Job → Bool) (n i : ℕ) (js : List Job)
    → Distinct (ids js)
    → elem i (ids (take n (sort_by le (select p js)))) ≡ true
    → (j : Job) × (find i js ≡ some j) × (p j ≡ true)
pick_sound p le n i js d h =
    select_sound p i js d
      (sym (elem-sort le i (select p js)) ∙ elem-take i n (sort_by le (select p js)) h)

elem-drop :
    (i n : ℕ) (xs : List Job)
    → elem i (ids xs) ≡ true
    → elem i (ids (take n xs)) ≡ false
    → elem i (ids (drop n xs)) ≡ true
unfolding elem
elem-drop i zero xs h k = h
elem-drop i (suc n) [] h k = h
elem-drop i (suc n) (x ∷ xs) h k = elim (Bool-cases (x.id == i)) [
  | inl y ↦ cc
  | inr z ↦ elem-drop i n xs (ground arith) (ground arith)
]

-- A row of the list with the number, and what holds of all rows.
All-elem :
    (P : Job → Type 0) (i : ℕ) (xs : List Job)
    → All P xs
    → elem i (ids xs) ≡ true
    → (j : Job) × (j.id ≡ i) × P j
unfolding elem
All-elem P i [] a h = cc
All-elem P i (x ∷ xs) a h = elim (Bool-cases (x.id == i)) [
  | inl y ↦ (x, (==_iff x.id i).0 y, a.0)
  | inr z ↦ All-elem P i xs a.1 (ground arith)
]

pub Distinct-select :
    (p : Job → Bool) (js : List Job) → Distinct (ids js) → Distinct (ids (select p js))
unfolding select
Distinct-select p [] d = tt
Distinct-select p (x ∷ xs) d = elim (Bool-cases (p x)) [
  | inl y ↦ rw y (absent (Bool-cases (elem x.id (ids (select p xs)))), Distinct-select p xs d.1)
  | inr z ↦ rw z (Distinct-select p xs d.1)
]
  where
    absent :
        (elem x.id (ids (select p xs)) ≡ true) ⊎ (elem x.id (ids (select p xs)) ≡ false)
        → elem x.id (ids (select p xs)) ≡ false
    absent (inl y) = cc (sym d.0 ∙ elem-select p x.id xs y)
    absent (inr z) = z

pub All-select : (p : Job → Bool) (js : List Job) → All (λ j. p j ≡ true) (select p js)
unfolding select
All-select p [] = tt
All-select p (x ∷ xs) = elim (Bool-cases (p x)) [
  | inl y ↦ rw y (y, All-select p xs)
  | inr z ↦ rw z (All-select p xs)
]

-- A row that fails the test, or is not there, is not selected.
pub select-unsound :
    (p : Job → Bool) (i : ℕ) (js : List Job)
    → Distinct (ids js)
    → ((j : Job) → find i js ≡ some j → p j ≡ false)
    → elem i (ids (select p js)) ≡ false
select-unsound p i js d h = elim (Bool-cases (elem i (ids (select p js)))) [
  | inl y ↦ let (j, at, passes) = select_sound p i js d y in cc (sym (h j at) ∙ passes)
  | inr z ↦ z
]

-- The selected rows are rows of the table.
pub select-find :
    (p : Job → Bool) (js : List Job)
    → Distinct (ids js)
    → All (λ j. find j.id js ≡ some j) (select p js)
unfolding select elem
select-find p [] d = tt
select-find p (x ∷ xs) d =
    let rest = All-map (λ j h. skip j h) (select p xs) (select-find p xs d.1) in
    elim (Bool-cases (p x)) [ inl y ↦ rw y (ground arith, rest) | inr z ↦ rw z rest ]
  where
    skip : (j : Job) → find j.id xs ≡ some j → find j.id (x ∷ xs) ≡ some j
    skip j h = ground (arith, elem-find x.id xs d.0)

pub same-row :
    (x : ℕ) (js : List Job) {a b : Job}
    → find x js ≡ some a
    → b.id ≡ x
    → find b.id js ≡ some b
    → a ≡ b
same-row x js {a} {b} ha e hb = cc (sym ha ∙ (ap (λ i. find i js) (sym e) ∙ hb))

module _ (p : Job → Bool) (le : Job → Job → Bool)
    (total : (a b : Job) → le a b ≡ false → le b a ≡ true)
    (trans : (a b c : Job) → le a b ≡ true → le b c ≡ true → le a c ≡ true) where
  -- A row that is picked comes before a row that passes the test and is not picked.
  pub pick-first :
      (n : ℕ) (js : List Job)
      → Distinct (ids js)
      → (x y : ℕ) {a b : Job} → find x js ≡ some a
      → find y js ≡ some b
      → elem x (ids (take n (sort_by le (select p js)))) ≡ true
      → p b ≡ true
      → elem y (ids (take n (sort_by le (select p js)))) ≡ false
      → le a b ≡ true
  pick-first n js d x y {a} {b} ha hb picked passes left =
      let s = sort_by le (select p js) in
      let Row : Job → Type 0 = λ j. find j.id js ≡ some j in
      let Ahead : Job → Type 0 = λ a. All (λ b. le a b ≡ true) (drop n s) in
      let rows = All-sort le total trans Row (select p js) (select-find p js d) in
      let split = take-before-drop le n s (sort-IsSorted le total trans (select p js)) in
      let (a', at_x, (row_a, ahead)) =
        All-elem (λ j. Row j × Ahead j) x (take n s)
          (All-both Row Ahead (take n s) (All-take Row n s rows) split) picked in
      let in_s = elem-sort le y (select p js) ∙ select_complete p y js {j = b} hb passes in
      let (b', at_y, (row_b, behind)) =
        All-elem (λ j. Row j × (le a' j ≡ true)) y (drop n s)
          (All-both Row (λ j. le a' j ≡ true) (drop n s) (All-drop Row n s rows) ahead)
          (elem-drop y n s in_s left) in
      ap₂ le (same-row x js ha at_x row_a) (same-row y js hb at_y row_b) ∙ behind
