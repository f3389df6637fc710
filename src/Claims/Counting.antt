-- ===== src/Claims/Counting.antt =====
-- How many rows an IN hits, and that sorting and selecting keep count.
use notify_queue.Prelude.{
  ℕ, suc, ◌+◌, ◌≤◌, ◌≡◌, refl, ap, Bool, false, ◌||◌, List, [], ◌∷◌, map, arith, ◌==◌, ==_iff,
  length, select, count_where, elem, sort_by, insert_by, Distinct, Bool-cases, inl, inr,
}
use notify_queue.Domain.{Job}
use notify_queue.Tables.{ids}

module _ {ℓ} {A : Type ℓ} where
  length-insert :
      (le : A → A → Bool) (x : A) (xs : List A) → length (insert_by le x xs) ≡ suc (length xs)
  unfolding insert_by
  length-insert le x [] = refl
  length-insert le x (y ∷ ys) = ground (arith, length-insert le x ys)

  pub length-select : (p : A → Bool) (xs : List A) → length (select p xs) ≡ count_where p xs
  unfolding select count_where
  length-select p [] = refl
  length-select p (x ∷ xs) = ground (arith, length-select p xs)

  count_where-or :
      (p q : A → Bool) (xs : List A)
      → count_where (λ x. p x || q x) xs ≤ count_where p xs + count_where q xs
  unfolding count_where
  count_where-or p q [] = omega arith
  count_where-or p q (x ∷ xs) = ground (arith, count_where-or p q xs)

  pub length-map : {B : Type ℓ} (g : A → B) (xs : List A) → length (map g xs) ≡ length xs
  length-map g [] = refl
  length-map g (x ∷ xs) = ap suc (length-map g xs)

  pub length-sort : (le : A → A → Bool) (xs : List A) → length (sort_by le xs) ≡ length xs
  unfolding sort_by
  length-sort le [] = refl
  length-sort le (x ∷ xs) = omega (arith, length-insert le x (sort_by le xs), length-sort le xs)

-- A key picks at most one row, so as many rows as keys are picked at most.
count-key : (i : ℕ) (js : List Job) → Distinct (ids js) → count_where (λ j. j.id == i) js ≤ 1
unfolding count_where elem
count-key i [] d = omega arith
count-key i (j ∷ js) d = elim (Bool-cases (elem i (ids js))) [
  | inl y ↦ elim (Bool-cases (j.id == i)) [
    | inl e ↦ let same = (==_iff j.id i).0 e in cc (d.0, y, same)
    | inr z ↦ ground (arith, count-key i js d.1)
  ]
  | inr z ↦ ground (arith, count-absent js z)
]
  where
    count-absent : (js : List Job) → elem i (ids js) ≡ false → count_where (λ j. j.id == i) js ≡ 0
    count-absent [] h = refl
    count-absent (k ∷ ks) h = ground (arith, count-absent ks)

pub count-keys :
    (is : List ℕ) (js : List Job)
    → Distinct (ids js)
    → count_where (λ j. elem j.id is) js ≤ length is
unfolding elem count_where
count-keys [] js d = none_hit js
  where
    none_hit : (js : List Job) → count_where (λ j. false) js ≤ 0
    none_hit [] = omega arith
    none_hit (j ∷ js) = omega (arith, none_hit js)
count-keys (i ∷ is) js d = omega (
  arith,
  swap js,
  count_where-or (λ (j : Job). j.id == i) (λ j. elem j.id is) js,
  count-key i js d,
  count-keys is js d,
)
  where
    swap :
        (js : List Job)
        → count_where (λ j. (i == j.id) || elem j.id is) js
          ≡ count_where (λ j. (j.id == i) || elem j.id is) js
    swap [] = refl
    swap (j ∷ js) = ground (arith, swap js)
