-- ===== src/Invariant/Counts.antt =====
-- Counting and testing rows after an INSERT at the end of a table, and after a DELETE.
use notify_queue.Prelude.{
  first, some, Bool-cases, inl, inr, ℕ, ◌+◌, true, ◌<◌, ◌≡◌, refl, Bool, false, not, ◌||◌, List, [],
  ◌∷◌, ◌++◌, arith, if◌then◌else◌, count_where, exists_where, select, update_where, ◌==◌,
}
use notify_queue.Tables.{Uuids, IsFresh}

module _ {ℓ} {A : Type ℓ} (p : A → Bool) where
  pub count_where-snoc :
      (xs : List A) (x : A)
      → count_where p (xs ++ x ∷ []) ≡ count_where p xs + (if p x then 1 else 0)
  unfolding count_where
  count_where-snoc [] x = ground arith
  count_where-snoc (y ∷ xs) x = omega (arith, count_where-snoc xs x)

  pub exists_where-snoc :
      (xs : List A) (x : A) → exists_where p (xs ++ x ∷ []) ≡ (exists_where p xs || p x)
  unfolding exists_where
  exists_where-snoc [] x = ground arith
  exists_where-snoc (y ∷ xs) x = ground (arith, exists_where-snoc xs x)

  pub exists_where-count : (xs : List A) → count_where p xs ≡ 0 → exists_where p xs ≡ false
  unfolding exists_where count_where
  exists_where-count [] h = refl
  exists_where-count (y ∷ xs) h = ground (arith, exists_where-count xs)

  pub count_where-exists : (xs : List A) → exists_where p xs ≡ false → count_where p xs ≡ 0
  unfolding exists_where count_where
  count_where-exists [] h = refl
  count_where-exists (y ∷ xs) h = ground (arith, count_where-exists xs)

  pub exists_where-first :
      (xs : List A)
      → exists_where p xs ≡ true
      → (a : A) × (first (select p xs) ≡ some a) × (p a ≡ true)
  unfolding exists_where select
  exists_where-first [] h = cc
  exists_where-first (y ∷ xs) h = elim (Bool-cases (p y)) [
    | inl e ↦ (y, rw e refl, e)
    | inr e ↦ rw e (exists_where-first xs (ground arith))
  ]

  pub first-snoc :
      (xs : List A) (x : A)
      → exists_where p xs ≡ false
      → p x ≡ true
      → first (select p (xs ++ x ∷ [])) ≡ some x
  unfolding exists_where select
  first-snoc [] x h e = rw e refl
  first-snoc (y ∷ xs) x h e = ground (arith, first-snoc xs x)

  pub count_where-update :
      (q : A → Bool) (f : A → A)
      → ((a : A) → p (f a) ≡ p a)
      → (xs : List A) → count_where p (update_where q f xs) ≡ count_where p xs
  unfolding count_where update_where
  count_where-update q f same [] = refl
  count_where-update q f same (x ∷ xs) = ground (arith, same x, count_where-update q f same xs)

  pub exists_where-update :
      (q : A → Bool) (f : A → A)
      → ((a : A) → p (f a) ≡ p a)
      → (xs : List A) → exists_where p (update_where q f xs) ≡ exists_where p xs
  unfolding exists_where update_where
  exists_where-update q f same [] = refl
  exists_where-update q f same (x ∷ xs) = ground (arith, same x, exists_where-update q f same xs)

-- `DELETE ... WHERE job_id = x`, seen at the rows of i.
module _ {ℓ} {A : Type ℓ} (key : A → ℕ) (x : ℕ) where
  pub count_where-delete :
      (i : ℕ) (xs : List A)
      → count_where (λ a. key a == i) (select (λ a. not (key a == x)) xs)
        ≡ (if x == i then 0 else count_where (λ a. key a == i) xs)
  unfolding count_where select
  count_where-delete i [] = ground arith
  count_where-delete i (a ∷ xs) = ground (arith, count_where-delete i xs)

module _ (u : Uuids) (f : IsFresh u) where
  pub event_id-ne : (m n : ℕ) → m < n → (u.event_id m == u.event_id n) ≡ false
  event_id-ne m n h = ground (arith, f.event_id_once m n)

  pub job_id-ne : (m n : ℕ) → m < n → (u.job_id m == u.job_id n) ≡ false
  job_id-ne m n h = ground (arith, f.job_id_once m n)
