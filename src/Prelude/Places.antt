-- ===== src/Prelude/Places.antt =====
-- Lists by index, and a total over a list.
use Prim.Native.Nat.{ℕ, zero, suc, ◌+◌}
use mathlib.Core.Path.{◌≡◌, refl}
use mathlib.Core.Option.{Option, none, some}
use mathlib.Core.List.{List, [], ◌∷◌}
use native.Mathlib.Omega.{arith}
use notify_queue.Prelude.Rows.{length}

module _ {ℓ} {A : Type ℓ} where
  abbrev pub get_elem? : List A → ℕ → Option A
  get_elem? [] k = none
  get_elem? (x ∷ xs) zero = some x
  get_elem? (x ∷ xs) (suc k) = get_elem? xs k

  unfoldable pub set : List A → ℕ → A → List A
  set [] k y = []
  set (x ∷ xs) zero y = y ∷ xs
  set (x ∷ xs) (suc k) y = x ∷ set xs k y

  unfoldable pub remove : ℕ → List A → List A
  remove k [] = []
  remove zero (x ∷ xs) = xs
  remove (suc k) (x ∷ xs) = x ∷ remove k xs

  module _ (f : A → ℕ) where
    unfoldable pub total : List A → ℕ
    total [] = 0
    total (x ∷ xs) = f x + total xs

    pub total-set :
        (xs : List A) (k : ℕ) (x y : A)
        → get_elem? xs k ≡ some x
        → total (set xs k y) + f x ≡ total xs + f y
    unfolding total set
    total-set [] k x y e = cc
    total-set (z ∷ xs) zero x y e = ground arith
    total-set (z ∷ xs) (suc k) x y e = omega (arith, total-set xs k x y e)

    pub total-remove :
        (xs : List A) (k : ℕ) (x : A)
        → get_elem? xs k ≡ some x
        → total (remove k xs) + f x ≡ total xs
    unfolding total remove
    total-remove [] k x e = cc
    total-remove (z ∷ xs) zero x e = ground arith
    total-remove (z ∷ xs) (suc k) x e = omega (arith, total-remove xs k x e)

  pub length-remove :
      (xs : List A) (k : ℕ) (x : A)
      → get_elem? xs k ≡ some x
      → suc (length (remove k xs)) ≡ length xs
  unfolding remove
  length-remove [] k x e = cc
  length-remove (z ∷ xs) zero x e = refl
  length-remove (z ∷ xs) (suc k) x e = omega (arith, length-remove xs k x e)
