-- ===== src/Domain/Backoff.antt =====
-- src/notify_queue/domain/backoff.py. Seconds are counted in microseconds, and `/ 2` rounds down to
-- one, as the columns do that the delay is stored in. `base` is a float, so that Python converts
-- `2 ** (attempt - 1)` to one, which fails from 2 ** 1024 on; a product that is too large is infinite,
-- and the minimum is the cap. The draw of `rng.uniform(0, ceiling / 2)`, which is not of this
-- repository, is an argument.
use native.Mathlib.Nat.{pow-suc}
use notify_queue.Prelude.{
  ℕ, zero, ◌<◌, suc, ◌+◌, ◌-◌, ◌*◌, ◌/◌, ◌^◌, ◌≤◌, ◌≡◌, ◌∙◌, refl, ap, true, false, Option, none,
  some, ltb, leb, if◌then◌else◌, min, arith,
}

-- `min(cap, base * 2 ** (attempt - 1))`; `none` is the OverflowError of the conversion.
unfoldable pub ceiling : ℕ → ℕ → ℕ → Option ℕ
ceiling attempt base cap =
    if leb 1024 (attempt - 1) then none else some (min cap (base * 2 ^ (attempt - 1)))

-- `rng.uniform(0, hi)`: any number up to `hi`, picked by `draw`.
pub record Uniform : Type 0 where
  pub uniform : ℕ → ℕ
  pub uniform-le : (hi : ℕ) → uniform hi ≤ hi

-- `none` is the ValueError "attempt is 1-based", or the OverflowError.
unfoldable pub backoff_delay : Uniform → ℕ → ℕ → ℕ → Option ℕ
unfolding ceiling
backoff_delay rng attempt base cap =
    if ltb attempt 1 then none else elim (ceiling attempt base cap) [
      | none ↦ none
      | some c ↦ some (c / 2 + rng.uniform (c / 2))
    ]

-- The base doubled once for each attempt after the first, up to the cap.
abbrev pub doubled : (retries base cap : ℕ) → ℕ
doubled zero base cap = min cap base
doubled (suc n) base cap = min cap (2 * doubled n base cap)

doubled-power : (n base cap : ℕ) → min cap (base * 2 ^ n) ≡ doubled n base cap
doubled-power zero base cap = omega arith
doubled-power (suc n) base cap =
    let twice : base * 2 ^ suc n ≡ 2 * (base * 2 ^ n) =
      let two : 2 ^ suc n ≡ 2 ^ n * 2 = pow-suc 2 n in
      let split : base * (2 ^ n * 2) ≡ 2 * (base * 2 ^ n) = grind arith in
      ap (λ k. base * k) two ∙ split in
    omega (arith, twice, doubled-power n base cap)

doubled-le : (n base cap : ℕ) → doubled n base cap ≤ cap
doubled-le zero base cap = omega arith
doubled-le (suc n) base cap = omega arith

ceiling-suc : (n base cap : ℕ) → n < 1024 → ceiling (suc n) base cap ≡ some (doubled n base cap)
unfolding ceiling
ceiling-suc n base cap h =
    let at : suc n - 1 ≡ n = omega arith in
    let early : leb 1024 n ≡ false = ground arith in
    rw (at, early) (ap some (doubled-power n base cap))

pub delay_at :
    (rng : Uniform) (n base cap : ℕ)
    → n < 1024
    → (delay : ℕ) × (backoff_delay rng (suc n) base cap ≡ some delay)
      × (doubled n base cap / 2 ≤ delay)
      × (delay ≤ doubled n base cap)
      × (delay ≤ cap)
unfolding backoff_delay
delay_at rng n base cap h =
    let half = doubled n base cap / 2 in
    let first : ltb (suc n) 1 ≡ false = ground arith in
    (
      half + rng.uniform half,
      rw (first, ceiling-suc n base cap h) refl,
      omega arith,
      omega (arith, rng.uniform-le half),
      omega (arith, rng.uniform-le half, doubled-le n base cap),
    )

pub delay_overflow :
    (rng : Uniform) (attempt base cap : ℕ)
    → 1025 ≤ attempt
    → backoff_delay rng attempt base cap ≡ none
unfolding backoff_delay ceiling
delay_overflow rng attempt base cap h =
    let late : leb 1024 (attempt - 1) ≡ true = ground arith in
    let first : ltb attempt 1 ≡ false = ground arith in rw (first, late) refl

-- For an attempt from 1 to 1023 and the next one, whatever is drawn for either: both have a delay,
-- in the upper half of the base as doubled once for each earlier attempt, up to the cap, and the
-- later delay is no shorter than the earlier one or than half the cap, if that is less. Attempt 0
-- and every attempt from 1025 on have none.
pub backoff-within :
    (rng rng' : Uniform) (n over base cap : ℕ)
    → n < 1023
    → (delay : ℕ) × (later : ℕ) × (backoff_delay rng (suc n) base cap ≡ some delay)
      × (backoff_delay rng' (suc (suc n)) base cap ≡ some later)
      × (doubled n base cap / 2 ≤ delay)
      × (delay ≤ doubled n base cap)
      × (doubled (suc n) base cap / 2 ≤ later)
      × (later ≤ doubled (suc n) base cap)
      × (min delay (cap / 2) ≤ later)
      × (later ≤ cap)
      × (backoff_delay rng 0 base cap ≡ none)
      × (backoff_delay rng (1025 + over) base cap ≡ none)
unfolding backoff_delay
backoff-within rng rng' n over base cap h =
    let (delay, is, above, below, _) = delay_at rng n base cap (omega (arith, h)) in
    let (later, is', above', below', capped) = delay_at rng' (suc n) base cap (omega (arith, h)) in
    (
      delay,
      later,
      is,
      is',
      above,
      below,
      above',
      below',
      omega (arith, above', below),
      capped,
      refl,
      delay_overflow rng (1025 + over) base cap (omega arith),
    )
