-- ===== src/Limits.antt =====
-- The Postgres rate limiter over a sequence of calls.
pub mod Buckets
use native.Mathlib.Nat.{div-add-mod', mod-lt}
use notify_queue.Prelude.{
  ℕ, ◌+◌, ◌-◌, ◌*◌, ◌/◌, ◌≤◌, ◌<◌, ◌≡◌, not, refl, sym, ◌∙◌, ap, String, Bool, true, false, ◌&&◌,
  Option, none, some, List, [], ◌∷◌, ◌++◌, arith, min, ltb, ltb→lt, ◌==◌, str_eq, str_eq_iff,
  if◌then◌else◌, first, select, update_where, count_where, Bool-cases, Option-cases, inl, inr,
}
use mathlib.Core.Path.{subst}
use notify_queue.Tables.{Db, Bucket}
use notify_queue.Tables.Tx.{ok, raise, Result, continue}
use notify_queue.Jobs.RateLimit.{
  window_start, is_bucket, bump, upsert_bucket, try_acquire_rate_limit,
}
use Buckets.{is_none, used, acquire-at, acquire-other}

-- A call of the limiter is a time and a recipient.
pub record Call : Type 0 where
  pub now : ℕ
  pub recipient : String

-- Whether a call is for recipient r in the window that starts at s.
abbrev pub is_for : String → ℕ → ℕ → Call → Bool
is_for r s window call = str_eq call.recipient r && (window_start call.now window == s)

-- How many of the calls, made one after the other, are admitted for r in the window at s.
unfoldable pub admitted : (r : String) (s limit window : ℕ) → List Call → Db → ℕ
admitted r s limit window [] db = 0
admitted r s limit window (call ∷ calls) db =
    elim (try_acquire_rate_limit call.now call.recipient limit window db) [
      | raise e ↦ 0
      | ok (wait, db') ↦
          (if is_for r s window call && is_none wait then 1 else 0)
          + admitted r s limit window calls db'
    ]

try-upsert :
    (now : ℕ) (r : String) (limit window : ℕ) (db db' : Db) (o : Option ℕ)
    → 1 ≤ window
    → upsert_bucket r (window_start now window) limit db ≡ ok (o, db')
    → (wait : Option ℕ) × (try_acquire_rate_limit now r limit window db ≡ ok (wait, db'))
      × (is_none wait ≡ not (is_none o))
unfolding try_acquire_rate_limit
try-upsert now r limit window db db' none w e =
    (some ((now / window + 1) * window - now), ground (arith, e), refl)
try-upsert now r limit window db db' (some n) w e = (none, ground (arith, e), refl)

admitted-step :
    (r : String) (s limit window : ℕ) (call : Call) (calls : List Call) (db db' : Db)
    (wait : Option ℕ)
    → try_acquire_rate_limit call.now call.recipient limit window db ≡ ok (wait, db')
    → admitted r s limit window (call ∷ calls) db
      ≡ (if is_for r s window call && is_none wait then 1 else 0)
        + admitted r s limit window calls db'
unfolding admitted
admitted-step r s limit window call calls db db' wait e =
    ap
      (λ (res : Result (Option ℕ × Db)). elim res as (λ res. ℕ) [
        | raise _ ↦ 0
        | ok (w, db'') ↦
            (if is_for r s window call && is_none w then 1 else 0)
            + admitted r s limit window calls db''
      ])
      e

-- With a limit and a window of at least 1, and a bucket that counts no more than the limit: of any
-- sequence of calls, as many of those for one recipient in one window are admitted as there is room
-- for in its bucket, and if they are fewer than that, all of them.
pub admitted_lem :
    (r : String) (s limit window : ℕ)
    → 1 ≤ limit
    → 1 ≤ window
    → (calls : List Call) (db : Db) → used r s db.rate_limit_buckets ≤ limit
    → admitted r s limit window calls db
      ≡ min (limit - used r s db.rate_limit_buckets) (count_where (is_for r s window) calls)
unfolding admitted count_where
admitted_lem r s limit window l w [] db h = omega arith
admitted_lem r s limit window l w (call ∷ calls) db h =
    let start = window_start call.now window in
    elim (Bool-cases (is_for r s window call)) [
      | inl y ↦
          let same_r : call.recipient ≡ r = ground (arith, str_eq_iff call.recipient r) in
          let same_s : start ≡ s = ground arith in
          let (o, db', e, admits, count) =
            acquire-at r call.recipient s start limit db same_r same_s l in
          let (wait, ran, waits) = try-upsert call.now call.recipient limit window db db' o w e in
          let step = admitted-step r s limit window call calls db db' wait ran in
          step
          ∙ rw y (ground (arith, waits, admits, count, admitted_lem r s limit window l w calls db'))
      | inr z ↦
          let (o, db', e, same) = acquire-other r call.recipient s start limit db z in
          let (wait, ran, _) = try-upsert call.now call.recipient limit window db db' o w e in
          let step = admitted-step r s limit window call calls db db' wait ran in
          step
          ∙ rw z (ground (arith, same, admitted_lem r s limit window l w calls db' (rw same h)))
    ]

window-bounds :
    (now window : ℕ)
    → 1 ≤ window
    → (now / window * window ≤ now) × (now < now / window * window + window)
window-bounds now window w =
    let parts = div-add-mod' now window in
    let rest = mod-lt now {m = window} w in (omega (arith, parts, rest), omega (arith, parts, rest))

next-window : (q window : ℕ) → (q + 1) * window ≡ q * window + window
next-window q window = omega arith

-- The only wait that the code answers.
wait-value :
    (res : Result (Option ℕ × Db)) (w d : ℕ) (db' : Db)
    → continue res (λ row. elim row as (λ row. Db → Result (Option ℕ × Db)) [
      | some n ↦ λ db. ok (none, db)
      | none ↦ λ db. ok (some w, db)
    ])
      ≡ ok (some d, db')
    → d ≡ w
wait-value (raise x) w d db' e = cc
wait-value (ok (none, db)) w d db' e = cc
wait-value (ok (some n, db)) w d db' e = cc

-- A call that is refused is told to wait until the next window starts, which is some time away and
-- at most a window.
pub refused-wait :
    (now : ℕ) (r : String) (limit window d : ℕ) (db db' : Db)
    → try_acquire_rate_limit now r limit window db ≡ ok (some d, db')
    → (now + d ≡ window_start now window + window) × (0 < d) × (d ≤ window)
unfolding try_acquire_rate_limit
refused-wait now r limit window d db db' e = elim (Bool-cases (ltb 0 window)) [
  | inr z ↦ ground arith
  | inl y ↦
      let start = window_start now window in
      let value : d ≡ (now / window + 1) * window - now =
        wait-value (upsert_bucket r start limit db) ((now / window + 1) * window - now) d db'
          (ground arith) in
      let bounds = window-bounds now window (ltb→lt 0 window y) in
      let after = next-window (now / window) window in
      (
        omega (arith, value, bounds, after),
        omega (arith, value, bounds, after),
        omega (arith, value, bounds, after),
      )
]
