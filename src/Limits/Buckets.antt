-- ===== src/Limits/Buckets.antt =====
-- One call of the Postgres rate limiter, on the bucket of its recipient and window.
use notify_queue.Prelude.{
  ℕ, ◌+◌, ◌≤◌, ◌≡◌, not, refl, sym, ap, String, Bool, true, false, ◌&&◌, Option, none, some, List,
  [], ◌∷◌, ◌++◌, arith, ltb, ◌==◌, str_eq, str_eq_iff, if◌then◌else◌, first, select, update_where,
  Bool-cases, Option-cases, inl, inr,
}
use mathlib.Core.Path.{subst}
use notify_queue.Tables.{Db, Bucket}
use notify_queue.Tables.Tx.{ok}
use notify_queue.Jobs.RateLimit.{is_bucket, bump, upsert_bucket}

abbrev pub is_none : Option ℕ → Bool
is_none none = true
is_none (some n) = false

-- What the bucket of a recipient and a window counts.
abbrev pub used : String → ℕ → List Bucket → ℕ
used r s bs = elim (first (select (is_bucket r s) bs)) [ none ↦ 0 | some b ↦ b.count ]

module _ (p q : Bucket → Bool) (keeps : (b : Bucket) → p (bump b) ≡ p b) where
  first-bump :
      (bs : List Bucket) {b : Bucket}
      → first (select p bs) ≡ some b
      → first (select p (update_where p bump bs)) ≡ some (bump b)
  unfolding select update_where
  first-bump [] h = cc
  first-bump (x ∷ bs) {b} h = elim (Bool-cases (p x)) [
    | inl y ↦ ground (arith, keeps x)
    | inr z ↦ ground (arith, first-bump bs {b = b})
  ]

  first-apart :
      ((b : Bucket) → p b ≡ true → q b ≡ false)
      → (bs : List Bucket) → first (select p (update_where q bump bs)) ≡ first (select p bs)
  unfolding select update_where
  first-apart apart [] = refl
  first-apart apart (x ∷ bs) = elim (Bool-cases (p x)) [
    | inl y ↦ ground (arith, apart x)
    | inr z ↦ ground (arith, first-apart apart bs, keeps x)
  ]

  first-append :
      (bs : List Bucket) (row : Bucket)
      → first (select p (bs ++ row ∷ []))
        ≡ elim (first (select p bs)) [ some b ↦ some b | none ↦ if p row then some row else none ]
  unfolding select
  first-append [] row = ground arith
  first-append (x ∷ bs) row = ground (arith, first-append bs row)

apart-buckets :
    (r r' : String) (s s' : ℕ) (b : Bucket)
    → (str_eq r' r && (s' == s)) ≡ false
    → is_bucket r s b ≡ true
    → is_bucket r' s' b ≡ false
apart-buckets r r' s s' b h k =
    ground (arith, str_eq_iff r' r, str_eq_iff b.recipient r, str_eq_iff b.recipient r')

module _ (r : String) (s limit : ℕ) (db : Db) where
  bs : List Bucket
  bs = db.rate_limit_buckets

  new_bucket : Bucket
  new_bucket = record { recipient = r; window_start = s; count = 1 }

  upsert-new :
      first (select (is_bucket r s) bs) ≡ none
      → upsert_bucket r s limit db
        ≡ ok (some 1, record db { rate_limit_buckets = bs ++ new_bucket ∷ [] })
  unfolding upsert_bucket bs new_bucket
  upsert-new e = rw e refl

  upsert-more :
      (b : Bucket)
      → first (select (is_bucket r s) bs) ≡ some b
      → ltb b.count limit ≡ true
      → upsert_bucket r s limit db
        ≡ ok (
          some (b.count + 1),
          record db { rate_limit_buckets = update_where (is_bucket r s) bump bs },
        )
  unfolding upsert_bucket bs
  upsert-more b e y = rw e (ground arith)

  upsert-full :
      (b : Bucket)
      → first (select (is_bucket r s) bs) ≡ some b
      → ltb b.count limit ≡ false
      → upsert_bucket r s limit db ≡ ok (none, db)
  unfolding upsert_bucket bs
  upsert-full b e z = rw e (ground arith)

  -- A call writes nothing but buckets.
  pub upsert_result :
      (o : Option ℕ) × (rows : List Bucket) × (upsert_bucket r s limit db
        ≡ ok (o, record db { rate_limit_buckets = rows }))
  unfolding bs
  upsert_result = elim (Option-cases (first (select (is_bucket r s) bs))) [
    | inl e ↦ (some 1, bs ++ new_bucket ∷ [], upsert-new e)
    | inr (b, e) ↦ elim (Bool-cases (ltb b.count limit)) [
      | inl y ↦ (some (b.count + 1), update_where (is_bucket r s) bump bs, upsert-more b e y)
      | inr z ↦ (none, bs, upsert-full b e z)
    ]
  ]

-- A call on the bucket of r' and s' is admitted while the bucket of r and s counts less than the limit,
-- and is counted there then.
abbrev pub Mine : (r : String) (s : ℕ) (r' : String) (s' : ℕ) (limit : ℕ) → Db → Type 0
Mine r s r' s' limit db =
    (o : Option ℕ) × (db' : Db) × (upsert_bucket r' s' limit db ≡ ok (o, db'))
    × (is_none o ≡ not (ltb (used r s db.rate_limit_buckets) limit))
    × (used r s db'.rate_limit_buckets ≡ (
        if ltb (used r s db.rate_limit_buckets) limit
        then used r s db.rate_limit_buckets + 1
        else used r s db.rate_limit_buckets))

acquire-Mine : (r : String) (s limit : ℕ) (db : Db) → 1 ≤ limit → Mine r s r s limit db
unfolding bs new_bucket
acquire-Mine r s limit db room =
    elim (Option-cases (first (select (is_bucket r s) db.rate_limit_buckets))) [
      | inl e ↦
          let grown =
            first-append (is_bucket r s) (is_bucket r s) (λ b. refl) (bs r s limit db)
              (new_bucket r s limit db) in
          (
            some 1,
            record db { rate_limit_buckets = bs r s limit db ++ new_bucket r s limit db ∷ [] },
            upsert-new r s limit db e,
            ground (arith, e),
            ground (arith, e, grown, str_eq_iff r r),
          )
      | inr (b, e) ↦ elim (Bool-cases (ltb b.count limit)) [
        | inl y ↦
            let bumped =
              first-bump (is_bucket r s) (is_bucket r s) (λ b. refl) (bs r s limit db) {b = b} e in
            (
              some (b.count + 1),
              record db {
                rate_limit_buckets = update_where (is_bucket r s) bump (bs r s limit db);
              },
              upsert-more r s limit db b e y,
              ground (arith, e, y),
              ground (arith, e, y, bumped),
            )
        | inr z ↦
            (none, db, upsert-full r s limit db b e z, ground (arith, e, z), ground (arith, e, z))
      ]
    ]

pub acquire-at :
    (r r' : String) (s s' limit : ℕ) (db : Db)
    → r' ≡ r
    → s' ≡ s
    → 1 ≤ limit
    → Mine r s r' s' limit db
acquire-at r r' s s' limit db e e' room =
    subst (λ t. Mine r s r' t limit db) (sym e')
      (subst (λ q. Mine r s q s limit db) (sym e) (acquire-Mine r s limit db room))

-- A call for another recipient or window does not count.
pub acquire-other :
    (r r' : String) (s s' limit : ℕ) (db : Db)
    → (str_eq r' r && (s' == s)) ≡ false
    → (o : Option ℕ) × (db' : Db) × (upsert_bucket r' s' limit db ≡ ok (o, db'))
      × (used r s db'.rate_limit_buckets ≡ used r s db.rate_limit_buckets)
unfolding bs new_bucket
acquire-other r r' s s' limit db apart =
    elim (Option-cases (first (select (is_bucket r' s') db.rate_limit_buckets))) [
      | inl e ↦
          let grown =
            first-append (is_bucket r s) (is_bucket r' s') (λ b. refl) (bs r' s' limit db)
              (new_bucket r' s' limit db) in
          (
            some 1,
            record db { rate_limit_buckets = bs r' s' limit db ++ new_bucket r' s' limit db ∷ [] },
            upsert-new r' s' limit db e,
            ground (arith, grown, apart),
          )
      | inr (b, e) ↦ elim (Bool-cases (ltb b.count limit)) [
        | inl y ↦ (
          some (b.count + 1),
          record db {
            rate_limit_buckets = update_where (is_bucket r' s') bump (bs r' s' limit db);
          },
          upsert-more r' s' limit db b e y,
          ap (λ o. elim o as (λ o. ℕ) [ none ↦ 0 | some b ↦ b.count ])
              (first-apart (is_bucket r s) (is_bucket r' s') (λ b. refl)
                (λ b k. apart-buckets r r' s s' b apart k) (bs r' s' limit db)),
        )
        | inr z ↦ (none, db, upsert-full r' s' limit db b e z, refl)
      ]
    ]
