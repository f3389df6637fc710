-- ===== src/Services/Readers.antt =====
-- The job cache while the tables change: processes read rows and put them later, workers and operators
-- leave tombstones, and entries expire (services/scheduler.py, services/dead_letters.py and
-- worker/common.py over cache/job_cache.py).
use notify_queue.Prelude.{
  ℕ, zero, suc, ◌≤◌, ◌≡◌, ◌≢◌, refl, sym, ◌∙◌, inl, inr, Option, none, some, List, ◌∷◌, arith,
  get_elem?, ◌==◌, ==_iff, Bool-cases,
}
use mathlib.Core.Path.{subst}
use notify_queue.Domain.{Job}
use notify_queue.Domain.Schemas.{JobOut, from_domain}
use notify_queue.Tables.{Db, Uuids, IsFresh, find}
use notify_queue.Tables.Find.{find-id}
use notify_queue.Invariant.{IsValid}
use notify_queue.History.{Step, here, next}
use notify_queue.History.Safety.{Reach-IsValid}
use notify_queue.History.Versions.{Reach-version}
use notify_queue.Cache.{
  Link, answered, lost, down, is_newer, Entry, Store, set_if_newer, write, put, invalidate, expire,
}

-- The tables, the entries of jobs, and the rows that processes have read and may put.
pub record Site : Type 0 where
  pub db : Db
  pub cache : Store JobOut
  pub readers : List Job

-- What happens next; the entry of the job `kept`, if one is named, does not expire.
pub data Act (u : Uuids) (kept : Option ℕ) : Site → Site → Type 0 where
  commits : {db' : Db} (s : Site) → Step u s.db db' → Act u kept s (record s { db = db' })
  reads :
      (s : Site) (i : ℕ) (j : Job)
      → find i s.db.jobs ≡ some j
      → Act u kept s (record s { readers = j ∷ s.readers })
  puts :
      (s : Site) (link : Link) (n : ℕ) (j : Job)
      → get_elem? s.readers n ≡ some j
      → Act u kept s
          (record s { cache = (put JobOut link j.id j.version (from_domain j) s.cache).1 })
  invalidates :
      (s : Site) (link : Link) (i version : ℕ)
      → Act u kept s (record s { cache = invalidate JobOut link i version s.cache })
  expires :
      (s : Site) (i : ℕ)
      → kept ≢ some i
      → Act u kept s (record s { cache = expire JobOut i s.cache })

pub data Run (u : Uuids) (kept : Option ℕ) (s : Site) : Site → Type 0 where
  rests : Run u kept s s
  goes_on : {t t' : Site} → Run u kept s t → Act u kept t t' → Run u kept s t'

-- The row as it is, or as it was at an earlier version.
abbrev pub Seen : Db → ℕ → Job → Type 0
Seen db i j =
    (k : Job) × (find i db.jobs ≡ some k)
    × (j.version ≤ k.version)
    × (k.version ≡ j.version → k ≡ j)

-- A text in the cache was made of a row of that job, at the version of the entry.
abbrev pub IsHonest : Db → ℕ → Option (Entry JobOut) → Type 0
IsHonest db i o =
    (e : Entry JobOut) (out : JobOut)
    → o ≡ some e
    → e.body ≡ some out
    → (j : Job) × (out ≡ from_domain j) × (j.id ≡ i) × (j.version ≡ e.version) × Seen db i j

pub record IsSound (u : Uuids) (s : Site) : Type 0 where
  pub valid : IsValid u s.db
  pub cached : (i : ℕ) → IsHonest s.db i (s.cache i)
  pub read : (n : ℕ) (j : Job) → get_elem? s.readers n ≡ some j → Seen s.db j.id j

-- What the script writes, if it does not keep a newer entry.
module _ (db : Db) (i n version : ℕ) (b : Option JobOut) (store : Store JobOut) where
  set-IsHonest :
      (i ≡ n → IsHonest db i (some (record { version = version; body = b })))
      → IsHonest db i (store i)
      → IsHonest db i ((set_if_newer JobOut n version b store).1 i)
  unfolding set_if_newer
  set-IsHonest new old = elim (Bool-cases (is_newer JobOut (store n) version)) [
    | inl y ↦ rw y old
    | inr z ↦ elim (Bool-cases (n == i)) [
      | inl y ↦ rw (z, y) (new (sym ((==_iff n i).0 y)))
      | inr w ↦ rw (z, w) old
    ]
  ]

  write-IsHonest :
      (link : Link)
      → (i ≡ n → IsHonest db i (some (record { version = version; body = b })))
      → IsHonest db i (store i)
      → IsHonest db i ((write JobOut link n version b store).1 i)
  unfolding write
  write-IsHonest answered new old = set-IsHonest new old
  write-IsHonest lost new old = set-IsHonest new old
  write-IsHonest down new old = old

entry_text :
    (j : Job) (e : Entry JobOut) (out : JobOut)
    → some (record { version = j.version; body = some (from_domain j) }) ≡ some e
    → e.body ≡ some out
    → (out ≡ from_domain j) × (j.version ≡ e.version)
entry_text j e out q body = (cc, cc)

expire-IsHonest :
    (db : Db) (store : Store JobOut) (i x : ℕ)
    → IsHonest db x (store x)
    → IsHonest db x (expire JobOut i store x)
unfolding expire
expire-IsHonest db store i x h = elim (Bool-cases (i == x)) [
  | inl y ↦ rw y (λ e out q body. cc)
  | inr z ↦ rw z h
]

read_now :
    (db : Db) (readers : List Job) (i : ℕ) (j : Job)
    → find i db.jobs ≡ some j
    → ((n : ℕ) (k : Job) → get_elem? readers n ≡ some k → Seen db k.id k)
    → (n : ℕ) (k : Job) → get_elem? (j ∷ readers) n ≡ some k
    → Seen db k.id k
read_now db readers i j at h zero k e =
    let same : j ≡ k = cc in
    subst (λ x. Seen db x.id x) same
      (
        j,
        subst (λ x. find x db.jobs ≡ some j) (sym (find-id i db.jobs {j = j} at)) at,
        omega arith,
        λ q. refl,
      )
read_now db readers i j at h (suc n) k e = h n k e

module _ (u : Uuids) (f : IsFresh u) where
  later :
      {db db' : Db} (i : ℕ) (j : Job) → IsValid u db → Step u db db' → Seen db i j → Seen db' i j
  later i j v s (k, at, ge, same) =
      let (l, at', ge', same') = Reach-version u f i k v at (next here s) in
      (
        l,
        at',
        omega (arith, ge, ge'),
        λ e. same' (omega (arith, ge, ge', e)) ∙ same (omega (arith, ge, ge', e)),
      )

  pub Act-IsSound : (kept : Option ℕ) {s t : Site} → Act u kept s t → IsSound u s → IsSound u t
  Act-IsSound kept (commits s st) h = record {
    valid = Reach-IsValid u f h.valid (next here st);
    cached = λ i e out at body.
        let (j, same, mine, version, seen) = h.cached i e out at body in
        (j, same, mine, version, later i j h.valid st seen);
    read = λ n j at. later j.id j h.valid st (h.read n j at);
  }
  Act-IsSound kept (reads s i j at) h = record {
    valid = h.valid;
    cached = h.cached;
    read = λ n k e. read_now s.db s.readers i j at h.read n k e;
  }
  Act-IsSound kept (puts s link n j at) h = record {
    valid = h.valid;
    cached = λ i.
        unfold put in
        write-IsHonest s.db i j.id j.version (some (from_domain j)) s.cache link
          (λ e e' out q body.
            let (same, version) = entry_text j e' out q body in
            (j, same, sym e, version, subst (λ x. Seen s.db x j) (sym e) (h.read n j at)))
          (h.cached i);
    read = h.read;
  }
  Act-IsSound kept (invalidates s link i version) h = record {
    valid = h.valid;
    cached = λ x.
        unfold invalidate in
        write-IsHonest s.db x i version none s.cache link (λ e e' out q body. cc) (h.cached x);
    read = h.read;
  }
  Act-IsSound kept (expires s i ne) h = record {
    valid = h.valid;
    cached = λ x. expire-IsHonest s.db s.cache i x (h.cached x);
    read = h.read;
  }

  pub Run-IsSound : (kept : Option ℕ) {s t : Site} → Run u kept s t → IsSound u s → IsSound u t
  Run-IsSound kept rests h = h
  Run-IsSound kept (goes_on r a) h = Act-IsSound kept a (Run-IsSound kept r h)

  Act-Seen :
      (kept : Option ℕ) {s t : Site} (i : ℕ) (j : Job)
      → Act u kept s t
      → IsSound u s
      → Seen s.db i j
      → Seen t.db i j
  Act-Seen kept i j (commits s st) h seen = later i j h.valid st seen
  Act-Seen kept i j (reads s x k at) h seen = seen
  Act-Seen kept i j (puts s link n k at) h seen = seen
  Act-Seen kept i j (invalidates s link x version) h seen = seen
  Act-Seen kept i j (expires s x ne) h seen = seen

  pub Run-Seen :
      (kept : Option ℕ) {s t : Site} (i : ℕ) (j : Job)
      → Run u kept s t
      → IsSound u s
      → Seen s.db i j
      → Seen t.db i j
  Run-Seen kept i j rests h seen = seen
  Run-Seen kept i j (goes_on r a) h seen =
      Act-Seen kept i j a (Run-IsSound kept r h) (Run-Seen kept i j r h seen)
