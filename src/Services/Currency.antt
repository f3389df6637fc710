-- ===== src/Services/Currency.antt =====
-- What a client gets for a job after a change of it: what `JobService.get` answers (services/scheduler.py).
use notify_queue.Prelude.{
  ℕ, ◌≤◌, ◌≡◌, ◌≢◌, refl, sym, ◌∙◌, ap, inl, inr, true, false, Option, none, some, [], arith, ◌==◌,
  ==_iff, Bool-cases, Option-cases,
}
use mathlib.Core.Path.{subst}
use notify_queue.Domain.{Job}
use notify_queue.Domain.Schemas.{JobOut, from_domain}
use notify_queue.Tables.{Db, Uuids, IsFresh, find}
use notify_queue.Tables.Find.{find-id, first-select-find}
use notify_queue.Invariant.{IsValid}
use notify_queue.Cache.{
  Link, answered, lost, down, is_newer, text_of, Entry, Store, set_if_newer, write, put, invalidate,
  get, expire, KeyStore,
}
use notify_queue.Services.Scheduler.{Shared, Visit, get_out}
use notify_queue.Jobs.Create.{get_job}
use notify_queue.Services.Readers.{
  Site, Act, commits, reads, puts, invalidates, expires, Run, rests, goes_on, IsHonest, IsSound,
  Act-IsSound, Run-IsSound, Run-Seen,
}

-- The entry is there, at version v or later.
abbrev pub AtLeast : ℕ → Option (Entry JobOut) → Type 0
AtLeast v none = ⊥
AtLeast v (some e) = v ≤ e.version

module _ (v i : ℕ) where
  set-AtLeast :
      (n version : ℕ) (b : Option JobOut) (store : Store JobOut)
      → AtLeast v (store i)
      → AtLeast v ((set_if_newer JobOut n version b store).1 i)
  unfolding set_if_newer
  set-AtLeast n version b store h = elim (Bool-cases (is_newer JobOut (store n) version)) [
    | inl y ↦ rw y h
    | inr z ↦ elim (Bool-cases (n == i)) [
      | inl y ↦
          rw (z, y)
            (newer (store i)
              (subst (λ x. is_newer JobOut (store x) version ≡ false) ((==_iff n i).0 y) z) h)
      | inr w ↦ rw (z, w) h
    ]
  ]
    where
      newer :
          (o : Option (Entry JobOut))
          → is_newer JobOut o version ≡ false
          → AtLeast v o
          → v ≤ version
      newer none z c = absurd c
      newer (some e) z c = ground arith

  write-AtLeast :
      (link : Link) (n version : ℕ) (b : Option JobOut) (store : Store JobOut)
      → AtLeast v (store i)
      → AtLeast v ((write JobOut link n version b store).1 i)
  unfolding write
  write-AtLeast answered n version b store h = set-AtLeast n version b store h
  write-AtLeast lost n version b store h = set-AtLeast n version b store h
  write-AtLeast down n version b store h = h

  Act-AtLeast :
      (u : Uuids) {s t : Site} → Act u (some i) s t → AtLeast v (s.cache i) → AtLeast v (t.cache i)
  unfolding put invalidate expire
  Act-AtLeast u (commits s st) h = h
  Act-AtLeast u (reads s x j at) h = h
  Act-AtLeast u (puts s link n j at) h =
      write-AtLeast link j.id j.version (some (from_domain j)) s.cache h
  Act-AtLeast u (invalidates s link x version) h = write-AtLeast link x version none s.cache h
  Act-AtLeast u (expires s x ne) h = rw (x_other x ne) h
    where
      x_other : (x : ℕ) → some i ≢ some x → (x == i) ≡ false
      x_other x ne = ground (arith, λ (e : i ≡ x). ne (ap some e))

  Run-AtLeast :
      (u : Uuids) {s t : Site} → Run u (some i) s t → AtLeast v (s.cache i) → AtLeast v (t.cache i)
  Run-AtLeast u rests h = h
  Run-AtLeast u (goes_on r a) h = Act-AtLeast u a (Run-AtLeast u r h)

  tombstone-AtLeast : (store : Store JobOut) → AtLeast v ((set_if_newer JobOut i v none store).1 i)
  unfolding set_if_newer
  tombstone-AtLeast store = elim (Bool-cases (is_newer JobOut (store i) v)) [
    | inl y ↦ rw y (newer (store i) y)
    | inr z ↦ rw (z, (==_iff i i).1 refl) (omega arith)
  ]
    where
      newer : (o : Option (Entry JobOut)) → is_newer JobOut o v ≡ true → AtLeast v o
      newer none y = cc
      newer (some e) y = ground arith

  pub invalidate-AtLeast :
      (link : Link) (store : Store JobOut)
      → link ≢ down
      → AtLeast v (invalidate JobOut link i v store i)
  unfolding invalidate write set_if_newer
  invalidate-AtLeast answered store up = tombstone-AtLeast store
  invalidate-AtLeast lost store up = tombstone-AtLeast store
  invalidate-AtLeast down store up = absurd (up refl)

abbrev pub to_shared : Site → KeyStore → Shared
to_shared s keys = record { db = s.db; cache = s.cache; keys = keys }

-- Nothing is cached, and nobody has read a row.
abbrev pub cold : Db → Site
cold db = record { db = db; cache = λ i. none; readers = [] }

abbrev pub tombstoned : Link → ℕ → ℕ → Site → Site
tombstoned link i version s = record s { cache = invalidate JobOut link i version s.cache }

cold-IsSound : (u : Uuids) (db : Db) → IsValid u db → IsSound u (cold db)
cold-IsSound u db v = record { valid = v; cached = λ i e out q body. cc; read = λ n j e. cc }

-- The text of an entry, or the row of the table.
abbrev Answers : ℕ → Job → Job → JobOut → Type 0
Answers i j k out =
    (out.id ≡ i)
    × (j.version ≤ out.version)
    × (out.version ≤ k.version)
    × (out.version ≡ k.version → out ≡ from_domain k)

some_inj : {a b : Job} → some a ≡ some b → a ≡ b
some_inj e = cc

module _ (v : Visit) (keys : KeyStore) (u : Uuids) (t : Site) (sound : IsSound u t) (i : ℕ)
    (j k : Job) (now : find i t.db.jobs ≡ some k) (newer : j.version ≤ k.version)
    (kept : AtLeast j.version (t.cache i)) where
  from_table : Answers i j k (from_domain k)
  from_table = (find-id i t.db.jobs {j = k} now, newer, omega arith, λ e. refl)

  from_cache :
      (o : Option (Entry JobOut))
      → IsHonest t.db i o
      → AtLeast j.version o
      → (out : JobOut) → text_of JobOut o ≡ some out
      → Answers i j k out
  from_cache none honest h out e = cc
  from_cache (some entry) honest h out e =
      let (r, same, mine, version, seen) = honest entry out refl e in
      let (l, at, le, equal) = seen in
      let current : l ≡ k = some_inj (sym at ∙ now) in
      let row : out.version ≡ r.version = ap (λ (x : JobOut). x.version) same in
      (
        ap (λ (x : JobOut). x.id) same ∙ mine,
        omega (arith, row, version, h),
        omega (arith, row, le, ap (λ (x : Job). x.version) current),
        λ q.
            same
            ∙ ap from_domain
                (sym (sym current ∙ equal (ap (λ (x : Job). x.version) current ∙ sym q ∙ row))),
      )

  get_out-Answers :
      (out : JobOut) × ((get_out v i (to_shared t keys)).0 ≡ some out) × Answers i j k out
  unfolding get_out get_job get
  get_out-Answers = elim (Option-cases (get JobOut v.read_job i t.cache)) [
    | inl e ↦ rw (e, get_out, first-select-find i t.db.jobs, now) (from_domain k, refl, from_table)
    | inr (out, e) ↦
        rw (e, get_out)
          (out, refl, from_cache (t.cache i) (sound.cached i) kept out (read v.read_job out e))
  ]
    where
      read :
          (link : Link) (out : JobOut)
          → get JobOut link i t.cache ≡ some out
          → text_of JobOut (t.cache i) ≡ some out
      read link out e = ground arith

-- With fresh uuids, from well-formed tables and an empty cache, while transactions, reads of rows,
-- late puts of what was read, invalidations and expiries come in any order: once an invalidation of
-- a job at its version has been carried out, whatever follows, except that the entry of the job does
-- not expire, a GET of the job finds the job, at no earlier version, and if that is the version of
-- the row by then, exactly as the row is.
pub get_after_change :
    (u : Uuids) (f : IsFresh u) (db : Db) (s t : Site) (i : ℕ) (j : Job) (link : Link)
    → IsValid u db
    → Run u none (cold db) s
    → find i s.db.jobs ≡ some j
    → link ≢ down
    → Run u (some i) (tombstoned link i j.version s) t
    → (v : Visit) (keys : KeyStore)
    → (k : Job) × (out : JobOut) × (find i t.db.jobs ≡ some k)
      × ((get_out v i (to_shared t keys)).0 ≡ some out)
      × (out.id ≡ i)
      × (j.version ≤ out.version)
      × (out.version ≤ k.version)
      × (out.version ≡ k.version → out ≡ from_domain k)
get_after_change u f db s t i j link valid before at up after v keys =
    let sound = Run-IsSound u f none before (cold-IsSound u db valid) in
    let marked = Act-IsSound u f none (invalidates s link i j.version) sound in
    let (k, now, newer, same) =
      Run-Seen u f (some i) i j after marked (j, at, omega arith, λ q. refl) in
    let (out, answer, answers) =
      get_out-Answers v keys u t (Run-IsSound u f (some i) after marked) i j k now newer
        (Run-AtLeast j.version i u after (invalidate-AtLeast j.version i link s.cache up)) in
    (k, out, now, answer, answers.0, answers.1, answers.2, answers.3)
