-- ===== src/Services/Coherence.antt =====
-- What Redis holds for the API, against the tables.
use notify_queue.Prelude.{
  ℕ, ◌≡◌, refl, String, Bool, true, false, some, List, [], ◌∷◌, ◌++◌, arith, str_eq, str_eq_iff,
  if◌then◌else◌, first, select, exists_where, ◌==◌, ==_iff, Bool-cases, Option-cases, inl, inr,
}
use mathlib.Core.Path.{subst}
use notify_queue.Domain.{Job}
use notify_queue.Domain.Schemas.{JobOut, from_domain}
use notify_queue.Jobs.Create.{has_key, get_job}
use notify_queue.Cache.{
  Link, answered, lost, down, text_of, set_if_newer, write, put, get, put_idempotency,
}
use notify_queue.Services.Scheduler.{Shared, Visit, put_out, get_out, remember}

-- Redis knows of a key what the tables say, and of a job an entry of that job.
pub record Coherent (s : Shared) : Type 0 where
  pub of_keys :
      (key : String) (id : ℕ) (hash : String)
      → s.keys key ≡ some (id, hash)
      → (j : Job) × (first (select (has_key key) s.db.jobs) ≡ some j)
        × (j.id ≡ id)
        × (j.request_hash ≡ hash)
  pub of_jobs : (i : ℕ) (out : JobOut) → text_of JobOut (s.cache i) ≡ some out → out.id ≡ i

module _ (p : Job → Bool) where
  pub first-exists :
      (js : List Job) {j : Job} → first (select p js) ≡ some j → exists_where p js ≡ true
  unfolding select exists_where
  first-exists [] e = cc
  first-exists (x ∷ js) {j} e = ground (arith, first-exists js {j = j})

  -- A row that was selected is found by its number too, if not another row with that number.
  pub first-by-id :
      (js : List Job) {j : Job}
      → first (select p js) ≡ some j
      → (k : Job) × (first (select (λ x. x.id == j.id) js) ≡ some k) × (k.id ≡ j.id)
  unfolding select
  first-by-id [] e = cc
  first-by-id (x ∷ js) {j} e = elim (Bool-cases (x.id == j.id)) [
    | inl y ↦ (x, rw y refl, (==_iff x.id j.id).0 y)
    | inr z ↦ rw z (first-by-id js {j = j} (skipped z))
  ]
    where
      skipped : (x.id == j.id) ≡ false → first (select p js) ≡ some j
      skipped z = ground arith

  pub first-append :
      (js : List Job) (row : Job) {j : Job}
      → first (select p js) ≡ some j
      → first (select p (js ++ row ∷ [])) ≡ some j
  unfolding select
  first-append [] row e = cc
  first-append (x ∷ js) row {j} e = ground (arith, first-append js row {j = j})

module _ (v : Visit) {s : Shared} where
  entry :
      (out : JobOut)
      → Coherent s
      → (i : ℕ) (o : JobOut)
      → text_of JobOut ((set_if_newer JobOut out.id out.version (some out) s.cache).1 i) ≡ some o
      → o.id ≡ i
  unfolding set_if_newer
  entry out h i o e = ground (arith, h.of_jobs i o)

  pub put_out-Coherent : (link : Link) (out : JobOut) → Coherent s → Coherent (put_out link out s)
  unfolding put write
  put_out-Coherent answered out h = record { of_keys = h.of_keys; of_jobs = entry out h }
  put_out-Coherent lost out h = record { of_keys = h.of_keys; of_jobs = entry out h }
  put_out-Coherent down out h = h

  -- A lookup of a job that the tables have gives an entry of that job.
  pub get_out-found :
      (i : ℕ) (k : Job)
      → Coherent s
      → first (select (λ x. x.id == i) s.db.jobs) ≡ some k
      → k.id ≡ i
      → (out : JobOut) × ((get_out v i s).0 ≡ some out)
        × (out.id ≡ i)
        × ((get_out v i s).1.db ≡ s.db)
        × Coherent (get_out v i s).1
  unfolding get_out get_job get
  get_out-found i k h at same = elim (Option-cases (get JobOut v.read_job i s.cache)) [
    | inl e ↦
        rw (e, at, get_out)
          (from_domain k, refl, same, refl, put_out-Coherent v.write_job (from_domain k) h)
    | inr (out, e) ↦ rw (e, get_out) (out, refl, h.of_jobs i out (answer v.read_job out e), refl, h)
  ]
    where
      answer :
          (link : Link) (out : JobOut)
          → get JobOut link i s.cache ≡ some out
          → text_of JobOut (s.cache i) ≡ some out
      answer link out e = ground arith

module _ (v : Visit) (key : String) where
  pub remember-Coherent :
      (j : Job) (s : Shared)
      → Coherent s
      → first (select (has_key key) s.db.jobs) ≡ some j
      → Coherent (remember v (some key) j s)
  unfolding put_idempotency
  remember-Coherent j s h at = record {
    of_keys = λ k id hash e. learnt v.write_key k id hash e;
    of_jobs = h.of_jobs;
  }
    where
      written :
          (k : String) (id : ℕ) (hash : String)
          → (if str_eq key k then some (j.id, j.request_hash) else s.keys k) ≡ some (id, hash)
          → (i : Job) × (first (select (has_key k) s.db.jobs) ≡ some i)
            × (i.id ≡ id)
            × (i.request_hash ≡ hash)
      written k id hash e = elim (Bool-cases (str_eq key k)) [
        | inl y ↦
            let same = (str_eq_iff key k).0 y in
            (
              j,
              subst (λ x. first (select (has_key x) s.db.jobs) ≡ some j) same at,
              cc (rw y at e),
              cc (rw y at e),
            )
        | inr z ↦ h.of_keys k id hash (rw z at e)
      ]

      learnt :
          (link : Link) (k : String) (id : ℕ) (hash : String)
          → put_idempotency link key j.id j.request_hash s.keys k ≡ some (id, hash)
          → (i : Job) × (first (select (has_key k) s.db.jobs) ≡ some i)
            × (i.id ≡ id)
            × (i.request_hash ≡ hash)
      learnt answered k id hash e = written k id hash e
      learnt lost k id hash e = written k id hash e
      learnt down k id hash e = h.of_keys k id hash e
