-- ===== src/Cache/Keyspace.antt =====
-- The texts in Redis are the entries of the cache: every operation on the keyspace does what the operation
-- on entries does.
use notify_queue.Prelude.{
  ℕ, ◌≡◌, refl, String, Option, none, some, ltb, ◌==◌, str_eq, if◌then◌else◌, Bool-cases, inl, inr,
}
use notify_queue.Cache.{
  Link, answered, lost, down, Entry, Store, KeyStore, is_newer, set_if_newer, write, get, set,
  text_of, get_idempotency,
}
use notify_queue.Cache.Text.{
  Formats, Redis, set_text, hit, job_key, idem_key, is_newer_text, set_if_newer_text, write_text,
  read_job, get_text, read_key, get_idempotency_text,
}
use notify_queue.Cache.Keys.{
  IsFormats, pair_text, partition-pair_text, lacks-pair_text, is_empty-pair_text, to_lookup,
  body_text, encode, encode_key, Represents, same_job, same_key, job_key-apart, idem_key-apart,
}

module _ {Body : Type 0} (F : Formats Body) (ok : IsFormats F) (prefix : String) where
  -- The text of an entry is taken apart again.
  version_read :
      (version n : ℕ) (body : String)
      → is_newer_text F prefix (some (pair_text (F.show_version version) body)) n ≡ ltb n version
  version_read version n body =
      rw
        (
          lacks-pair_text (F.show_version version) body,
          partition-pair_text (F.show_version version) body (ok.plain_version version),
          ok.read_version version,
        )
        refl

  body_read :
      (version : ℕ) (body : Option Body)
      → read_job F prefix (some (pair_text (F.show_version version) (body_text F prefix body)))
        ≡ to_lookup body
  body_read version none =
      rw
        (
          is_empty-pair_text (F.show_version version) "",
          partition-pair_text (F.show_version version) "" (ok.plain_version version),
        )
        refl
  body_read version (some b) =
      rw
        (
          is_empty-pair_text (F.show_version version) (F.dump b),
          partition-pair_text (F.show_version version) (F.dump b) (ok.plain_version version),
          ok.some_body b,
          ok.read_body b,
        )
        refl

  key_read :
      (id : ℕ) (hash : String)
      → read_key F prefix (some (pair_text (F.show_id id) hash)) ≡ hit (id, hash)
  key_read id hash =
      rw
        (
          is_empty-pair_text (F.show_id id) hash,
          partition-pair_text (F.show_id id) hash (ok.plain_id id),
          ok.read_id id,
        )
        refl

  -- Lookups.
  pub get-Represents :
      {redis : Redis} {jobs : Store Body} {keys : KeyStore}
      → Represents F prefix redis jobs keys
      → (link : Link) (i : ℕ) → get_text F prefix link i redis ≡ to_lookup (get Body link i jobs)
  unfolding get
  get-Represents {jobs} r answered i = rw (r.of_jobs i) (found (jobs i))
    where
      found :
          (o : Option (Entry Body))
          → read_job F prefix (encode F prefix o) ≡ to_lookup (text_of Body o)
      found none = refl
      found (some e) = body_read e.version e.body
  get-Represents r lost i = refl
  get-Represents r down i = refl

  pub get_idempotency-Represents :
      {redis : Redis} {jobs : Store Body} {keys : KeyStore}
      → Represents F prefix redis jobs keys
      → (link : Link) (k : String)
      → get_idempotency_text F prefix link k redis ≡ to_lookup (get_idempotency link k keys)
  unfolding get_idempotency
  get_idempotency-Represents {keys} r answered k = rw (r.of_keys k) (found (keys k))
    where
      found : (o : Option (ℕ × String)) → read_key F prefix (encode_key F prefix o) ≡ to_lookup o
      found none = refl
      found (some (id, hash)) = key_read id hash
  get_idempotency-Represents r lost k = refl
  get_idempotency-Represents r down k = refl

  -- Writes of jobs.
  set_job-Represents :
      {redis : Redis} {jobs : Store Body} {keys : KeyStore}
      → Represents F prefix redis jobs keys
      → (i version : ℕ) (body : Option Body)
      → Represents F prefix
          (set_text
            (job_key F prefix i)
            (pair_text (F.show_version version) (body_text F prefix body))
            redis)
          (set Body i (record { version = version; body = body }) jobs)
          keys
  set_job-Represents r i version body = record {
    of_jobs = λ j.
        rw (same_job F ok prefix i j)
          (elim (Bool-cases (i == j)) [ inl y ↦ rw y refl | inr z ↦ rw z (r.of_jobs j) ]);
    of_keys = λ k. rw (job_key-apart F ok prefix i k) (r.of_keys k);
  }

  set_if_newer-Represents :
      {redis : Redis} {jobs : Store Body} {keys : KeyStore}
      → Represents F prefix redis jobs keys
      → (i version : ℕ) (body : Option Body)
      → let new =
          set_if_newer_text F prefix (job_key F prefix i) version (body_text F prefix body) redis in
        let entry = set_if_newer Body i version body jobs in
        (new.0 ≡ entry.0) × Represents F prefix new.1 entry.1 keys
  unfolding set_if_newer_text set_if_newer
  set_if_newer-Represents {redis} {jobs} r i version body =
      let same : is_newer_text F prefix (redis (job_key F prefix i)) version
          ≡ is_newer Body (jobs i) version =
        rw (r.of_jobs i) (tested (jobs i)) in
      elim (Bool-cases (is_newer Body (jobs i) version)) [
        | inl y ↦ rw (same, y) (refl, r)
        | inr z ↦ rw (same, z) (refl, set_job-Represents r i version body)
      ]
    where
      tested :
          (o : Option (Entry Body))
          → is_newer_text F prefix (encode F prefix o) version ≡ is_newer Body o version
      tested none = refl
      tested (some e) = version_read e.version version (body_text F prefix e.body)

  pub write-Represents :
      {redis : Redis} {jobs : Store Body} {keys : KeyStore}
      → Represents F prefix redis jobs keys
      → (link : Link) (i version : ℕ) (body : Option Body)
      → let new = write_text F prefix link i version (body_text F prefix body) redis in
        let entry = write Body link i version body jobs in
        (new.0 ≡ entry.0) × Represents F prefix new.1 entry.1 keys
  unfolding write_text write
  write-Represents r answered i version body = set_if_newer-Represents r i version body
  write-Represents r lost i version body = (refl, (set_if_newer-Represents r i version body).1)
  write-Represents r down i version body = (refl, r)

  pub set_key-Represents :
      {redis : Redis} {jobs : Store Body} {keys : KeyStore}
      → Represents F prefix redis jobs keys
      → (k : String) (id : ℕ) (hash : String)
      → Represents F prefix
          (set_text (idem_key F prefix k) (pair_text (F.show_id id) hash) redis)
          jobs
          (λ l. if str_eq k l then some (id, hash) else keys l)
  set_key-Represents r k id hash = record {
    of_jobs = λ i. rw (idem_key-apart F ok prefix k i) (r.of_jobs i);
    of_keys = λ l.
        rw (same_key F ok prefix k l)
          (elim (Bool-cases (str_eq k l)) [ inl y ↦ rw y refl | inr z ↦ rw z (r.of_keys l) ]);
  }
