-- ===== src/Cache/Traffic.antt =====
-- A run of operations on the keyspace of Redis, against the same run on entries.
use notify_queue.Prelude.{
  ℕ, ◌≡◌, refl, String, none, some, List, [], ◌∷◌, ◌==◌, str_eq, if◌then◌else◌, Bool-cases, inl,
  inr,
}
use notify_queue.Cache.{
  Link, answered, lost, down, Store, KeyStore, put, invalidate, get, expire, get_idempotency,
  put_idempotency,
}
use notify_queue.Cache.Text.{
  Formats, Redis, drop_text, job_key, idem_key, write_text, get_text, get_idempotency_text,
  put_idempotency_text,
}
use notify_queue.Cache.Keys.{
  IsFormats, to_lookup, Represents, same_job, same_key, job_key-apart, idem_key-apart,
}
use notify_queue.Cache.Keyspace.{
  get-Represents, get_idempotency-Represents, write-Represents, set_key-Represents,
}

-- What any process, or the clock of Redis, does to the keyspace.
pub data Op (Body : Type 0) : Type 0 where
  puts : (link : Link) (job_id version : ℕ) → Body → Op Body
  invalidates : (link : Link) (job_id version : ℕ) → Op Body
  remembers :
      (link : Link) (idempotency_key : String) (job_id : ℕ) (request_hash : String) → Op Body
  forgets_job : (job_id : ℕ) → Op Body
  forgets_key : (idempotency_key : String) → Op Body

module _ {Body : Type 0} where
  abbrev pub on_entries : Op Body → Store Body × KeyStore → Store Body × KeyStore
  on_entries (puts link i version b) (jobs, keys) = ((put Body link i version b jobs).1, keys)
  on_entries (invalidates link i version) (jobs, keys) = (invalidate Body link i version jobs, keys)
  on_entries (remembers link k id hash) (jobs, keys) = (jobs, put_idempotency link k id hash keys)
  on_entries (forgets_job i) (jobs, keys) = (expire Body i jobs, keys)
  on_entries (forgets_key k) (jobs, keys) = (jobs, λ l. if str_eq k l then none else keys l)

  unfoldable pub run_entries : List (Op Body) → Store Body × KeyStore → Store Body × KeyStore
  run_entries [] entries = entries
  run_entries (op ∷ ops) entries = run_entries ops (on_entries op entries)

module _ {Body : Type 0} (F : Formats Body) (prefix : String) where
  abbrev pub on_texts : Op Body → Redis → Redis
  on_texts (puts link i version b) redis = (write_text F prefix link i version (F.dump b) redis).1
  on_texts (invalidates link i version) redis = (write_text F prefix link i version "" redis).1
  on_texts (remembers link k id hash) redis = put_idempotency_text F prefix link k id hash redis
  on_texts (forgets_job i) redis = drop_text (job_key F prefix i) redis
  on_texts (forgets_key k) redis = drop_text (idem_key F prefix k) redis

  unfoldable pub run_texts : List (Op Body) → Redis → Redis
  run_texts [] redis = redis
  run_texts (op ∷ ops) redis = run_texts ops (on_texts op redis)

  abbrev pub Agrees : Redis → Store Body × KeyStore → Type 0
  Agrees redis entries = Represents F prefix redis entries.0 entries.1

module _ {Body : Type 0} (F : Formats Body) (ok : IsFormats F) (prefix : String) where
  step-Agrees :
      (op : Op Body) (redis : Redis) (jobs : Store Body) (keys : KeyStore)
      → Agrees F prefix redis (jobs, keys)
      → Agrees F prefix (on_texts F prefix op redis) (on_entries op (jobs, keys))
  unfolding put invalidate put_idempotency expire
  step-Agrees (puts link i version b) redis jobs keys r =
      (write-Represents F ok prefix r link i version (some b)).1
  step-Agrees (invalidates link i version) redis jobs keys r =
      (write-Represents F ok prefix r link i version none).1
  step-Agrees (remembers answered k id hash) redis jobs keys r =
      set_key-Represents F ok prefix r k id hash
  step-Agrees (remembers lost k id hash) redis jobs keys r =
      set_key-Represents F ok prefix r k id hash
  step-Agrees (remembers down k id hash) redis jobs keys r = r
  step-Agrees (forgets_job i) redis jobs keys r = record {
    of_jobs = λ j.
        rw (same_job F ok prefix i j)
          (elim (Bool-cases (i == j)) [ inl y ↦ rw y refl | inr z ↦ rw z (r.of_jobs j) ]);
    of_keys = λ k. rw (job_key-apart F ok prefix i k) (r.of_keys k);
  }
  step-Agrees (forgets_key k) redis jobs keys r = record {
    of_jobs = λ i. rw (idem_key-apart F ok prefix k i) (r.of_jobs i);
    of_keys = λ l.
        rw (same_key F ok prefix k l)
          (elim (Bool-cases (str_eq k l)) [ inl y ↦ rw y refl | inr z ↦ rw z (r.of_keys l) ]);
  }

  run-Agrees :
      (ops : List (Op Body)) (redis : Redis) (entries : Store Body × KeyStore)
      → Agrees F prefix redis entries
      → Agrees F prefix (run_texts F prefix ops redis) (run_entries ops entries)
  unfolding run_texts run_entries
  run-Agrees [] redis entries r = r
  run-Agrees (op ∷ ops) redis (jobs, keys) r =
      run-Agrees ops (on_texts F prefix op redis) (on_entries op (jobs, keys))
        (step-Agrees op redis jobs keys r)

  -- If the texts of versions and ids can be read back and have no separator in them, and the text of
  -- a body can be read back and is not empty: on one keyspace with any prefix, whatever puts,
  -- invalidations and writes of idempotency keys come in any order, whichever of them Redis does not
  -- answer, and whatever expires, the texts in Redis stay those of the entries on which the same
  -- operations are made, and every lookup of a job or of an idempotency key gives what it gives on
  -- the entries; none ends with the exception of a text that cannot be read.
  pub run_texts-Agrees :
      (ops : List (Op Body)) (redis : Redis) (entries : Store Body × KeyStore)
      → Agrees F prefix redis entries
      → let texts = run_texts F prefix ops redis in
        let left = run_entries ops entries in
        Agrees F prefix texts left
        × ((link : Link) (i : ℕ)
            → get_text F prefix link i texts ≡ to_lookup (get Body link i left.0))
        × ((link : Link) (k : String)
            → get_idempotency_text F prefix link k texts
              ≡ to_lookup (get_idempotency link k left.1))
  run_texts-Agrees ops redis entries r =
      let after = run-Agrees ops redis entries r in
      (after, get-Represents F ok prefix after, get_idempotency-Represents F ok prefix after)
