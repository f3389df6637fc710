-- ===== src/Cache.antt =====
-- src/notify_queue/cache/job_cache.py: the entries of jobs in Redis. An entry `"<version>|<json>"` is its
-- version and its text, with none for the empty text of a tombstone; one operation is one run of the Lua
-- script or one GET, which Redis makes atomic. Each operation is told whether Redis answers it. What
-- the text is belongs to the schemas, so it is a parameter.
pub mod Freshness
pub mod Text
pub mod Keys
pub mod Keyspace
pub mod Traffic
use notify_queue.Prelude.{
  ℕ, String, str_eq, Bool, true, false, Option, none, some, List, [], ◌∷◌, ltb, ◌==◌, if◌then◌else◌,
}

-- How a call of Redis ends (`Cache.call`): answered; done, but its answer lost, so that the caller gets
-- the default; or not done.
pub data Link : Type 0 where
  answered lost down : Link

module _ (Body : Type 0) where
  pub record Entry : Type 0 where
    pub version : ℕ
    pub body : Option Body

  -- What Redis holds under the key of each job.
  abbrev pub Store : Type 0
  Store = ℕ → Option Entry

  -- `redis.call('SET', ...)`
  abbrev pub set : ℕ → Entry → Store → Store
  set job_id e store i = if job_id == i then some e else store i

  -- `cached_version > version`
  abbrev pub is_newer : Option Entry → ℕ → Bool
  is_newer none version = false
  is_newer (some current) version = ltb version current.version

  -- `_SET_IF_NEWER`: whether it wrote, and what it leaves.
  unfoldable pub set_if_newer : ℕ → ℕ → Option Body → Store → Bool × Store
  set_if_newer job_id version body store =
      let e : Entry = record { version = version; body = body } in
      if is_newer (store job_id) version then (false, store) else (true, set job_id e store)

  -- `_write`: the default answer is 0.
  unfoldable pub write : Link → (job_id version : ℕ) → Option Body → Store → Bool × Store
  write answered job_id version body store = set_if_newer job_id version body store
  write lost job_id version body store = (false, (set_if_newer job_id version body store).1)
  write down job_id version body store = (false, store)

  unfoldable pub put : Link → (job_id version : ℕ) → Body → Store → Bool × Store
  put link job_id version body store = write link job_id version (some body) store

  unfoldable pub invalidate : Link → (job_id new_version : ℕ) → Store → Store
  invalidate link job_id new_version store = (write link job_id new_version none store).1

  -- The text of an entry; a tombstone has none.
  abbrev pub text_of : Option Entry → Option Body
  text_of none = none
  text_of (some e) = e.body

  unfoldable pub get : Link → (job_id : ℕ) → Store → Option Body
  get answered job_id store = text_of (store job_id)
  get lost job_id store = none
  get down job_id store = none

  -- Redis drops an entry whose time to live is over.
  unfoldable pub expire : ℕ → Store → Store
  expire job_id store i = if job_id == i then none else store i

-- The entries of idempotency keys: `"<job id>|<request hash>"` is the pair of the two.
abbrev pub KeyStore : Type 0
KeyStore = String → Option (ℕ × String)

unfoldable pub get_idempotency : Link → String → KeyStore → Option (ℕ × String)
get_idempotency answered key store = store key
get_idempotency lost key store = none
get_idempotency down key store = none

unfoldable pub put_idempotency :
    Link → String → (job_id : ℕ) (request_hash : String) → KeyStore → KeyStore
put_idempotency answered key job_id request_hash store k =
    if str_eq key k then some (job_id, request_hash) else store k
put_idempotency lost key job_id request_hash store k =
    if str_eq key k then some (job_id, request_hash) else store k
put_idempotency down key job_id request_hash store k = store k
