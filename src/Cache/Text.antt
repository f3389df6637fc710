-- ===== src/Cache/Text.antt =====
-- The texts in Redis: src/notify_queue/cache/job_cache.py as it is written, on one keyspace, with the keys
-- of cache/client.py. An entry is `"<version>|<json>"` or `"<job id>|<request hash>"`.
use Prim.Native.Char.{Char, code}
use notify_queue.Prelude.{
  ℕ, String, Bool, true, false, not, ◌&&◌, Option, none, some, List, [], ◌∷◌, ltb, ◌==◌, str_eq,
  str_append, if◌then◌else◌,
}
use notify_queue.Cache.{Link, answered, lost, down}

-- What is not of this repository: `str` and `UUID` of an id, the digits of a version and Lua's `tonumber`,
-- and the JSON of pydantic. `none` is an exception, or nil.
pub record Formats (Body : Type 0) : Type 0 where
  pub show_version : ℕ → String
  pub tonumber : String → Option ℕ
  pub show_id : ℕ → String
  pub parse_id : String → Option ℕ
  pub dump : Body → String
  pub load : String → Option Body

abbrev pub separator : Char
separator = "|"

-- Whether a text is without a character.
unfoldable pub lacks : ℕ → String → Bool
lacks c String.[] = true
lacks c (String.◌∷◌ d s) = not (code d == c) && lacks c s

abbrev pub is_empty : String → Bool
is_empty String.[] = true
is_empty (String.◌∷◌ c s) = false

-- `s.partition(sep)` without its middle: what is before the first `sep`, and what is after it.
unfoldable pub partition : ℕ → String → String × String
partition sep String.[] = (String.[], String.[])
partition sep (String.◌∷◌ c s) =
    let rest = partition sep s in
    if code c == sep then (String.[], s) else (String.◌∷◌ c rest.0, rest.1)

-- `":".join(parts)`
abbrev pub join : List String → String
join [] = ""
join (part ∷ []) = part
join (part ∷ next ∷ parts) = str_append part (str_append ":" (join (next ∷ parts)))

-- `Cache.key`
abbrev pub key : (prefix : String) → List String → String
key prefix parts = str_append prefix (join parts)

-- What Redis holds under a key.
abbrev pub Redis : Type 0
Redis = String → Option String

abbrev pub set_text : (key value : String) → Redis → Redis
set_text key value redis k = if str_eq key k then some value else redis k

-- A key whose time to live is over.
abbrev pub drop_text : (key : String) → Redis → Redis
drop_text key redis k = if str_eq key k then none else redis k

-- How a lookup ends: with a value, without one, or with the exception of a text that cannot be read.
pub data Read (A : Type 0) : Type 0 where
  hit : A → Read A
  miss invalid : Read A

abbrev pub to_read : {A : Type 0} → Option A → Read A
to_read none = invalid
to_read (some a) = hit a

module _ {Body : Type 0} (F : Formats Body) (prefix : String) where
  abbrev pub job_key : ℕ → String
  job_key job_id = key prefix ("job" ∷ F.show_id job_id ∷ [])

  abbrev pub idem_key : String → String
  idem_key idempotency_key = key prefix ("idem" ∷ idempotency_key ∷ [])

  -- `cached_version and cached_version > tonumber(ARGV[1])`
  abbrev pub is_later : Option ℕ → (version : ℕ) → Bool
  is_later none version = false
  is_later (some cached_version) version = ltb version cached_version

  -- The tests of `_SET_IF_NEWER` on the entry that is there.
  abbrev pub is_newer_text : Option String → (version : ℕ) → Bool
  is_newer_text none version = false
  is_newer_text (some current) version =
      if lacks (code separator) current
      then false
      else is_later (F.tonumber (partition (code separator) current).0) version

  -- `_SET_IF_NEWER`
  unfoldable pub set_if_newer_text :
      (job_key : String) (version : ℕ) (body : String) → Redis → Bool × Redis
  set_if_newer_text k version body redis =
      if is_newer_text (redis k) version
      then (false, redis)
      else (true, set_text k (str_append (F.show_version version) (str_append "|" body)) redis)

  -- `_write`
  unfoldable pub write_text : Link → (job_id version : ℕ) (body : String) → Redis → Bool × Redis
  write_text answered job_id version body redis =
      set_if_newer_text (job_key job_id) version body redis
  write_text lost job_id version body redis =
      (false, (set_if_newer_text (job_key job_id) version body redis).1)
  write_text down job_id version body redis = (false, redis)

  -- `get`, at the answer of GET.
  abbrev pub read_job : Option String → Read Body
  read_job none = miss
  read_job (some raw) =
      let body = (partition (code separator) raw).1 in
      if is_empty raw then miss else if is_empty body then miss else to_read (F.load body)

  abbrev pub get_text : Link → (job_id : ℕ) → Redis → Read Body
  get_text answered job_id redis = read_job (redis (job_key job_id))
  get_text lost job_id redis = miss
  get_text down job_id redis = miss

  abbrev pub with_hash : String → Option ℕ → Read (ℕ × String)
  with_hash request_hash none = invalid
  with_hash request_hash (some job_id) = hit (job_id, request_hash)

  -- `get_idempotency`, at the answer of GET.
  abbrev pub read_key : Option String → Read (ℕ × String)
  read_key none = miss
  read_key (some raw) =
      let parts = partition (code separator) raw in
      if is_empty raw then miss else with_hash parts.1 (F.parse_id parts.0)

  abbrev pub get_idempotency_text : Link → (idempotency_key : String) → Redis → Read (ℕ × String)
  get_idempotency_text answered k redis = read_key (redis (idem_key k))
  get_idempotency_text lost k redis = miss
  get_idempotency_text down k redis = miss

  -- `put_idempotency`
  abbrev pub put_idempotency_text :
      Link → (idempotency_key : String) (job_id : ℕ) (request_hash : String) → Redis → Redis
  put_idempotency_text down k job_id request_hash redis = redis
  put_idempotency_text _ k job_id request_hash redis =
      set_text (idem_key k) (str_append (F.show_id job_id) (str_append "|" request_hash)) redis
