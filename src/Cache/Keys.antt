-- ===== src/Cache/Keys.antt =====
-- Separated texts, and the keys of Redis: no key stands for two things.
use Prim.Native.Char.{code}
use text.Mathlib.TextLemmas.{append_cancel_left, cons-append, nil-append, head-eq_of_cons-eq}
use notify_queue.Prelude.{
  ℕ, ◌≡◌, ◌≢◌, refl, sym, ◌∙◌, ap, String, true, false, Option, none, some, arith, ◌==◌, ==_iff,
  str_eq, str_eq_iff, str_append, Bool-cases, inl, inr,
}
use notify_queue.Cache.{Entry, Store, KeyStore}
use notify_queue.Cache.Text.{
  Formats, separator, lacks, is_empty, partition, Redis, Read, hit, miss, job_key, idem_key,
}

-- What the formats promise.
pub record IsFormats {Body : Type 0} (F : Formats Body) : Type 0 where
  pub read_version : (n : ℕ) → F.tonumber (F.show_version n) ≡ some n
  pub plain_version : (n : ℕ) → lacks (code separator) (F.show_version n) ≡ true
  pub read_id : (i : ℕ) → F.parse_id (F.show_id i) ≡ some i
  pub plain_id : (i : ℕ) → lacks (code separator) (F.show_id i) ≡ true
  pub read_body : (b : Body) → F.load (F.dump b) ≡ some b
  pub some_body : (b : Body) → is_empty (F.dump b) ≡ false

-- A separated text.
abbrev pub pair_text : String → String → String
pair_text a b = str_append a (str_append "|" b)

pub pair_text-cons : (a b : String) → pair_text a b ≡ str_append a (String.◌∷◌ separator b)
pair_text-cons a b =
    ap (str_append a) (cons-append separator "" b ∙ ap (String.◌∷◌ separator) (nil-append b))

partition-append :
    (a b : String)
    → lacks (code separator) a ≡ true
    → partition (code separator) (str_append a (String.◌∷◌ separator b)) ≡ (a, b)
unfolding partition lacks
partition-append String.[] b h = rw (nil-append (String.◌∷◌ separator b)) refl
partition-append (String.◌∷◌ c a) b h =
    rw (cons-append c a (String.◌∷◌ separator b)) (elim (Bool-cases (code c == code separator)) [
      | inl y ↦ cc (rw y at h)
      | inr z ↦ rw z (rw (partition-append a b (rw z at h)) refl)
    ])

lacks-append :
    (a b : String) → lacks (code separator) (str_append a (String.◌∷◌ separator b)) ≡ false
unfolding lacks
lacks-append String.[] b = rw (nil-append (String.◌∷◌ separator b)) refl
lacks-append (String.◌∷◌ c a) b =
    rw (cons-append c a (String.◌∷◌ separator b)) (elim (Bool-cases (code c == code separator)) [
      | inl y ↦ rw y refl
      | inr z ↦ rw z (lacks-append a b)
    ])

is_empty-append : (a b : String) → is_empty (str_append a (String.◌∷◌ separator b)) ≡ false
is_empty-append String.[] b = rw (nil-append (String.◌∷◌ separator b)) refl
is_empty-append (String.◌∷◌ c a) b = rw (cons-append c a (String.◌∷◌ separator b)) refl

pub partition-pair_text :
    (a b : String)
    → lacks (code separator) a ≡ true
    → partition (code separator) (pair_text a b) ≡ (a, b)
partition-pair_text a b h = rw (pair_text-cons a b) (partition-append a b h)

pub lacks-pair_text : (a b : String) → lacks (code separator) (pair_text a b) ≡ false
lacks-pair_text a b = rw (pair_text-cons a b) (lacks-append a b)

pub is_empty-pair_text : (a b : String) → is_empty (pair_text a b) ≡ false
is_empty-pair_text a b = rw (pair_text-cons a b) (is_empty-append a b)

-- A value, or none.
abbrev pub to_lookup : {A : Type 0} → Option A → Read A
to_lookup none = miss
to_lookup (some a) = hit a

str_eq-false : (s t : String) → s ≢ t → str_eq s t ≡ false
str_eq-false s t h = elim (Bool-cases (str_eq s t)) [
  | inl y ↦ absurd (h ((str_eq_iff s t).0 y))
  | inr z ↦ z
]

module _ {Body : Type 0} (F : Formats Body) (prefix : String) where
  abbrev pub body_text : Option Body → String
  body_text none = ""
  body_text (some b) = F.dump b

  -- The text of an entry, and of what is known of an idempotency key.
  abbrev pub encode : Option (Entry Body) → Option String
  encode none = none
  encode (some e) = some (pair_text (F.show_version e.version) (body_text e.body))

  abbrev pub encode_key : Option (ℕ × String) → Option String
  encode_key none = none
  encode_key (some (id, hash)) = some (pair_text (F.show_id id) hash)

  -- The keyspace holds the entries of jobs and of idempotency keys.
  pub record Represents (redis : Redis) (jobs : Store Body) (keys : KeyStore) : Type 0 where
    pub of_jobs : (i : ℕ) → redis (job_key F prefix i) ≡ encode (jobs i)
    pub of_keys : (k : String) → redis (idem_key F prefix k) ≡ encode_key (keys k)

module _ {Body : Type 0} (F : Formats Body) (ok : IsFormats F) (prefix : String) where
  show_id-inj : (i j : ℕ) → F.show_id i ≡ F.show_id j → i ≡ j
  show_id-inj i j e =
      let same : some i ≡ some j = sym (ok.read_id i) ∙ ap F.parse_id e ∙ ok.read_id j in cc

  job_key-inj : (i j : ℕ) → job_key F prefix i ≡ job_key F prefix j → i ≡ j
  job_key-inj i j e = show_id-inj i j (
      append_cancel_left ":" (F.show_id i) (F.show_id j)
        (append_cancel_left "job" _ _ (append_cancel_left prefix _ _ e)))

  idem_key-inj : (k l : String) → idem_key F prefix k ≡ idem_key F prefix l → k ≡ l
  idem_key-inj k l e =
      append_cancel_left ":" k l (append_cancel_left "idem" _ _ (append_cancel_left prefix _ _ e))

  job_key-ne-idem_key : (i : ℕ) (k : String) → job_key F prefix i ≢ idem_key F prefix k
  job_key-ne-idem_key i k e =
      let tail = append_cancel_left prefix _ _ e in
      let first : code "j" ≡ code "i" = ap code (
        head-eq_of_cons-eq (
          sym (cons-append "j" "ob" (str_append ":" (F.show_id i)))
          ∙ tail
          ∙ cons-append "i" "dem" (str_append ":" k))) in
      absurd (omega (arith, first))

  pub same_job : (i j : ℕ) → str_eq (job_key F prefix i) (job_key F prefix j) ≡ (i == j)
  same_job i j = elim (Bool-cases (i == j)) [
    | inl y ↦
        rw (y, (==_iff i j).0 y) ((str_eq_iff (job_key F prefix j) (job_key F prefix j)).1 refl)
    | inr z ↦ rw z (
        str_eq-false (job_key F prefix i) (job_key F prefix j)
          (λ e. differ i j z (job_key-inj i j e)))
  ]
    where
      differ : (i j : ℕ) → (i == j) ≡ false → i ≢ j
      differ i j z e = ground arith

  pub same_key : (k l : String) → str_eq (idem_key F prefix k) (idem_key F prefix l) ≡ str_eq k l
  same_key k l = elim (Bool-cases (str_eq k l)) [
    | inl y ↦
        rw (y, (str_eq_iff k l).0 y)
          ((str_eq_iff (idem_key F prefix l) (idem_key F prefix l)).1 refl)
    | inr z ↦ rw z (
        str_eq-false (idem_key F prefix k) (idem_key F prefix l)
          (λ e. cc (rw z at ((str_eq_iff k l).1 (idem_key-inj k l e)))))
  ]

  pub job_key-apart :
      (i : ℕ) (k : String) → str_eq (job_key F prefix i) (idem_key F prefix k) ≡ false
  job_key-apart i k =
      str_eq-false (job_key F prefix i) (idem_key F prefix k) (job_key-ne-idem_key i k)

  pub idem_key-apart :
      (k : String) (i : ℕ) → str_eq (idem_key F prefix k) (job_key F prefix i) ≡ false
  idem_key-apart k i =
      str_eq-false (idem_key F prefix k) (job_key F prefix i) (λ e. job_key-ne-idem_key i k (sym e))
