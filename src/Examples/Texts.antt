-- ===== src/Examples/Texts.antt =====
-- The theorem on the texts in Redis, applied to a format that can be read at sight: a number is as many
-- strokes.
use notify_queue.Prelude.{
  ℕ, zero, suc, ◌≡◌, refl, ap, String, true, Option, none, some, List, [], ◌∷◌,
}
use notify_queue.Domain.Schemas.{text_length}
use notify_queue.Cache.{Link, answered, lost, down, Store, KeyStore, get, get_idempotency}
use notify_queue.Cache.Text.{Formats, Redis, lacks, get_text, get_idempotency_text}
use notify_queue.Cache.Keys.{IsFormats, to_lookup}
use notify_queue.Cache.Traffic.{
  Op, puts, invalidates, remembers, forgets_key, run_texts, run_entries, Agrees, run_texts-Agrees,
}

abbrev strokes : ℕ → String
strokes zero = String.[]
strokes (suc n) = String.◌∷◌ "1" (strokes n)

abbrev body_of : String → Option ℕ
body_of String.[] = none
body_of (String.◌∷◌ c s) = some (text_length s)

abbrev tally : Formats ℕ
tally = record {
  show_version = strokes;
  tonumber = λ s. some (text_length s);
  show_id = strokes;
  parse_id = λ s. some (text_length s);
  dump = λ b. String.◌∷◌ "1" (strokes b);
  load = body_of;
}

text_length-strokes : (n : ℕ) → text_length (strokes n) ≡ n
text_length-strokes zero = refl
text_length-strokes (suc n) = ap suc (text_length-strokes n)

lacks-strokes : (n : ℕ) → lacks b'|' (strokes n) ≡ true
unfolding lacks
lacks-strokes zero = refl
lacks-strokes (suc n) = lacks-strokes n

tally-IsFormats : IsFormats tally
tally-IsFormats = record {
  read_version = λ n. ap some (text_length-strokes n);
  plain_version = lacks-strokes;
  read_id = λ n. ap some (text_length-strokes n);
  plain_id = lacks-strokes;
  read_body = λ b. ap some (text_length-strokes b);
  some_body = λ b. refl;
}

-- A put, a tombstone, a late put of the older version, and an idempotency key that is like a job's key.
abbrev traffic : List (Op ℕ)
traffic =
    puts answered 7 3 30
    ∷ invalidates lost 7 4
    ∷ puts answered 7 3 30
    ∷ remembers answered "job:7" 7 "hash|1"
    ∷ forgets_key "other"
    ∷ puts down 7 5 50
    ∷ []

abbrev nothing : Redis
nothing k = none

abbrev no_entries : Store ℕ × KeyStore
no_entries = ((λ i. none), (λ k. none))

run_texts-Agrees_example :
    let texts = run_texts tally "nq:" traffic nothing in
    let left = run_entries traffic no_entries in
    Agrees tally "nq:" texts left
    × ((link : Link) (i : ℕ) → get_text tally "nq:" link i texts ≡ to_lookup (get ℕ link i left.0))
    × ((link : Link) (k : String)
        → get_idempotency_text tally "nq:" link k texts ≡ to_lookup (get_idempotency link k left.1))
run_texts-Agrees_example =
    run_texts-Agrees tally tally-IsFormats "nq:" traffic nothing no_entries
      (record { of_jobs = λ i. refl; of_keys = λ k. refl })
