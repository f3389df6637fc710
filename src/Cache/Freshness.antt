-- ===== src/Cache/Freshness.antt =====
-- What a reader of the cache may see after an invalidation, whatever other writers do meanwhile.
use notify_queue.Prelude.{
  ℕ, ◌≤◌, ◌≡◌, ◌≢◌, refl, ◌⊎◌, inl, inr, true, false, Option, none, some, List, [], ◌∷◌, ◌==◌,
  arith, ==_iff, ap, Bool-cases,
}
use notify_queue.Selection.Order.{All}
use notify_queue.Cache.{
  Link, answered, lost, down, is_newer, text_of, Entry, Store, set_if_newer, write, put, invalidate,
  get, expire,
}

==-no : (i j : ℕ) → i ≢ j → (i == j) ≡ false
==-no i j h = ground arith

module _ (Body : Type 0) where
  -- What any process may do to the cache.
  pub data Op : Type 0 where
    puts : (link : Link) (job_id version : ℕ) → Body → Op
    invalidates : (link : Link) (job_id version : ℕ) → Op
    expires : (job_id : ℕ) → Op

  unfoldable pub apply : Op → Store Body → Store Body
  apply (puts link i n b) store = (put Body link i n b store).1
  apply (invalidates link i n) store = invalidate Body link i n store
  apply (expires i) store = expire Body i store

  unfoldable pub run : List Op → Store Body → Store Body
  run [] store = store
  run (op ∷ ops) store = run ops (apply op store)

  module _ (job : ℕ) (at_version : ℕ → Body) where
    -- A put for the job writes the text of the version that it names, and its entry does not expire.
    abbrev pub Fits : Op → Type 0
    Fits (puts link i n b) = i ≡ job → b ≡ at_version n
    Fits (invalidates link i n) = Unit {0}
    Fits (expires i) = i ≢ job

    -- The entry of the job is a tombstone or the text of its version, and is of version v or later.
    abbrev pub IsCurrent : ℕ → Option (Entry Body) → Type 0
    IsCurrent v none = ⊥
    IsCurrent v (some e) =
        (v ≤ e.version) × ((e.body ≡ none) ⊎ (e.body ≡ some (at_version e.version)))

    set-IsCurrent :
        (i n v : ℕ) (b : Option Body) (store : Store Body)
        → (i ≡ job → (b ≡ none) ⊎ (b ≡ some (at_version n)))
        → IsCurrent v (store job)
        → IsCurrent v ((set_if_newer Body i n b store).1 job)
    unfolding set_if_newer
    set-IsCurrent i n v b store h f = elim (Bool-cases (is_newer Body (store i) n)) [
      | inl y ↦ rw y f
      | inr z ↦ elim (Bool-cases (i == job)) [
        | inl y ↦ let e = (==_iff i job).0 y in rw (z, y) (newer (store job) (rw e at z) f, h e)
        | inr w ↦ rw (z, w) f
      ]
    ]
      where
        newer : (o : Option (Entry Body)) → is_newer Body o n ≡ false → IsCurrent v o → v ≤ n
        newer none z c = absurd c
        newer (some e) z c = ground (arith, c.0)

    write-IsCurrent :
        (link : Link) (i n v : ℕ) (b : Option Body) (store : Store Body)
        → (i ≡ job → (b ≡ none) ⊎ (b ≡ some (at_version n)))
        → IsCurrent v (store job)
        → IsCurrent v ((write Body link i n b store).1 job)
    unfolding write
    write-IsCurrent answered i n v b store h f = set-IsCurrent i n v b store h f
    write-IsCurrent lost i n v b store h f = set-IsCurrent i n v b store h f
    write-IsCurrent down i n v b store h f = f

    apply-IsCurrent :
        (op : Op) (v : ℕ) (store : Store Body)
        → Fits op
        → IsCurrent v (store job)
        → IsCurrent v (apply op store job)
    unfolding apply put invalidate expire
    apply-IsCurrent (puts link i n b) v store h f =
        write-IsCurrent link i n v (some b) store (λ e. inr (ap some (h e))) f
    apply-IsCurrent (invalidates link i n) v store h f =
        write-IsCurrent link i n v none store (λ e. inl refl) f
    apply-IsCurrent (expires i) v store h f = rw (==-no i job h) f

    run-IsCurrent :
        (ops : List Op) (v : ℕ) (store : Store Body)
        → All Fits ops
        → IsCurrent v (store job)
        → IsCurrent v (run ops store job)
    unfolding run
    run-IsCurrent [] v store h f = f
    run-IsCurrent (op ∷ ops) v store h f =
        run-IsCurrent ops v (apply op store) h.1 (apply-IsCurrent op v store h.0 f)

    -- Before an invalidation the entry is missing, a tombstone, or the text of its version.
    abbrev pub IsHonest : Option (Entry Body) → Type 0
    IsHonest none = Unit {0}
    IsHonest (some e) = (e.body ≡ none) ⊎ (e.body ≡ some (at_version e.version))

    tombstone-IsCurrent :
        (v : ℕ) (store : Store Body)
        → IsHonest (store job)
        → IsCurrent v ((set_if_newer Body job v none store).1 job)
    unfolding set_if_newer
    tombstone-IsCurrent v store h = elim (Bool-cases (is_newer Body (store job) v)) [
      | inl y ↦ rw y (newer (store job) y h)
      | inr z ↦ rw (z, (==_iff job job).1 refl) (omega arith, inl refl)
    ]
      where
        newer : (o : Option (Entry Body)) → is_newer Body o v ≡ true → IsHonest o → IsCurrent v o
        newer none y c = cc
        newer (some e) y c = (ground arith, c)

    invalidate-IsCurrent :
        (link : Link) (v : ℕ) (store : Store Body)
        → link ≢ down
        → IsHonest (store job)
        → IsCurrent v (invalidate Body link job v store job)
    unfolding invalidate write set_if_newer
    invalidate-IsCurrent answered v store up h = tombstone-IsCurrent v store h
    invalidate-IsCurrent lost v store up h = tombstone-IsCurrent v store h
    invalidate-IsCurrent down v store up h = absurd (up refl)

    -- Once an invalidation of a job at version v has been carried out, a later reader gets nothing
    -- or the text of version v or a newer one, whatever puts and invalidations come in between, late
    -- puts of older versions included. It is assumed that an entry that was there before is a
    -- tombstone or the text of its version, that each put for the job writes the text of the version
    -- that it names, and that the job's entry does not expire meanwhile.
    pub no_stale_read :
        (link link' : Link) (v : ℕ) (ops : List Op) (store : Store Body)
        → link ≢ down
        → IsHonest (store job)
        → All Fits ops
        → (get Body link' job (run ops (invalidate Body link job v store)) ≡ none)
          ⊎ ((n : ℕ) × (v ≤ n)
              × (get Body link' job (run ops (invalidate Body link job v store))
                  ≡ some (at_version n)))
    unfolding get
    no_stale_read link answered v ops store up h fits =
        current_text (run ops (invalidate Body link job v store) job) (
          run-IsCurrent ops v (invalidate Body link job v store) fits
            (invalidate-IsCurrent link v store up h))
      where
        current_text :
            (o : Option (Entry Body))
            → IsCurrent v o
            → (text_of Body o ≡ none) ⊎ ((n : ℕ) × (v ≤ n) × (text_of Body o ≡ some (at_version n)))
        current_text none f = absurd f
        current_text (some e) (le, inl q) = inl q
        current_text (some e) (le, inr q) = inr (e.version, le, q)
    no_stale_read link lost v ops store up h fits = inl refl
    no_stale_read link down v ops store up h fits = inl refl
