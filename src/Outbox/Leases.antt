-- ===== src/Outbox/Leases.antt =====
-- `claim_outbox_events`: the lease keeps other dispatchers off a claimed event.
use notify_queue.Prelude.{
  ℕ, zero, suc, ◌+◌, ◌<◌, ◌≡◌, refl, sym, ap, ◌∙◌, Bool, true, false, ◌||◌, List, [], ◌∷◌, map,
  arith, ◌==◌, ==_iff, select, update_where, take, elem, insert_by, sort_by, Distinct, Bool-cases,
  inl, inr,
}
use mathlib.Core.Path.{subst}
use notify_queue.Tables.{Db, OutboxRow}
use notify_queue.Tables.Tx.{ok, ok-pair}
use notify_queue.Selection.Order.{All, All-map}
use notify_queue.Outbox.{
  OutboxEvent, to_event, row_id, is_due_event, earlier, due_events, in_due_events, set_leased,
  claim_outbox_events,
}

abbrev pub row_ids : List OutboxRow → List ℕ
row_ids = map row_id

abbrev pub event_ids : List OutboxEvent → List ℕ
event_ids = map (λ e. e.id)

elem-take :
    (x n : ℕ) (rs : List OutboxRow)
    → elem x (row_ids (take n rs)) ≡ true
    → elem x (row_ids rs) ≡ true
unfolding elem
elem-take x zero rs h = cc
elem-take x (suc n) [] h = cc
elem-take x (suc n) (r ∷ rs) h = ground (arith, elem-take x n rs)

elem-insert :
    (x : ℕ) (r : OutboxRow) (rs : List OutboxRow)
    → elem x (row_ids (insert_by earlier r rs)) ≡ ((r.id == x) || elem x (row_ids rs))
unfolding elem insert_by
elem-insert x r [] = refl
elem-insert x r (y ∷ ys) = ground (arith, elem-insert x r ys)

elem-sort :
    (x : ℕ) (rs : List OutboxRow) → elem x (row_ids (sort_by earlier rs)) ≡ elem x (row_ids rs)
unfolding elem sort_by
elem-sort x [] = refl
elem-sort x (r ∷ rs) =
    elem-insert x r (sort_by earlier rs) ∙ ap (λ b. (r.id == x) || b) (elem-sort x rs)

module _ (p : OutboxRow → Bool) where
  elem-select :
      (x : ℕ) (rs : List OutboxRow)
      → elem x (row_ids (select p rs)) ≡ true
      → elem x (row_ids rs) ≡ true
  unfolding elem select
  elem-select x [] h = cc
  elem-select x (r ∷ rs) h = ground (arith, elem-select x rs)

  -- The row with the id of a selected row passes the test.
  select-passes :
      (x : ℕ) (rs : List OutboxRow)
      → Distinct (row_ids rs)
      → elem x (row_ids (select p rs)) ≡ true
      → All (λ r. r.id ≡ x → p r ≡ true) rs
  unfolding elem select
  select-passes x [] d h = tt
  select-passes x (r ∷ rs) d h = elim (Bool-cases (r.id == x)) [
    | inl y ↦
        let e = (==_iff r.id x).0 y in
        let gone = absent x rs (subst (λ n. elem n (row_ids rs) ≡ false) e d.0) in
        ((λ _. ground (arith, elem-select x rs)), gone)
    | inr z ↦ ((λ e. ground arith), select-passes x rs d.1 (ground arith))
  ]
    where
      absent :
          (x : ℕ) (rs : List OutboxRow)
          → elem x (row_ids rs) ≡ false
          → All (λ r. r.id ≡ x → p r ≡ true) rs
      absent x [] h = tt
      absent x (r ∷ rs) h = ((λ e. ground arith), absent x rs (ground arith))

-- No row of the id is there.
no_row : (x : ℕ) (rs : List OutboxRow) → elem x (row_ids rs) ≡ true → All (λ r. r.id ≡ x → ⊥) rs → ⊥
unfolding elem
no_row x [] h a = cc
no_row x (r ∷ rs) h a = elim (Bool-cases (r.id == x)) [
  | inl y ↦ a.0 ((==_iff r.id x).0 y)
  | inr z ↦ no_row x rs (ground arith) a.1
]

-- The update sets each row that is hit, and keeps the ids.
row_ids-update :
    (hit : OutboxRow → Bool) (now lease : ℕ) (rs : List OutboxRow)
    → row_ids (update_where hit (set_leased now lease) rs) ≡ row_ids rs
unfolding update_where
row_ids-update hit now lease [] = refl
row_ids-update hit now lease (r ∷ rs) = ground (arith, row_ids-update hit now lease rs)

leased :
    (x : ℕ) (hit : OutboxRow → Bool) (now lease : ℕ) (rs : List OutboxRow)
    → All (λ r. r.id ≡ x → hit r ≡ true) rs
    → All
        (λ r. r.id ≡ x → r.next_attempt_at ≡ now + lease)
        (update_where hit (set_leased now lease) rs)
unfolding update_where
leased x hit now lease [] a = tt
leased x hit now lease (r ∷ rs) a = (
  (λ e. elim (Bool-cases (hit r)) [
    | inl y ↦ rw y refl
    | inr z ↦ let same : r.id ≡ x = rw z at e in cc (a.0 same, z)
  ]),
  leased x hit now lease rs a.1,
)

-- A claimed event is not due before its lease is over.
not-due :
    (x : ℕ) (locked : ℕ → Bool) (now t : ℕ) (rs : List OutboxRow)
    → now < t
    → All (λ r. r.id ≡ x → r.next_attempt_at ≡ t) rs
    → All (λ r. r.id ≡ x → is_due_event locked now r ≡ true) rs
    → All (λ r. r.id ≡ x → ⊥) rs
not-due x locked now t [] lt a b = tt
not-due x locked now t (r ∷ rs) lt a b =
    ((λ e. ground (arith, a.0 e, b.0 e)), not-due x locked now t rs lt a.1 b.1)

ids-claimed :
    (now lease : ℕ) (rs : List OutboxRow)
    → event_ids (map (λ r. to_event (set_leased now lease r)) rs) ≡ row_ids rs
ids-claimed now lease [] = refl
ids-claimed now lease (r ∷ rs) = ap (◌∷◌ r.id) (ids-claimed now lease rs)

-- A hit row of the table is one that passes the test.
hit-due :
    (x : ℕ) (locked : ℕ → Bool) (now limit : ℕ) (rs : List OutboxRow)
    → Distinct (row_ids rs)
    → elem x (row_ids (select (in_due_events locked now limit rs) rs)) ≡ true
    → All (λ r. r.id ≡ x → is_due_event locked now r ≡ true) rs
unfolding due_events
hit-due x locked now limit rs d h =
    let hits = select-passes (in_due_events locked now limit rs) x rs d h in
    let due_x : elem x (row_ids (select (is_due_event locked now) rs)) ≡ true =
      elim (Bool-cases
        (elem x (row_ids (take limit (sort_by earlier (select (is_due_event locked now) rs)))))) [
          | inl y ↦
              sym (elem-sort x (select (is_due_event locked now) rs))
              ∙ elem-take x limit (sort_by earlier (select (is_due_event locked now) rs)) y
          | inr z ↦ absurd (
              no_row x rs (elem-select (in_due_events locked now limit rs) x rs h) (
                All-map
                  (λ r k e. cc (
                    ap
                        (λ n. elem n (
                          row_ids
                            (take limit (sort_by earlier (select (is_due_event locked now) rs)))))
                        e,
                    k e,
                    z,
                  ))
                  rs hits))
        ] in
    select-passes (is_due_event locked now) x rs d due_x

-- What a claim returns, and what it leaves.
claim_rows :
    (locked : ℕ → Bool) (now limit lease x : ℕ) (es : List OutboxEvent) (db db' : Db)
    → claim_outbox_events locked now limit lease db ≡ ok (es, db')
    → let rs = db.webhook_outbox in
      let hit = in_due_events locked now limit rs in
      (elem x (event_ids es) ≡ elem x (row_ids (select hit rs)))
      × (db'.webhook_outbox ≡ update_where hit (set_leased now lease) rs)
unfolding claim_outbox_events
claim_rows locked now limit lease x es db db' e =
    let hits = select (in_due_events locked now limit db.webhook_outbox) db.webhook_outbox in
    let (same, after) = ok-pair e in
    (
      ap (λ l. elem x (event_ids l)) (sym same) ∙ ap (elem x) (ids-claimed now lease hits),
      ap (λ (d : Db). d.webhook_outbox) (sym after),
    )

module _ (db : Db) (distinct : Distinct (row_ids db.webhook_outbox)) where
  -- With distinct ids in the outbox, an event that one claim returned is not returned by the next
  -- claim when that is made before the lease of the first is over.
  pub claims-apart :
      (locked locked' : ℕ → Bool) (now now' limit limit' lease lease' : ℕ) (x : ℕ)
      (es es' : List OutboxEvent) (db' db'' : Db)
      → now' < now + lease
      → claim_outbox_events locked now limit lease db ≡ ok (es, db')
      → claim_outbox_events locked' now' limit' lease' db' ≡ ok (es', db'')
      → elem x (event_ids es) ≡ true
      → elem x (event_ids es') ≡ false
  claims-apart locked locked' now now' limit limit' lease lease' x es es' db' db'' lt e e' first =
      let rs = db.webhook_outbox in
      let hit = in_due_events locked now limit rs in
      let rs' = update_where hit (set_leased now lease) rs in
      let (ids_first, outbox) = claim_rows locked now limit lease x es db db' e in
      let (ids_next, _) = claim_rows locked' now' limit' lease' x es' db' db'' e' in
      let same_ids = row_ids-update hit now lease rs in
      let there : elem x (row_ids (select hit rs)) ≡ true = sym ids_first ∙ first in
      let waits = leased x hit now lease rs (select-passes hit x rs distinct there) in
      let found : elem x (row_ids rs') ≡ true = ap (elem x) same_ids ∙ elem-select hit x rs there in
      elim (Bool-cases (elem x (event_ids es'))) [
        | inr z ↦ z
        | inl y ↦
            let taken = rw outbox at (sym ids_next ∙ y) in
            let dues =
              hit-due x locked' now' limit' rs' (subst Distinct (sym same_ids) distinct) taken in
            absurd (no_row x rs' found (not-due x locked' now' (now + lease) rs' lt waits dues))
      ]
