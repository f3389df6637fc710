-- ===== src/Claims.antt =====
-- `claim_due_jobs` as its callers see it: how many rows it returns, which, and in what order, and that
-- two claims have no row in common.
mod Counting
use notify_queue.Prelude.{
  ℕ, suc, ◌+◌, ◌≤◌, ◌≡◌, refl, sym, ◌∙◌, ap, Bool, true, false, ◌||◌, List, [], ◌∷◌, map, arith,
  ◌==◌, ==_iff, String, some, length, length-take-le, select, count_where, elem, sort_by, insert_by,
  Distinct, Bool-cases, inl, inr, update_where,
}
use mathlib.Core.Path.{subst}
use notify_queue.Domain.{Job, is_processing}
use notify_queue.Tables.{Db, Uuids, IsFresh, find, ids}
use notify_queue.Tables.Tx.{ok, ok-pair}
use notify_queue.Tables.Find.{find-id, find-update}
use notify_queue.Jobs.Claim.{before, is_due, due, in_due, claimed, claim_due_jobs}
use notify_queue.Selection.{pick-first, All-select, select-find, select-unsound, elem-sort}
use notify_queue.Selection.Order.{All, All-map, All-sort, IsSorted, sort-IsSorted}
use notify_queue.Invariant.{IsValid}
use notify_queue.Invariant.Claim.{claim_lem, claim-IsValid, claimed-due, after_claim}
use notify_queue.Claims.Counting.{length-select, length-map, length-sort, count-keys}

pub before-total : (a b : Job) → before a b ≡ false → before b a ≡ true
before-total a b h = ground arith

pub before_trans : (a b c : Job) → before a b ≡ true → before b c ≡ true → before a c ≡ true
before_trans a b c h k = ground arith

-- A job in processing, stored as it is, under the token of draw `draw`.
abbrev pub IsClaimed : Uuids → ℕ → Db → Job → Type 0
IsClaimed u draw db j =
    (find j.id db.jobs ≡ some j)
    × (is_processing j.status ≡ true)
    × (j.claim_token ≡ some (u.token draw j.id))

module _ (u : Uuids) (f : IsFresh u) {db : Db} (v : IsValid u db) (locked : ℕ → Bool) (now : ℕ)
    (worker_id : String) (batch_size lease : ℕ) where
  hit : Job → Bool
  hit = in_due locked now batch_size db.jobs

  set : Job → Job
  set = claimed u now worker_id lease db.draws

  rows-IsClaimed :
      (js : List Job)
      → All (λ j. find j.id db.jobs ≡ some j) js
      → All (λ j. hit j ≡ true) js
      → All
          (IsClaimed u db.draws
            (record db { jobs = update_where hit set db.jobs; draws = db.draws + 1 }))
          (map set js)
  unfolding set
  rows-IsClaimed [] a h = tt
  rows-IsClaimed (j ∷ js) a h = (
    (rw (find-update hit set (λ j. refl) j.id db.jobs, a.0, h.0) refl, refl, refl),
    rows-IsClaimed js a.1 h.1,
  )

  -- On a well-formed database, with fresh uuids: a claim returns at most `batch_size` jobs, in the
  -- order of the sort. Each is stored as it is returned: in processing, under the token that this
  -- claim drew for it.
  pub claim-batch :
      (js : List Job) × (db' : Db) × (claim_due_jobs u locked now worker_id batch_size lease db
        ≡ ok (js, db'))
      × (length js ≤ batch_size)
      × IsSorted before js
      × All (IsClaimed u db.draws db') js
  unfolding hit set due after_claim
  claim-batch =
      let picked = select hit db.jobs in
      let rows = due locked now batch_size db.jobs in
      let bound : count_where hit db.jobs ≤ batch_size = omega (
        arith,
        count-keys (ids rows) db.jobs v.distinct,
        length-map (λ (j : Job). j.id) rows,
        length-take-le batch_size (sort_by before (select (is_due locked now) db.jobs)),
      ) in
      (
        sort_by before (map set picked),
        after_claim u f v locked now worker_id batch_size lease,
        claim_lem u f v locked now worker_id batch_size lease,
        rw (length-sort before (map set picked), length-map set picked, length-select hit db.jobs)
            bound,
        sort-IsSorted before before-total before_trans (map set picked),
        All-sort before before-total before_trans
            (IsClaimed u db.draws (after_claim u f v locked now worker_id batch_size lease))
            (map set picked)
            (rows-IsClaimed picked (select-find hit db.jobs v.distinct) (All-select hit db.jobs)),
      )

  -- On a well-formed database, with fresh uuids: a job that a claim takes was due and not locked,
  -- and comes no later in the order (a higher priority, or the same and due earlier or at the same
  -- time) than any job that was due, not locked, and not taken.
  pub claim-fair :
      (x y : ℕ) {a b : Job}
      → find x db.jobs ≡ some a
      → find y db.jobs ≡ some b
      → in_due locked now batch_size db.jobs a ≡ true
      → is_due locked now b ≡ true
      → in_due locked now batch_size db.jobs b ≡ false
      → (is_due locked now a ≡ true) × (before a b ≡ true)
  unfolding due
  claim-fair x y {a} {b} ha hb taken waits left = (
    claimed-due u f v locked now worker_id batch_size lease x a ha taken,
    pick-first (is_due locked now) before before-total before_trans batch_size db.jobs v.distinct x
        y ha hb (rw (sym (find-id x db.jobs {j = a} ha)) taken) waits
        (rw (sym (find-id y db.jobs {j = b} hb)) left),
  )

module _ (u : Uuids) (f : IsFresh u) where
  ids-set :
      (now : ℕ) (worker_id : String) (lease draw i : ℕ) (js : List Job)
      → elem i (ids (map (claimed u now worker_id lease draw) js)) ≡ elem i (ids js)
  unfolding elem
  ids-set now worker_id lease draw i [] = refl
  ids-set now worker_id lease draw i (j ∷ js) =
      ap (λ b. (j.id == i) || b) (ids-set now worker_id lease draw i js)

  busy-skipped :
      (n : ℕ) {db : Db} (v : IsValid u db) (locked : ℕ → Bool) (now : ℕ) (worker_id : String)
      (batch_size lease : ℕ) (j : Job)
      → IsClaimed u n db j
      → elem j.id (
          ids (
            sort_by before (
              map
                (claimed u now worker_id lease db.draws)
                (select (in_due locked now batch_size db.jobs) db.jobs))))
        ≡ false
  busy-skipped n {db} v locked now worker_id batch_size lease j (at, busy, _) =
      let hit = in_due locked now batch_size db.jobs in
      rw
        (
          elem-sort before j.id (map (claimed u now worker_id lease db.draws) (select hit db.jobs)),
          ids-set now worker_id lease db.draws j.id (select hit db.jobs),
        )
        (select-unsound hit j.id db.jobs v.distinct λ k e. elim (Bool-cases (hit k)) [
          | inl y ↦
              let due_k = claimed-due u f v locked now worker_id batch_size lease j.id k e y in
              let same : k ≡ j = cc in
              let busy_k : is_processing k.status ≡ true = rw same busy in ground arith
          | inr z ↦ z
        ])

  -- On a well-formed database, with fresh uuids: what one claim took, a claim that follows it does
  -- not get, whatever the two see of the locks and the clock.
  pub claims-disjoint :
      {db db' db'' : Db} (js js' : List Job)
      → IsValid u db
      → (locked locked' : ℕ → Bool) (now now' : ℕ) (worker_id worker_id' : String)
        (batch_size batch_size' lease lease' : ℕ)
      → claim_due_jobs u locked now worker_id batch_size lease db ≡ ok (js, db')
      → claim_due_jobs u locked' now' worker_id' batch_size' lease' db' ≡ ok (js', db'')
      → All (λ j. elem j.id (ids js') ≡ false) js
  claims-disjoint {db} {db'} {db''} js js' v locked locked' now now' worker_id worker_id' batch_size
        batch_size' lease lease' e e' =
      let (rows, mid, done, _, _, taken) =
        claim-batch u f v locked now worker_id batch_size lease in
      let (same_js, same_db) = ok-pair (sym done ∙ e) in
      let v' =
        subst (IsValid u)
          (ok-pair (sym (claim_lem u f v locked now worker_id batch_size lease) ∙ e)).1
          (claim-IsValid u f v locked now worker_id batch_size lease) in
      let (same_js', _) =
        ok-pair (sym (claim_lem u f v' locked' now' worker_id' batch_size' lease') ∙ e') in
      All-map
        (λ j h.
          subst (λ l. elem j.id (ids l) ≡ false) same_js'
            (busy-skipped db.draws v' locked' now' worker_id' batch_size' lease' j h))
        js
        (subst (λ l. All (IsClaimed u db.draws db') l) same_js
          (subst (λ d. All (IsClaimed u db.draws d) rows) same_db taken))
