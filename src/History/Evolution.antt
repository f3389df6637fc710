-- ===== src/History/Evolution.antt =====
-- That every transaction moves each job by one move, and keeps the database well formed.
use notify_queue.Prelude.{
  ℕ, ◌≤◌, ◌≡◌, refl, sym, ◌∙◌, inl, inr, Bool, true, false, Option, none, some, arith, String,
  Bool-cases, Option-cases, leb, leb→le, List, [], ◌∷◌, ◌++◌,
}
use mathlib.Core.Path.{subst}
use notify_queue.Domain.{Job, NewJob, is_pending, is_processing}
use notify_queue.Tables.{Db, Uuids, IsFresh, find}
use notify_queue.Tables.Tx.{Result, ok}
use notify_queue.Tables.Find.{find-update, if_hit, if_hit-eq-some, find-append}
use notify_queue.Jobs.Claim.{claimed, is_due}
use notify_queue.Jobs.Finalize.{is_held}
use notify_queue.Jobs.Reap.{set_reaped, is_expired}
use notify_queue.Invariant.{IsValid}
use notify_queue.Invariant.Held.{held}
use notify_queue.Invariant.Finalize.{fenced, mark_sent-held, mark_failed-held, return_to_queue-held}
use notify_queue.Invariant.Claim.{claim_hit, claimed-due, claim_lem, claim-IsValid, after_claim}
use notify_queue.Invariant.Reap.{reap_hit, reaped-expired, reap-ok}
use notify_queue.Invariant.Requeue.{is_dead_at, requeue-miss, requeue-dead}
use notify_queue.Invariant.Create.{create-new, create-replay, create-refused}
use notify_queue.Jobs.Create.{create_job, conflicts, new_row}
use notify_queue.Jobs.Claim.{claim_due_jobs}
use notify_queue.Jobs.Finalize.{Transition, mark_sent, mark_failed, return_to_queue}
use notify_queue.Jobs.Reap.{reap_expired_leases, requeue_dead_letter}
use notify_queue.History.{
  Step, creates, claims, sends, fails, returns, reaps, requeues, limits, cleans, leases, marks,
  gives_up,
}
use notify_queue.History.Moves.{
  Move, stay, claim, send, fail, put_back, reap, requeue, Evolves, Evolves-same, Evolves-one,
  Evolves-update,
}
use notify_queue.History.Unseen.{
  Unseen-Evolves, limits-Unseen, cleans-Unseen, leases-Unseen, marks-Unseen, gives_up-Unseen,
}

ok-db :
    {A : Type 0} {a b : A} {db db' : Db}
    → ◌≡◌ {A = Result (A × Db)} (ok (a, db)) (ok (b, db'))
    → db ≡ db'
ok-db e = cc

-- The job that a claim holds is in processing.
held-row :
    (x t : ℕ) (db : Db) {j : Job}
    → held x t db ≡ some j
    → (find x db.jobs ≡ some j) × (is_processing j.status ≡ true)
held-row x t db {j} h =
    let (at, y) = if_hit-eq-some (is_held x t) (find x db.jobs) h in (at, ground arith)

-- The row that an INSERT adds is pending.
new-pending :
    (jobs : List Job) (i : ℕ) (row j' : Job)
    → is_pending row.status ≡ true
    → find i jobs ≡ none
    → find i (jobs ++ row ∷ []) ≡ some j'
    → is_pending j'.status ≡ true
new-pending jobs i row j' p h e = ground (arith, find-append i jobs row)

expired-busy :
    (now : ℕ) (locked : ℕ → Bool) (j : Job)
    → is_expired locked now j ≡ true
    → is_processing j.status ≡ true
expired-busy now locked j h = ground arith

module _ (u : Uuids) (f : IsFresh u) {db : Db} (v : IsValid u db) where
  create-Evolves :
      (now : ℕ) (new : NewJob) (r : Job × Bool) {db' : Db}
      → create_job u now new db ≡ ok (r, db')
      → Evolves u db db'
  unfolding new_row
  create-Evolves now new r {db'} e = elim (Bool-cases (leb 1 new.max_attempts)) [
    | inr z ↦ cc (create-refused u now new db z)
    | inl y ↦ elim (Bool-cases (conflicts new.idempotency_key db.jobs)) [
      | inl c ↦
          let (_, _, _, done, _) = create-replay u now new db (leb→le 1 new.max_attempts y) c in
          Evolves-same u v (ok-db (sym done ∙ e))
      | inr c ↦
          let (db'', done, valid, jobs, _, draws) =
            create-new u f v now new (leb→le 1 new.max_attempts y) c in
          subst (Evolves u db) (ok-db (sym done ∙ e)) (record {
            valid = valid;
            grows = omega (arith, draws);
            moves = λ i j h. (
              j,
              rw (jobs, find-append i db.jobs (new_row u now new db.draws), h) refl,
              stay refl,
            );
            born = λ i h j' h'.
                new-pending db.jobs i (new_row u now new db.draws) j' new_row-pending h
                  (rw jobs at h');
          })
    ]
  ]
    where
      new_row-pending : is_pending (new_row u now new db.draws).status ≡ true
      new_row-pending = refl

  claim-Evolves :
      (locked : ℕ → Bool) (now : ℕ) (worker_id : String) (batch_size lease : ℕ) (js : List Job)
      {db' : Db}
      → claim_due_jobs u locked now worker_id batch_size lease db ≡ ok (js, db')
      → Evolves u db db'
  unfolding after_claim
  claim-Evolves locked now worker_id batch_size lease js e =
      subst (Evolves u db) (ok-db (sym (claim_lem u f v locked now worker_id batch_size lease) ∙ e))
        (Evolves-update u v hit set (claim-IsValid u f v locked now worker_id batch_size lease)
          (omega arith) (λ i. find-update hit set (λ j. refl) i db.jobs)
          (λ i j h y.
            due-claim i j (claimed-due u f v locked now worker_id batch_size lease i j h y)))
    where
      due-claim :
          (i : ℕ) (j : Job)
          → is_due locked now j ≡ true
          → Move u db.draws j (claimed u now worker_id lease db.draws j)
      due-claim i j d = claim now worker_id lease (ground arith) (ground arith) refl

      hit : Job → Bool
      hit = claim_hit u f v locked now worker_id batch_size lease

      set : Job → Job
      set = claimed u now worker_id lease db.draws

  reap-Evolves :
      (locked : ℕ → Bool) (now limit : ℕ) (url : String) (ts : List Transition) {db' : Db}
      → reap_expired_leases u locked now limit url db ≡ ok (ts, db')
      → Evolves u db db'
  reap-Evolves locked now limit url ts e =
      let (db'', done, valid, jobs, _, grows) = reap-ok u f now url v locked limit in
      let hit = reap_hit u f now url v locked limit in
      subst (Evolves u db) (ok-db (sym done ∙ e)) (
        Evolves-update u v hit (set_reaped now) valid grows
          (λ i. rw jobs (find-update hit (set_reaped now) (λ j. refl) i db.jobs))
          (λ i j h y.
            reap now (expired-busy now locked j (reaped-expired u f now url v locked limit i j h y))
              refl))

  module _ (now x t : ℕ) where
    send-Evolves :
        (worker_id : String) (message : Option String) (url : String) (r : Option Transition)
        {db' : Db}
        → mark_sent u now x t worker_id message url db ≡ ok (r, db')
        → Evolves u db db'
    send-Evolves worker_id message url r e = elim (Option-cases (held x t db)) [
      | inl n ↦
          Evolves-same u v
            (ok-db (sym (fenced u v x t now n worker_id "" url message 0 false).0 ∙ e))
      | inr (j, h) ↦
          let (db'', done, end) = mark_sent-held u v x t now f h worker_id url message in
          subst (Evolves u db) (ok-db (sym done ∙ e)) (
            Evolves-one u v x end.valid end.grows (held-row x t db h).0 end.row
              (send now (held-row x t db h).1 refl) end.other_jobs)
    ]

    fail-Evolves :
        (worker_id error : String) (delay : ℕ) (permanent : Bool) (url : String)
        (r : Option Transition) {db' : Db}
        → mark_failed u now x t worker_id error delay permanent url db ≡ ok (r, db')
        → Evolves u db db'
    fail-Evolves worker_id error delay permanent url r e = elim (Option-cases (held x t db)) [
      | inl n ↦
          Evolves-same u v
            (ok-db (sym (fenced u v x t now n worker_id error url none delay permanent).1 ∙ e))
      | inr (j, h) ↦
          let (db'', done, end, _) =
            mark_failed-held u v x t now f h worker_id error url delay permanent in
          subst (Evolves u db) (ok-db (sym done ∙ e)) (
            Evolves-one u v x end.valid end.grows (held-row x t db h).0 end.row
              (fail now error delay permanent (held-row x t db h).1 refl) end.other_jobs)
    ]

    return-Evolves :
        (delay : ℕ) (r : Option Transition) {db' : Db}
        → return_to_queue now x t delay db ≡ ok (r, db')
        → Evolves u db db'
    return-Evolves delay r e = elim (Option-cases (held x t db)) [
      | inl n ↦
          Evolves-same u v (ok-db (sym (fenced u v x t now n "" "" "" none delay false).2 ∙ e))
      | inr (j, h) ↦
          let (db'', done, valid, row, others, _, draws) =
            return_to_queue-held u v x t now f h delay in
          subst (Evolves u db) (ok-db (sym done ∙ e)) (
            Evolves-one u v x valid (omega (arith, draws)) (held-row x t db h).0 row
              (put_back now delay (held-row x t db h).1 refl) others)
    ]

  requeue-Evolves :
      (now x extra : ℕ) (r : Option Transition) {db' : Db}
      → 1 ≤ extra
      → requeue_dead_letter now x extra db ≡ ok (r, db')
      → Evolves u db db'
  requeue-Evolves now x extra r more e =
      elim (Option-cases (if_hit (is_dead_at x) (find x db.jobs))) [
        | inl n ↦ Evolves-same u v (ok-db (sym (requeue-miss u v x now extra n) ∙ e))
        | inr (j, h) ↦
            let (db'', done, valid, row, _, others, draws) = requeue-dead u v x now extra h more in
            let (at, dead) = if_hit-eq-some (is_dead_at x) (find x db.jobs) h in
            subst (Evolves u db) (ok-db (sym done ∙ e)) (
              Evolves-one u v x valid (omega (arith, draws)) at row
                (requeue now extra more (ground arith) refl) (λ i ne. (others i ne).0))
      ]

-- Every transaction keeps the database well formed, and moves each job as the lifecycle allows.
pub Step-Evolves :
    (u : Uuids) → IsFresh u → {db db' : Db} → IsValid u db → Step u db db' → Evolves u db db'
Step-Evolves u f v (creates now new r e) = create-Evolves u f v now new r e
Step-Evolves u f v (claims locked now w n l js e) = claim-Evolves u f v locked now w n l js e
Step-Evolves u f v (sends now x t w m url r e) = send-Evolves u f v now x t w m url r e
Step-Evolves u f v (fails now x t w error d p url r e) =
    fail-Evolves u f v now x t w error d p url r e
Step-Evolves u f v (returns now x t d r e) = return-Evolves u f v now x t d r e
Step-Evolves u f v (reaps locked now n url ts e) = reap-Evolves u f v locked now n url ts e
Step-Evolves u f v (requeues now x extra r more e) = requeue-Evolves u f v now x extra r more e
Step-Evolves u f v (limits now recipient limit window r e) =
    Unseen-Evolves u v (limits-Unseen now recipient limit window r e)
Step-Evolves u f v (cleans now window n e) = Unseen-Evolves u v (cleans-Unseen now window n e)
Step-Evolves u f v (leases locked now limit lease es e) =
    Unseen-Evolves u v (leases-Unseen locked now limit lease es e)
Step-Evolves u f v (marks now x e) = Unseen-Evolves u v (marks-Unseen now x e)
Step-Evolves u f v (gives_up now x error delay e) =
    Unseen-Evolves u v (gives_up-Unseen now x error delay e)
