-- ===== src/History/Endings.antt =====
-- The two ways in which a claim ends for good: its worker has recorded the delivery, or the reaper has
-- taken the job from it.
use notify_queue.Prelude.{
  ℕ, ◌<◌, ◌≡◌, refl, sym, ◌∙◌, Bool, true, Option, none, some, List, arith, String, ltb, Bool-cases,
  inl, inr,
}
use mathlib.Core.Path.{subst}
use notify_queue.Domain.{Job}
use notify_queue.Tables.{Db, Uuids, IsFresh, find}
use notify_queue.Tables.Tx.{ok, ok-pair}
use notify_queue.Tables.Find.{if_hit-eq-some, find-update}
use notify_queue.Jobs.Finalize.{
  Transition, transition, is_held, set_sent, mark_sent, mark_failed, return_to_queue,
}
use notify_queue.Jobs.Reap.{in_expired, set_reaped, reap_expired_leases}
use notify_queue.Invariant.{IsValid, JobOk, delivered}
use notify_queue.Invariant.Held.{held}
use notify_queue.Invariant.Finalize.{mark_sent-held}
use notify_queue.Invariant.Reap.{reap-ok}
use notify_queue.History.{Reach}
use notify_queue.History.Safety.{Reach-IsValid}
use notify_queue.History.Lifecycle.{sent_final}
use notify_queue.History.Fencing.{stale_worker_fenced}

module _ (u : Uuids) (f : IsFresh u) {db : Db} (v : IsValid u db) (x n : ℕ) {j : Job}
    (h : held x (u.token n x) db ≡ some j) where
  at_row : (find x db.jobs ≡ some j) × (is_held x (u.token n x) j ≡ true)
  at_row = if_hit-eq-some (is_held x (u.token n x)) (find x db.jobs) h

  -- The token of a claim that holds was drawn before.
  drawn : n < db.draws
  drawn = elim (Bool-cases (ltb n db.draws)) [
    | inl y ↦ ground arith
    | inr z ↦ absurd (v.unused_tokens n x j (ground arith) at_row.0 (ground (arith, at_row.1)))
  ]

  -- With fresh uuids, from a well-formed database: once the holder of a claim has recorded its
  -- delivery, the job stays exactly as that left it in every later history, with one delivery in the
  -- ledger, and no write under the claim has effect again.
  pub sent_once :
      (now : ℕ) (worker_id url : String) (message : Option String) (r : Option Transition)
      {db' db'' : Db}
      → mark_sent u now x (u.token n x) worker_id message url db ≡ ok (r, db')
      → Reach u db' db''
      → (r ≡ some (transition (set_sent now j)))
        × (find x db''.jobs ≡ some (set_sent now j))
        × (delivered db'' x ≡ 1)
        × ((later : ℕ) (error : String) (delay : ℕ) (permanent : Bool)
            → (mark_sent u later x (u.token n x) worker_id message url db'' ≡ ok (none, db''))
              × (mark_failed u later x (u.token n x) worker_id error delay permanent url db''
                  ≡ ok (none, db''))
              × (return_to_queue later x (u.token n x) delay db'' ≡ ok (none, db'')))
  sent_once now worker_id url message r {db'} {db''} e later =
      let (mid, done, ended) = mark_sent-held u v x (u.token n x) now f h worker_id url message in
      let (same_r, same) = ok-pair (sym e ∙ done) in
      let valid : IsValid u db' = subst (IsValid u) (sym same) ended.valid in
      let row : find x db'.jobs ≡ some (set_sent now j) =
        subst (λ d. find x d.jobs ≡ some (set_sent now j)) (sym same) ended.row in
      let grown : n < db'.draws =
        subst (λ d. n < d.draws) (sym same) (omega (arith, drawn, ended.grows)) in
      let lost : held x (u.token n x) db' ≡ none = rw row (ground arith) in
      let final = sent_final u f x (set_sent now j) valid row refl later in
      let job_ok : JobOk (set_sent now j) db'' x =
        rw final at ((Reach-IsValid u f valid later).rows x) in
      (
        same_r,
        final,
        job_ok.ledger,
        (λ t error delay permanent.
            stale_worker_fenced u f x n valid grown lost later t worker_id error url message delay
              permanent),
      )

  -- With fresh uuids, on a well-formed database: once the reaper has taken an expired job from the
  -- holder of its claim, the job is as the reaper's SET clause says, and in every later history no
  -- write under that claim has effect.
  pub reaped_worker_fenced :
      (locked : ℕ → Bool) (now limit : ℕ) (url : String) (ts : List Transition) {db' db'' : Db}
      → reap_expired_leases u locked now limit url db ≡ ok (ts, db')
      → in_expired locked now limit db.jobs j ≡ true
      → Reach u db' db''
      → (later : ℕ) (worker_id error : String) (message : Option String) (delay : ℕ)
        (permanent : Bool)
      → (find x db'.jobs ≡ some (set_reaped now j))
        × (mark_sent u later x (u.token n x) worker_id message url db'' ≡ ok (none, db''))
        × (mark_failed u later x (u.token n x) worker_id error delay permanent url db''
            ≡ ok (none, db''))
        × (return_to_queue later x (u.token n x) delay db'' ≡ ok (none, db''))
  reaped_worker_fenced locked now limit url ts {db'} {db''} e hit r later worker_id error message
        delay permanent =
      let (mid, done, valid0, jobs, _, grows) = reap-ok u f now url v locked limit in
      let same = (ok-pair (sym e ∙ done)).1 in
      let valid : IsValid u db' = subst (IsValid u) (sym same) valid0 in
      let row : find x db'.jobs ≡ some (set_reaped now j) =
        subst (λ d. find x d.jobs ≡ some (set_reaped now j)) (sym same)
          (rw
            (
              jobs,
              find-update (in_expired locked now limit db.jobs) (set_reaped now) (λ k. refl) x
                  db.jobs,
              at_row.0,
              hit,
            )
            refl) in
      let grown : n < db'.draws =
        subst (λ d. n < d.draws) (sym same) (omega (arith, drawn, grows)) in
      let lost : held x (u.token n x) db' ≡ none = rw row (ground arith) in
      let (no_send, no_fail, no_return) =
        stale_worker_fenced u f x n valid grown lost r later worker_id error url message delay
          permanent in
      (row, no_send, no_fail, no_return)
