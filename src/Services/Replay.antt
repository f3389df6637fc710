-- ===== src/Services/Replay.antt =====
-- That the answer to a request does not depend on what Redis holds or whether it answers.
use notify_queue.Prelude.{
  ℕ, ◌≤◌, ◌≡◌, ◌≢◌, refl, sym, ◌∙◌, ap, String, true, false, Option, none, some, str_eq, str_eq_iff,
  first, select, Bool-cases, Option-cases, inl, inr,
}
use mathlib.Core.Path.{subst}
use notify_queue.Domain.{Job, NewJob}
use notify_queue.Domain.Schemas.{ScheduleJobRequest, JobOut, from_domain}
use notify_queue.Settings.{Settings}
use notify_queue.Tables.{Db, Uuids}
use notify_queue.Tables.Tx.{ok}
use notify_queue.Jobs.Create.{create_job, has_key, conflicts, get_job_by_idempotency_key}
use notify_queue.Invariant.Create.{insert_replay}
use notify_queue.Cache.{Link, answered, lost, down, get_idempotency}
use notify_queue.Services.Scheduler.{
  Shared, Visit, ScheduleReply, scheduled, idempotency_conflict, new_job, on_created, insert,
  on_known, known_key, is_past, after_fast, schedule,
}
use notify_queue.Services.DeadLetters.{extra_or_default-positive}
use notify_queue.Services.Coherence.{
  Coherent, first-exists, first-by-id, put_out-Coherent, get_out-found, remember-Coherent,
}

-- What a request comes to whose key is that of job j.
abbrev pub Replayed : Job → (request_hash : String) → Db → ScheduleReply × Shared → Type 0
Replayed j request_hash db run =
    (run.1.db ≡ db)
    × Coherent run.1
    × (j.request_hash ≡ request_hash
        → (out : JobOut) × (run.0 ≡ scheduled out false) × (out.id ≡ j.id))
    × (j.request_hash ≢ request_hash → run.0 ≡ idempotency_conflict j.id)

module _ (v : Visit) (key : String) where
  -- The transaction finds the job of the key, and changes nothing.
  create-found :
      (u : Uuids) (now : ℕ) (new : NewJob) (db : Db) {j : Job}
      → 1 ≤ new.max_attempts
      → new.idempotency_key ≡ some key
      → first (select (has_key key) db.jobs) ≡ some j
      → create_job u now new db ≡ ok ((j, false), db)
  unfolding create_job get_job_by_idempotency_key conflicts
  create-found u now new db {j} h named at =
      let held : conflicts new.idempotency_key db.jobs ≡ true =
        rw named (first-exists (has_key key) db.jobs {j = j} at) in
      rw (insert_replay u now new db h held, named, at) refl

  on_created-Replayed :
      (request_hash : String) (j : Job) (s : Shared)
      → Coherent s
      → first (select (has_key key) s.db.jobs) ≡ some j
      → Replayed j request_hash s.db
          (on_created v (some key) request_hash s (ok ((j, false), s.db)))
  on_created-Replayed request_hash j s h at =
      elim (Bool-cases (str_eq j.request_hash request_hash)) [
        | inl y ↦
            let same = (str_eq_iff j.request_hash request_hash).0 y in
            rw y (
              refl,
              put_out-Coherent v v.write_job (from_domain j) (remember-Coherent v key j s h at),
              (λ e. (from_domain j, refl, refl)),
              λ n. absurd (n same),
            )
        | inr z ↦
            let differ : j.request_hash ≢ request_hash =
              λ e. cc (z, (str_eq_iff j.request_hash request_hash).1 e) in
            rw z (refl, h, (λ e. absurd (differ e)), λ n. refl)
      ]

  on_known-Replayed :
      (request_hash : String) (j : Job) (s : Shared)
      → Coherent s
      → first (select (has_key key) s.db.jobs) ≡ some j
      → let fast = on_known v request_hash s (some (j.id, j.request_hash)) in
        (reply : ScheduleReply) × (fast.0 ≡ some reply)
        × Replayed j request_hash s.db (reply, fast.1)
  on_known-Replayed request_hash j s h at =
      let (k, by_id, same_id) = first-by-id (has_key key) s.db.jobs {j = j} at in
      let (out, found, mine, same_db, coherent) = get_out-found v j.id k h by_id same_id in
      elim (Bool-cases (str_eq j.request_hash request_hash)) [
        | inl y ↦
            let same = (str_eq_iff j.request_hash request_hash).0 y in
            rw (y, found)
              (
                scheduled out false,
                refl,
                (same_db, coherent, (λ e. (out, refl, mine)), λ n. absurd (n same)),
              )
        | inr z ↦
            let differ : j.request_hash ≢ request_hash =
              λ e. cc (z, (str_eq_iff j.request_hash request_hash).1 e) in
            rw z (idempotency_conflict j.id, refl, (refl, h, (λ e. absurd (differ e)), λ n. refl))
      ]

module _ (u : Uuids) (settings : Settings) (positive : 1 ≤ settings.max_attempts) (v : Visit)
    (request_hash : String) (r : ScheduleJobRequest) (in_time : is_past v.clock r.send_at ≡ false)
    (s : Shared) (h : Coherent s) where
  unfoldable pub new : NewJob
  new = new_job settings request_hash r

  pub allowed : 1 ≤ new.max_attempts
  unfolding new
  allowed = extra_or_default-positive r.max_attempts settings.max_attempts positive

  pub after_known :
      (fast : Option ScheduleReply × Shared)
      → on_known v request_hash s (known_key v r.idempotency_key s) ≡ fast
      → schedule u settings v request_hash r s ≡ after_fast u settings v request_hash r fast
  unfolding schedule
  after_known fast e = rw in_time (ap (after_fast u settings v request_hash r) e)

  -- With at least one attempt by default, on tables with which Redis agrees: a request in time with
  -- the key of a job is answered, whatever Redis has forgotten and whichever of its calls fail, with
  -- that job as a replay if the body's hash is the job's, and with a conflict otherwise; the tables
  -- do not change, and Redis still agrees with them.
  pub schedule-Replayed :
      (key : String) {j : Job}
      → r.idempotency_key ≡ some key
      → first (select (has_key key) s.db.jobs) ≡ some j
      → Replayed j request_hash s.db (schedule u settings v request_hash r s)
  unfolding new insert get_idempotency
  schedule-Replayed key {j} named at = elim (Option-cases (known_key v r.idempotency_key s)) [
    | inl e ↦
        let run =
          after_known (none, s) (ap (on_known v request_hash s) e)
          ∙ ap (on_created v r.idempotency_key request_hash s)
              (create-found v key u v.now new s.db {j = j} allowed named at)
          ∙ ap (λ k. on_created v k request_hash s (ok ((j, false), s.db))) named in
        subst (Replayed j request_hash s.db) (sym run)
          (on_created-Replayed v key request_hash j s h at)
    | inr (o, e) ↦
        let (i, at', same_id, same_hash) =
          h.of_keys key o.0 o.1 (learnt v.read_key o (ap (λ k. known_key v k s) (sym named) ∙ e)) in
        let same : i ≡ j = inside i j (sym at' ∙ at) in
        let mine : known_key v r.idempotency_key s ≡ some (j.id, j.request_hash) =
          e ∙ ap some (pair_of i o same same_id same_hash) in
        let (reply, found, replayed) = on_known-Replayed v key request_hash j s h at in
        let left = (on_known v request_hash s (some (j.id, j.request_hash))).1 in
        let run =
          after_known (some reply, left)
            (ap (on_known v request_hash s) mine ∙ ap (λ x. (x, left)) found) in
        subst (Replayed j request_hash s.db) (sym run) replayed
  ]
    where
      inside : (i k : Job) → some i ≡ some k → i ≡ k
      inside i k q = cc

      pair_of :
          (i : Job) (o : ℕ × String)
          → i ≡ j
          → i.id ≡ o.0
          → i.request_hash ≡ o.1
          → o ≡ (j.id, j.request_hash)
      pair_of i o q a b =
          ap (λ n. (n, o.1)) (sym a ∙ ap (λ (k : Job). k.id) q)
          ∙ ap (λ t. (j.id, t)) (sym b ∙ ap (λ (k : Job). k.request_hash) q)

      learnt :
          (link : Link) (o : ℕ × String)
          → get_idempotency link key s.keys ≡ some o
          → s.keys key ≡ some o
      learnt answered o e = e
      learnt lost o e = cc
      learnt down o e = cc
