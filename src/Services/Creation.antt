-- ===== src/Services/Creation.antt =====
-- A request with a key that no job has, or with none, creates a job.
use notify_queue.Prelude.{
  ℕ, ◌≤◌, ◌≡◌, refl, sym, ◌∙◌, ap, String, true, false, Option, none, some, [], ◌∷◌, ◌++◌, first,
  select, ◌⊎◌, Option-cases, inl, inr, str_eq, str_eq_iff,
}
use mathlib.Core.Path.{subst}
use notify_queue.Domain.{Job}
use notify_queue.Domain.Schemas.{ScheduleJobRequest, from_domain}
use notify_queue.Settings.{Settings}
use notify_queue.Tables.{Db, Uuids, IsFresh}
use notify_queue.Tables.Tx.{ok}
use notify_queue.Jobs.Create.{has_key, conflicts, new_row}
use notify_queue.Invariant.{IsValid}
use notify_queue.Invariant.Counts.{first-snoc}
use notify_queue.Invariant.Create.{create-new}
use notify_queue.Cache.{Link, answered, lost, down, get_idempotency}
use notify_queue.Services.Scheduler.{
  Shared, Visit, ScheduleReply, scheduled, new_job, remember, on_created, on_known, known_key,
  is_past, insert, schedule,
}
use notify_queue.Services.Coherence.{
  Coherent, first-exists, first-append, put_out-Coherent, remember-Coherent,
}
use notify_queue.Services.Replay.{new, allowed, after_known}

-- Another job changes nothing for the keys that Redis knows.
append-Coherent :
    (s : Shared) (db : Db) (row : Job)
    → Coherent s
    → db.jobs ≡ s.db.jobs ++ row ∷ []
    → Coherent (record s { db = db })
append-Coherent s db row h e = record {
  of_keys = λ key id hash known.
      let (j, at, same_id, same_hash) = h.of_keys key id hash known in
      (
        j,
        ap (λ js. first (select (has_key key) js)) e
            ∙ first-append (has_key key) s.db.jobs row {j = j} at,
        same_id,
        same_hash,
      );
  of_jobs = h.of_jobs;
}

module _ (u : Uuids) (f : IsFresh u) (settings : Settings) (positive : 1 ≤ settings.max_attempts)
    (v : Visit) (request_hash : String) (r : ScheduleJobRequest)
    (in_time : is_past v.clock r.send_at ≡ false) (s : Shared) (h : Coherent s) where
  abbrev pub row : Job
  row = new_row u v.now (new_job settings request_hash r) s.db.draws

  unknown : (key : Option String) → conflicts key s.db.jobs ≡ false → known_key v key s ≡ none
  unfolding conflicts get_idempotency
  unknown none c = refl
  unknown (some key) c = asked v.read_key (Option-cases (s.keys key))
    where
      asked :
          (link : Link)
          → (s.keys key ≡ none) ⊎ ((o : ℕ × String) × (s.keys key ≡ some o))
          → get_idempotency link key s.keys ≡ none
      asked answered (inl e) = e
      asked answered (inr (o, e)) =
          let (j, at, _, _) = h.of_keys key o.0 o.1 e in
          absurd (cc (c, first-exists (has_key key) s.db.jobs {j = j} at))
      asked lost o = refl
      asked down o = refl

  remembered :
      (key : Option String) (db : Db)
      → r.idempotency_key ≡ key
      → conflicts key s.db.jobs ≡ false
      → db.jobs ≡ s.db.jobs ++ row ∷ []
      → Coherent (remember v key row (record s { db = db }))
  unfolding conflicts new_row
  remembered none db named c e = append-Coherent s db row h e
  remembered (some key) db named c e =
      remember-Coherent v key row (record s { db = db }) (append-Coherent s db row h e)
        (ap (λ js. first (select (has_key key) js)) e
          ∙ first-snoc (has_key key) s.db.jobs row c (
              ap (λ (o : Option String). elim o [ none ↦ false | some k ↦ str_eq k key ]) named
              ∙ (str_eq_iff key key).1 refl))

  abbrev pub Created : ScheduleReply × Shared → Type 0
  Created run =
      (run.0 ≡ scheduled (from_domain row) true)
      × (run.1.db.jobs ≡ s.db.jobs ++ row ∷ [])
      × IsValid u run.1.db
      × Coherent run.1

  on_created-Created :
      (key : Option String) (db : Db)
      → r.idempotency_key ≡ key
      → conflicts key s.db.jobs ≡ false
      → db.jobs ≡ s.db.jobs ++ row ∷ []
      → IsValid u db
      → Created (on_created v key request_hash s (ok ((row, true), db)))
  on_created-Created none db named c jobs valid = (
    refl,
    jobs,
    valid,
    put_out-Coherent v v.write_job (from_domain row) (remembered none db named c jobs),
  )
  on_created-Created (some key) db named c jobs valid = (
    refl,
    jobs,
    valid,
    put_out-Coherent v v.write_job (from_domain row) (remembered (some key) db named c jobs),
  )

  -- With fresh uuids and at least one attempt by default, on well-formed tables with which Redis
  -- agrees: a request in time whose key no job has, or that has none, is answered with the new job,
  -- as created; the table has gained just its row and is well formed, and Redis still agrees with
  -- it, whichever of its calls fail.
  pub schedule-created :
      IsValid u s.db
      → conflicts r.idempotency_key s.db.jobs ≡ false
      → let run = schedule u settings v request_hash r s in
        let row = new_row u v.now (new_job settings request_hash r) s.db.draws in
        (run.0 ≡ scheduled (from_domain row) true)
        × (run.1.db.jobs ≡ s.db.jobs ++ row ∷ [])
        × IsValid u run.1.db
        × Coherent run.1
  unfolding insert new
  schedule-created valid c =
      let (db, done, valid', jobs, _, _) =
        create-new u f valid v.now (new_job settings request_hash r)
          (allowed u settings positive v request_hash r in_time s h) c in
      let run =
        after_known u settings positive v request_hash r in_time s h (none, s)
          (ap (on_known v request_hash s) (unknown r.idempotency_key c))
        ∙ ap (on_created v r.idempotency_key request_hash s) done in
      subst Created (sym run) (on_created-Created r.idempotency_key db refl c jobs valid')
