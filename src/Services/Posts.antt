-- ===== src/Services/Posts.antt =====
-- The route that schedules a job (api/routes/jobs.py), called again with the same key.
use notify_queue.Prelude.{
  Bool-cases, ◌⊎◌, inl, inr, true, ℕ, ◌≤◌, ◌≡◌, refl, sym, ◌∙◌, ap, String, false, some, [], ◌∷◌,
  ◌++◌, first, select, str_eq_iff,
}
use notify_queue.Domain.Schemas.{ScheduleJobRequest, JobOut, from_domain}
use notify_queue.Settings.{Settings}
use notify_queue.Tables.{Db, Uuids, IsFresh}
use notify_queue.Jobs.Create.{has_key, conflicts, new_row}
use notify_queue.Invariant.{IsValid}
use notify_queue.Invariant.Counts.{first-snoc}
use notify_queue.Services.Scheduler.{
  Shared, Visit, new_job, is_past, schedule, replied, error, invalid_schedule, to_http, keys_differ,
  schedule_route,
}
use notify_queue.Services.Coherence.{Coherent}
use notify_queue.Services.Replay.{schedule-Replayed}
use notify_queue.Services.Creation.{schedule-created}

module _ (u : Uuids) (f : IsFresh u) (settings : Settings) (positive : 1 ≤ settings.max_attempts)
    (hash : ScheduleJobRequest → String) (key : String) (body : ScheduleJobRequest)
    (agree : keys_differ key body.idempotency_key ≡ false) where
  abbrev pub keyed : ScheduleJobRequest
  keyed = record body { idempotency_key = some key }

  route_lem :
      (v : Visit) (s : Shared)
      → let run = schedule u settings v (hash keyed) keyed s in
        schedule_route u settings hash v (some key) body s ≡ (to_http run.0, run.1)
  unfolding schedule_route
  route_lem v s = rw agree refl

  -- The row of the key, once it is there.
  row_found :
      (now draw : ℕ) (db db' : Db)
      → conflicts (some key) db.jobs ≡ false
      → db'.jobs ≡ db.jobs ++ new_row u now (new_job settings (hash keyed) keyed) draw ∷ []
      → first (select (has_key key) db'.jobs)
        ≡ some (new_row u now (new_job settings (hash keyed) keyed) draw)
  unfolding conflicts new_row
  row_found now draw db db' c jobs =
      ap (λ js. first (select (has_key key) js)) jobs
      ∙ first-snoc (has_key key) db.jobs (new_row u now (new_job settings (hash keyed) keyed) draw)
          c ((str_eq_iff key key).1 refl)

  -- A request that comes too late, also one whose key is known.
  late_lem :
      (v : Visit) (s : Shared)
      → is_past v.clock body.send_at ≡ true
      → schedule u settings v (hash keyed) keyed s ≡ (invalid_schedule, s)
  unfolding schedule
  late_lem v s late = rw late refl

  -- With fresh uuids and at least one attempt by default, on well-formed tables with which Redis
  -- agrees, for a header key that no job has and that the body does not contradict: the first POST,
  -- if it is in time, is answered with 201 and the new job; the same POST again, whichever calls of
  -- Redis fail in either, changes no table, and is answered with 200 and an entry of the same job,
  -- or with 422 exactly if its send_at lies too far in the past by then.
  pub schedule_route-replays :
      (v v' : Visit) (s : Shared)
      → is_past v.clock body.send_at ≡ false
      → IsValid u s.db
      → Coherent s
      → conflicts (some key) s.db.jobs ≡ false
      → let one = schedule_route u settings hash v (some key) body s in
        let two = schedule_route u settings hash v' (some key) body one.1 in
        (out : JobOut) × (one.0 ≡ replied 201 out)
        × (two.1.db ≡ one.1.db)
        × (((is_past v'.clock body.send_at ≡ false)
              × (out' : JobOut) × (two.0 ≡ replied 200 out')
              × (out'.id ≡ out.id))
            ⊎ ((is_past v'.clock body.send_at ≡ true) × (two.0 ≡ error 422)))
  unfolding new_row
  schedule_route-replays v v' s early valid h unused =
      let row = new_row u v.now (new_job settings (hash keyed) keyed) s.db.draws in
      let run = schedule u settings v (hash keyed) keyed s in
      let (answer, jobs, _, coherent) =
        schedule-created u f settings positive v (hash keyed) keyed early s h valid unused in
      let first = route_lem v s in
      let left : (schedule_route u settings hash v (some key) body s).1 ≡ run.1 =
        ap (λ r. r.1) first in
      let again =
        ap (λ x. schedule_route u settings hash v' (some key) body x) left ∙ route_lem v' run.1 in
      let created = ap (λ r. r.0) first ∙ ap to_http answer in
      let same_db = ap (λ (x : Shared). x.db) (sym left) in
      elim (Bool-cases (is_past v'.clock body.send_at)) [
        | inl late ↦
            let refused = late_lem v' run.1 late in
            (
              from_domain row,
              created,
              ap (λ r. r.1.db) again ∙ ap (λ r. r.1.db) refused ∙ same_db,
              inr (late, ap (λ r. r.0) again ∙ ap (λ r. to_http r.0) refused),
            )
        | inr early' ↦
            let at = row_found v.now s.db.draws s.db run.1.db unused jobs in
            let (same, _, replays, _) =
              schedule-Replayed u settings positive v' (hash keyed) keyed early' run.1 coherent key
                {j = row} refl at in
            let (out', found, mine) = replays refl in
            (
              from_domain row,
              created,
              ap (λ r. r.1.db) again ∙ same ∙ same_db,
              inl (early', out', ap (λ r. r.0) again ∙ ap to_http found, mine),
            )
      ]
