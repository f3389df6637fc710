-- ===== src/Fleet/Segments.antt =====
-- What one segment of a delivery does to the database and to the provider.
use notify_queue.Prelude.{
  ℕ, ◌≡◌, ◌≢◌, refl, sym, ◌∙◌, ◌⊎◌, inl, inr, Bool, true, false, Option, none, some, arith,
  if◌then◌else◌, Bool-cases, Option-cases,
}
use mathlib.Core.Path.{subst}
use notify_queue.Domain.{Job}
use notify_queue.Domain.Backoff.{backoff_delay}
use notify_queue.Settings.{Settings}
use notify_queue.Tables.{Db, Uuids}
use notify_queue.Tables.Tx.{Result, ok, raise, ok-pair}
use notify_queue.Jobs.Finalize.{Transition, or_default, mark_sent, mark_failed, return_to_queue}
use notify_queue.RateLimiter.{
  Allowance, Answer, admitted, wait, script_error, on_reply, postgres_acquire, redis_acquire,
}
use notify_queue.Cache.{Link, answered, lost, down}
use notify_queue.History.{fails, returns, limits}
use notify_queue.Worker.{
  World, Config, Moment, Phase, acquiring, budgeting, giving_back, sending, done, postponing,
  releasing, recording, refunding, Task, allowance, uses_redis, count, errors,
  lease_budget_exceeded, limiter_acquire, limiter_release, after_commit, has_budget,
}
use notify_queue.Worker.Delivery.{
  on_acquired, on_postponed, on_given_back, conclude, on_recorded, record_result, advance, at_phase,
}
use notify_queue.Fleet.Paths.{Quiet, rests, goes_on, Sends}

-- The send was accepted, and this is to be recorded.
abbrev pub is_accepted : Phase → Bool
is_accepted (recording none permanent refund_slot message) = true
is_accepted _ = false

-- What a segment other than the send does.
pub record Segment (u : Uuids) (p : Phase) (job : Job) (w : World) (step : Phase × World)
    : Type 0 where
  pub commits : Quiet u w.db step.1.db ⊎ ((is_accepted p ≡ true) × Sends u job.id w.db step.1.db)
  pub same_provider : step.1.provider ≡ w.provider
  pub unaccepted : is_accepted step.0 ≡ false

-- What follows a transaction leaves the database and the provider alone.
abbrev pub Leaves : World → Phase × World → Type 0
Leaves v step = (step.1.db ≡ v.db) × (step.1.provider ≡ v.provider) × (is_accepted step.0 ≡ false)

module _ (s : Settings) (v : World) where
  acquired-Leaves : (o : Option ℕ) → Leaves v (on_acquired o v)
  acquired-Leaves none = (refl, refl, refl)
  acquired-Leaves (some d) = (refl, refl, refl)

  postponed-Leaves : (t : Option Transition) → Leaves v (on_postponed s t v)
  postponed-Leaves t = (ground arith, ground arith, refl)

  given_back-Leaves : (t : Option Transition) → Leaves v (on_given_back s t v)
  given_back-Leaves t = (ground arith, ground arith, ground arith)

  recorded-Leaves : (e b : Bool) (t : Option Transition) → Leaves v (on_recorded s e b t v)
  recorded-Leaves e b t = (ground arith, ground arith, ground arith)

module _ (u : Uuids) (p : Phase) (job : Job) (w : World) where
  still :
      (q : Phase) (v : World)
      → v.db ≡ w.db
      → v.provider ≡ w.provider
      → is_accepted q ≡ false
      → Segment u p job w (q, v)
  still q v same provider unaccepted = record {
    commits = inl (subst (Quiet u w.db) (sym same) rests);
    same_provider = provider;
    unaccepted = unaccepted;
  }

  commit-Segment :
      {A : Type 0} (r : Result (A × Db)) (k : A → World → Phase × World) (v : World)
      → v.provider ≡ w.provider
      → v.db ≡ w.db
      → ((a : A) (db' : Db)
          → r ≡ ok (a, db')
          → Quiet u w.db db' ⊎ ((is_accepted p ≡ true) × Sends u job.id w.db db'))
      → ((a : A) (x : World) → Leaves x (k a x))
      → Segment u p job w (after_commit r v k)
  commit-Segment (ok (a, db')) k v provider same path leaves =
      let x : World = record v { db = db' } in
      let l = leaves a x in
      record {
        commits =
            subst (λ d. Quiet u w.db d ⊎ ((is_accepted p ≡ true) × Sends u job.id w.db d)) (sym l.0)
              (path a db' refl);
        same_provider = l.1 ∙ provider;
        unaccepted = l.2;
      }
  commit-Segment (raise e) k v provider same path leaves = still done _ same provider refl

module _ (u : Uuids) (now : ℕ) (job : Job) (db db' : Db) (o : Option ℕ) where
  postgres-Quiet : (a : Allowance) → postgres_acquire a now job db ≡ ok (o, db') → Quiet u db db'
  unfolding postgres_acquire
  postgres-Quiet a e = goes_on rests (limits now job.recipient a.per_window a.window o e) refl

  reply-Quiet :
      (a : Allowance) (link : Link) (r : Answer)
      → on_reply a now job link r db ≡ ok (o, db')
      → Quiet u db db'
  unfolding on_reply
  reply-Quiet a answered script_error e = postgres-Quiet a e
  reply-Quiet a answered admitted e = subst (Quiet u db) (ok-pair e).1 rests
  reply-Quiet a answered (wait ms) e = subst (Quiet u db) (ok-pair e).1 rests
  reply-Quiet a lost r e = postgres-Quiet a e
  reply-Quiet a down r e = postgres-Quiet a e

module _ (c : Config) (m : Moment) where
  pub acquire-Quiet :
      (job : Job) (w : World) (o : Option ℕ) (db' : Db)
      → (limiter_acquire c.settings m job w).1 ≡ ok (o, db')
      → Quiet c.uuids w.db db'
  unfolding redis_acquire
  acquire-Quiet job w o db' e = elim (Bool-cases (uses_redis c.settings)) [
    | inl y ↦ reply-Quiet c.uuids m.now job w.db db' o (allowance c.settings) m.link _ (rw y at e)
    | inr z ↦ postgres-Quiet c.uuids m.now job w.db db' o (allowance c.settings) (rw z at e)
  ]

  return-Quiet :
      (x t delay : ℕ) (db : Db) (r : Option Transition) (db' : Db)
      → return_to_queue m.now x t delay db ≡ ok (r, db')
      → Quiet c.uuids db db'
  return-Quiet x t delay db r db' e = goes_on rests (returns m.now x t delay r e) refl

  pub advance-Segment :
      (task : Task) (p : Phase) (w : World)
      → p ≢ sending
      → Segment c.uuids p task.job w (advance c m (at_phase task p) w)
  unfolding advance record_result
  advance-Segment task acquiring w n =
      let run = limiter_acquire c.settings m task.job w in
      commit-Segment c.uuids acquiring task.job w run.1 on_acquired (record w { slots = run.0 })
        refl refl (λ o db' e. inl (acquire-Quiet task.job w o db' e))
        (λ o x. acquired-Leaves c.settings x o)
  advance-Segment task (postponing d) w n =
      commit-Segment c.uuids (postponing d) task.job w
        (return_to_queue m.now task.job.id task.claim_token d w.db) (on_postponed c.settings) w refl
        refl (λ r db' e. inl (return-Quiet task.job.id task.claim_token d w.db r db' e))
        (λ r x. postponed-Leaves c.settings x r)
  advance-Segment task budgeting w n =
      still c.uuids budgeting task.job w
        (if has_budget c.settings task.lease_deadline m.monotonic then sending else giving_back) w
        refl refl (ground arith)
  advance-Segment task giving_back w n =
      commit-Segment c.uuids giving_back task.job w
        (return_to_queue m.now task.job.id task.claim_token 0 w.db) (on_given_back c.settings) w
        refl refl (λ r db' e. inl (return-Quiet task.job.id task.claim_token 0 w.db r db' e))
        (λ r x. given_back-Leaves c.settings x r)
  advance-Segment task releasing w n =
      still c.uuids releasing task.job w done
        (count lease_budget_exceeded (limiter_release c.settings m task.job w)) (ground arith)
        (ground arith) refl
  advance-Segment task sending w n = absurd (n refl)
  advance-Segment task (recording none permanent refund_slot message) w n =
      commit-Segment c.uuids (recording none permanent refund_slot message) task.job w
        (mark_sent c.uuids m.now task.job.id task.claim_token
          (or_default task.job.locked_by c.worker_id) message c.settings.default_callback_url w.db)
        (on_recorded c.settings false refund_slot) w refl refl
        (λ r db' e. inr (
          refl,
          (
            m.now,
            task.claim_token,
            or_default task.job.locked_by c.worker_id,
            message,
            c.settings.default_callback_url,
            r,
            e,
          ),
        ))
        (λ r x. recorded-Leaves c.settings x false refund_slot r)
  advance-Segment task (recording (some error) permanent refund_slot message) w n =
      elim (Option-cases (
        backoff_delay m.rng task.job.attempts c.settings.backoff_base_seconds
          c.settings.backoff_cap_seconds)) [
            | inl e ↦
                rw (e, record_result, advance)
                  (still c.uuids (recording (some error) permanent refund_slot message) task.job w
                    done (count errors w) refl refl refl)
            | inr (delay, e) ↦
                rw (e, record_result, advance)
                  (commit-Segment c.uuids (recording (some error) permanent refund_slot message)
                    task.job w
                    (mark_failed c.uuids m.now task.job.id task.claim_token
                      (or_default task.job.locked_by c.worker_id) error delay permanent
                      c.settings.default_callback_url w.db)
                    (on_recorded c.settings true refund_slot) w refl refl
                    (λ r db' h. inl (
                      goes_on rests
                        (fails m.now task.job.id task.claim_token
                          (or_default task.job.locked_by c.worker_id) error delay permanent
                          c.settings.default_callback_url r h)
                        refl))
                    (λ r x. recorded-Leaves c.settings x true refund_slot r))
          ]
  advance-Segment task (refunding t) w n =
      still c.uuids (refunding t) task.job w done
        (conclude c.settings true t (limiter_release c.settings m task.job w)) (ground arith)
        (ground arith) refl
  advance-Segment task done w n = still c.uuids done task.job w done w refl refl refl
