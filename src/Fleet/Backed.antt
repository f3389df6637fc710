-- ===== src/Fleet/Backed.antt =====
-- The invariant of the running system, and the segments of a delivery.
use notify_queue.Prelude.{
  ℕ, zero, suc, ◌≤◌, ◌≡◌, ◌≢◌, refl, sym, ◌∙◌, ap, ◌⊎◌, inl, inr, true, false, some, List, [], ◌∷◌,
  arith, Bool-cases, count_where, ◌==◌, ==_iff,
}
use mathlib.Core.Path.{subst}
use notify_queue.Senders.{SendReply}
use notify_queue.Senders.Provider.{accepted}
use notify_queue.Tables.{IsFresh}
use notify_queue.Invariant.{IsValid, delivered}
use notify_queue.History.Safety.{Reach-IsValid}
use notify_queue.Worker.{
  World, Config, Moment, Phase, acquiring, budgeting, giving_back, sending, done, postponing,
  releasing, recording, refunding, Task, send_with_timeout, on_reply, count_dedup,
}
use notify_queue.Worker.Delivery.{advance, at_phase}
use notify_queue.Fleet.{Fleet, task_at, put_task}
use notify_queue.Fleet.Paths.{Quiet-Reach, Quiet-deliveries}
use notify_queue.Fleet.Segments.{is_accepted, advance-Segment}
use notify_queue.Fleet.Events.{Calm}
use notify_queue.Fleet.Sending.{send-Sound, Sends-delivered}

-- The database is well formed; the provider has accepted no job twice; it has accepted what the ledger says
-- that it delivered, and what a worker is about to record as sent.
pub record Backed (c : Config) (s : Fleet) : Type 0 where
  pub valid : IsValid c.uuids s.world.db
  pub once : (i : ℕ) → accepted s.world.provider i ≤ 1
  pub ledger : (i : ℕ) → delivered s.world.db i ≤ accepted s.world.provider i
  pub flying :
      (n : ℕ) (task : Task)
      → task_at n s.tasks ≡ some task
      → is_accepted task.phase ≡ true
      → accepted s.world.provider task.job.id ≡ 1

pub is_sending_phase : (p : Phase) → (p ≡ sending) ⊎ (p ≢ sending)
is_sending_phase acquiring = inr (λ e. cc)
is_sending_phase budgeting = inr (λ e. cc)
is_sending_phase giving_back = inr (λ e. cc)
is_sending_phase sending = inl refl
is_sending_phase done = inr (λ e. cc)
is_sending_phase (postponing d) = inr (λ e. cc)
is_sending_phase releasing = inr (λ e. cc)
is_sending_phase (recording e p r m) = inr (λ e'. cc)
is_sending_phase (refunding t) = inr (λ e. cc)

pub count_dedup-same :
    (r : SendReply) (w : World)
    → ((count_dedup r w).db ≡ w.db) × ((count_dedup r w).provider ≡ w.provider)
count_dedup-same r w = (ground arith, ground arith)

module _ (c : Config) (f : IsFresh c.uuids) (s : Fleet) (b : Backed c s) where
  -- Events without `mark_sent` and without a call of the provider, after which no further task is about to
  -- record a delivery.
  pub Calm-Backed :
      (w : World) (ts : List Task)
      → Calm c.uuids s.world w
      → ((n : ℕ) (task : Task)
          → task_at n ts ≡ some task
          → is_accepted task.phase ≡ true
          → (m : ℕ) × (task_at m s.tasks ≡ some task))
      → Backed c (record { world = w; tasks = ts })
  Calm-Backed w ts calm old =
      let same : (i : ℕ) → accepted w.provider i ≡ accepted s.world.provider i =
        λ i. ap (λ log. accepted log i) calm.same_provider in
      let kept : (i : ℕ) → delivered w.db i ≡ delivered s.world.db i =
        λ i. ap (count_where (λ d. d.job_id == i)) (Quiet-deliveries c.uuids calm.quiet) in
      record {
        valid = Reach-IsValid c.uuids f b.valid (Quiet-Reach c.uuids calm.quiet);
        once = λ i. omega (arith, same i, b.once i);
        ledger = λ i. omega (arith, same i, kept i, b.ledger i);
        flying = λ n task e y.
            let (m, h) = old n task e y in omega (arith, same task.job.id, b.flying m task h y);
      }

  put_task_at :
      (n m : ℕ) (a task : Task) (ts : List Task)
      → task_at m (put_task n a ts) ≡ some task
      → (task ≡ a) ⊎ (task_at m ts ≡ some task)
  put_task_at n m a task [] e = cc
  put_task_at zero zero a task (t ∷ ts) e = inl cc
  put_task_at zero (suc m) a task (t ∷ ts) e = inr e
  put_task_at (suc n) zero a task (t ∷ ts) e = inr e
  put_task_at (suc n) (suc m) a task (t ∷ ts) e = put_task_at n m a task ts e

  -- A task that is put back without a delivery to record.
  pub put_task_old :
      (k : ℕ) (a : Task)
      → is_accepted a.phase ≡ false
      → (n : ℕ) (task : Task) → task_at n (put_task k a s.tasks) ≡ some task
      → is_accepted task.phase ≡ true
      → (m : ℕ) × (task_at m s.tasks ≡ some task)
  put_task_old k a z n task e y = elim (put_task_at k n a task s.tasks e) [
    | inl same ↦ cc (z, y, ap (λ t. is_accepted t.phase) same)
    | inr h ↦ (n, h)
  ]

  module _ (m : Moment) (k : ℕ) (task : Task) where
    unfoldable pub stepped : Phase → Fleet
    stepped p =
        let step = advance c m (at_phase task p) s.world in
        record { world = step.1; tasks = put_task k (at_phase task step.0) s.tasks }

    pub sending-Backed : Backed c (stepped sending)
    unfolding stepped advance
    sending-Backed =
        let sent = send_with_timeout c m task.job s.world.provider in
        let called : World = record s.world { provider = sent.1 } in
        let same = count_dedup-same sent.0 called in
        let sound = send-Sound task.job s.world.provider c m in
        let log : (i : ℕ) → accepted (count_dedup sent.0 called).provider i ≡ accepted sent.1 i =
          λ i. ap (λ l. accepted l i) same.1 in
        let kept : (i : ℕ) → delivered (count_dedup sent.0 called).db i ≡ delivered s.world.db i =
          λ i. ap (λ d. delivered d i) same.0 in
        record {
          valid = subst (IsValid c.uuids) (sym same.0) b.valid;
          once = λ i. omega (arith, log i, sound.once i (b.once i));
          ledger = λ i. omega (arith, log i, kept i, b.ledger i, sound.grows i);
          flying = λ n t e y. elim (put_task_at k n (at_phase task (on_reply sent.0)) t s.tasks e) [
            | inl a ↦
                let mine : t.job.id ≡ task.job.id = ap (λ (x : Task). x.job.id) a in
                let yes : is_accepted (on_reply sent.0) ≡ true =
                  sym (ap (λ (x : Task). is_accepted x.phase) a) ∙ y in
                let own = sound.own (b.once task.job.id) yes in
                log t.job.id ∙ ap (accepted sent.1) mine ∙ own
            | inr h ↦ omega (
              arith,
              log t.job.id,
              b.flying n t h y,
              sound.grows t.job.id,
              sound.once t.job.id (b.once t.job.id),
            )
          ];
        }

    pub other_Backed :
        (p : Phase)
        → task_at k s.tasks ≡ some (at_phase task p)
        → p ≢ sending
        → Backed c (stepped p)
    unfolding stepped
    other_Backed p e n =
        let step = advance c m (at_phase task p) s.world in
        let seg = advance-Segment c m task p s.world n in
        elim seg.commits [
          | inl quiet ↦
              Calm-Backed step.1 (put_task k (at_phase task step.0) s.tasks)
                (record { quiet = quiet; same_provider = seg.same_provider })
                (put_task_old k (at_phase task step.0) seg.unaccepted)
          | inr (y, sent) ↦
              let (valid, _, one, others) = Sends-delivered c.uuids f b.valid task.job.id sent in
              let same : (i : ℕ) → accepted step.1.provider i ≡ accepted s.world.provider i =
                λ i. ap (λ log. accepted log i) seg.same_provider in
              let backed = b.flying k (at_phase task p) e y in
              record {
                valid = valid;
                once = λ i. omega (arith, same i, b.once i);
                ledger = λ i. elim (Bool-cases (task.job.id == i)) [
                  | inl q ↦
                      let me = (==_iff task.job.id i).0 q in
                      subst (λ x. delivered step.1.db x ≤ accepted step.1.provider x) me
                        (omega (arith, one, same task.job.id, backed))
                  | inr q ↦ omega (arith, others i (λ h. ground (arith, q, h)), same i, b.ledger i)
                ];
                flying = λ n t h y'.
                    let (m', h') = put_task_old k (at_phase task step.0) seg.unaccepted n t h y' in
                    omega (arith, same t.job.id, b.flying m' t h' y');
              }
        ]
