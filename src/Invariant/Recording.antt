-- ===== src/Invariant/Recording.antt =====
-- What recording the end of an attempt does to the satellite tables, and that it restores the fit.
use notify_queue.Prelude.{
  ℕ, ◌+◌, ◌-◌, ◌≤◌, ◌<◌, ◌≡◌, ◌≢◌, Bool, true, false, ◌&&◌, ◌||◌, Option, none, some, arith, leb,
  ◌==◌, ◌∙◌,
}
use notify_queue.Domain.{Job, is_pending, is_processing, is_sent, is_dead}
use notify_queue.Tables.{Db}
use notify_queue.Invariant.{
  JobOk, RowOk, delivered, lettered, tries, events, tried, is_some, one_if,
}

-- The tables that hold no jobs, seen at i, are the same.
pub record SameRows (db db' : Db) (i : ℕ) : Type 0 where
  pub same_delivered : delivered db' i ≡ delivered db i
  pub same_lettered : lettered db' i ≡ lettered db i
  pub same_tries : tries db' i ≡ tries db i
  pub same_events : events db' i ≡ events db i
  pub same_tried : (n : ℕ) → tried db' i n ≡ tried db i n

pub SameRows-RowOk :
    (o : Option Job) {db db' : Db} {i : ℕ} → SameRows db db' i → RowOk o db i → RowOk o db' i
SameRows-RowOk none s v = record {
  no_delivery = s.same_delivered ∙ v.no_delivery;
  no_letter = s.same_lettered ∙ v.no_letter;
  no_tries = s.same_tries ∙ v.no_tries;
  no_events = s.same_events ∙ v.no_events;
  no_history = λ n. s.same_tried n ∙ v.no_history n;
}
SameRows-RowOk (some j) s v = record {
  ledger = s.same_delivered ∙ v.ledger;
  letter = s.same_lettered ∙ v.letter;
  counted = s.same_tries ∙ v.counted;
  announced = s.same_events ∙ v.announced;
  history = λ n. s.same_tried n ∙ v.history n;
  capped = v.capped;
  room = v.room;
  running = v.running;
  token = v.token;
  lease = v.lease;
}

-- The end of attempt `no` of job x is recorded: a row of the history, an event, and a delivery or a
-- dead letter.
pub record Records (x no : ℕ) (sent dead : Bool) (db db' : Db) : Type 0 where
  pub jobs_kept : db'.jobs ≡ db.jobs
  pub one_draw : db'.draws ≡ db.draws + 1
  pub delivered_at : (i : ℕ) → delivered db' i ≡ delivered db i + one_if (sent && (x == i))
  pub lettered_at : (i : ℕ) → lettered db' i ≡ lettered db i + one_if (dead && (x == i))
  pub tries_at : (i : ℕ) → tries db' i ≡ tries db i + one_if (x == i)
  pub events_at : (i : ℕ) → events db' i ≡ events db i + one_if (x == i)
  pub tried_at : (i n : ℕ) → tried db' i n ≡ (tried db i n || ((x == i) && (no == n)))

-- A job whose last attempt is over and not recorded yet.
pub record Owed (j : Job) (db : Db) (i : ℕ) : Type 0 where
  pub stopped : is_processing j.status ≡ false
  pub undelivered : delivered db i ≡ 0
  pub unlettered : lettered db i ≡ 0
  pub started : 0 < j.attempts
  pub counted : tries db i + 1 ≡ j.attempts
  pub announced : events db i + 1 ≡ j.attempts
  pub history : (n : ℕ) → tried db i n ≡ (leb 1 n && leb n (j.attempts - 1))
  pub capped : j.attempts ≤ j.max_attempts
  pub room : is_pending j.status ≡ true → j.attempts < j.max_attempts
  pub token : is_some j.claim_token ≡ false
  pub lease : is_some j.lease_expires_at ≡ false

pub Owed-untried : {j : Job} {db : Db} {i : ℕ} → Owed j db i → tried db i j.attempts ≡ false
Owed-untried {j} o = ground (arith, o.history j.attempts)

pub Records-SameRows :
    {x no : ℕ} {sent dead : Bool} {db db' : Db}
    → Records x no sent dead db db'
    → (i : ℕ) → x ≢ i
    → SameRows db db' i
Records-SameRows r i h = record {
  same_delivered = ground (arith, r.delivered_at i);
  same_lettered = ground (arith, r.lettered_at i);
  same_tries = ground (arith, r.tries_at i);
  same_events = ground (arith, r.events_at i);
  same_tried = λ n. ground (arith, r.tried_at i n);
}

pub Records-JobOk :
    {x : ℕ} {sent dead : Bool} {db db' : Db} (j : Job)
    → is_sent j.status ≡ sent
    → is_dead j.status ≡ dead
    → Records x j.attempts sent dead db db'
    → Owed j db x
    → JobOk j db' x
Records-JobOk {x} j s d r o = record {
  ledger = ground (arith, r.delivered_at x);
  letter = ground (arith, r.lettered_at x);
  counted = ground (arith, r.tries_at x);
  announced = ground (arith, r.events_at x);
  history = λ n. ground (arith, r.tried_at x n, o.history n);
  capped = o.capped;
  room = o.room;
  running = λ h. ground arith;
  token = ground arith;
  lease = ground arith;
}
