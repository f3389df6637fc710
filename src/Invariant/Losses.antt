-- ===== src/Invariant/Losses.antt =====
-- The loop of `reap_expired_leases` that records the lost attempts.
use notify_queue.Prelude.{
  ℕ, ◌≤◌, ◌≡◌, refl, ◌∙◌, ◌≢◌, false, some, List, [], ◌∷◌, arith, String, elem, map, Distinct,
}
use notify_queue.Domain.{Job, is_sent}
use notify_queue.Tables.{Db, Uuids, IsFresh}
use notify_queue.Tables.Tx.{ok}
use notify_queue.Jobs.Reap.{ReapedRow, after_reap_all}
use notify_queue.Selection.Order.{All}
use notify_queue.Invariant.{JobOk}
use notify_queue.Invariant.Recording.{
  SameRows, SameRows-RowOk, Owed, Owed-untried, Records-SameRows, Records-JobOk,
}
use notify_queue.Invariant.Endings.{UnusedEvents, after_reap_ok}

abbrev pub row_ids : List ReapedRow → List ℕ
row_ids = map (λ r. r.job.id)

pub SameRows-trans : {a b c : Db} {i : ℕ} → SameRows a b i → SameRows b c i → SameRows a c i
SameRows-trans s t = record {
  same_delivered = t.same_delivered ∙ s.same_delivered;
  same_lettered = t.same_lettered ∙ s.same_lettered;
  same_tries = t.same_tries ∙ s.same_tries;
  same_events = t.same_events ∙ s.same_events;
  same_tried = λ n. t.same_tried n ∙ s.same_tried n;
}

pub SameRows-Owed : {j : Job} {a b : Db} {i : ℕ} → SameRows a b i → Owed j a i → Owed j b i
SameRows-Owed s o = record {
  stopped = o.stopped;
  undelivered = s.same_delivered ∙ o.undelivered;
  unlettered = s.same_lettered ∙ o.unlettered;
  started = o.started;
  counted = omega (arith, s.same_tries, o.counted);
  announced = omega (arith, s.same_events, o.announced);
  history = λ n. s.same_tried n ∙ o.history n;
  capped = o.capped;
  room = o.room;
  token = o.token;
  lease = o.lease;
}

-- The rows whose attempts are still to be recorded.
abbrev pub OwedAll : List ReapedRow → Db → Type 0
OwedAll rows db = All (λ r. Owed r.job db r.job.id × (is_sent r.job.status ≡ false)) rows

abbrev pub OkAll : List ReapedRow → Db → Type 0
OkAll rows db = All (λ r. JobOk r.job db r.job.id) rows

OwedAll-other :
    (x : ℕ) {a b : Db}
    → ((i : ℕ) → x ≢ i → SameRows a b i)
    → (rows : List ReapedRow) → elem x (row_ids rows) ≡ false
    → OwedAll rows a
    → OwedAll rows b
unfolding elem
OwedAll-other x s [] h o = tt
OwedAll-other x s (r ∷ rows) h o = (
  (SameRows-Owed (s r.job.id (λ e. ground arith)) o.0.0, o.0.1),
  OwedAll-other x s rows (ground arith) o.1,
)

-- The loop meets every constraint, and leaves each of its jobs fitting its rows.
module _ (u : Uuids) (f : IsFresh u) (now : ℕ) (url : String) where
  pub record Loops (rows : List ReapedRow) (db db' : Db) : Type 0 where
    pub done : after_reap_all u now url rows db ≡ ok (tt, db')
    pub jobs_kept : db'.jobs ≡ db.jobs
    pub draws_grow : db.draws ≤ db'.draws
    pub unused : UnusedEvents u db'
    pub settled : OkAll rows db'
    pub others : (i : ℕ) → elem i (row_ids rows) ≡ false → SameRows db db' i

  pub after_reap_all-Loops :
      (rows : List ReapedRow) (db : Db)
      → UnusedEvents u db
      → Distinct (row_ids rows)
      → OwedAll rows db
      → (db' : Db) × Loops rows db db'
  unfolding after_reap_all elem
  after_reap_all-Loops [] db e d o = (
    db,
    record {
      done = refl;
      jobs_kept = refl;
      draws_grow = omega arith;
      unused = e;
      settled = tt;
      others = λ i _. record {
        same_delivered = refl;
        same_lettered = refl;
        same_tries = refl;
        same_events = refl;
        same_tried = λ n. refl;
      };
    },
  )
  after_reap_all-Loops (r ∷ rows) db e d o =
      let (mid, step, rec, unused) =
        after_reap_ok u f db e now url r (Owed-untried o.0.0) o.0.0.unlettered in
      let apart : (i : ℕ) → r.job.id ≢ i → SameRows db mid i = Records-SameRows rec in
      let (db', rest) =
        after_reap_all-Loops rows mid unused d.1 (OwedAll-other r.job.id apart rows d.0 o.1) in
      (
        db',
        record {
          done = rw step rest.done;
          jobs_kept = rest.jobs_kept ∙ rec.jobs_kept;
          draws_grow = omega (arith, rest.draws_grow, rec.one_draw);
          unused = rest.unused;
          settled = (
            SameRows-RowOk (some r.job) (rest.others r.job.id d.0)
                (Records-JobOk r.job o.0.1 refl rec o.0.0),
            rest.settled,
          );
          others =
              λ i h. SameRows-trans (apart i (λ q. ground arith)) (rest.others i (ground arith));
        },
      )
