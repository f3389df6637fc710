-- ===== src/Fleet/Paths.antt =====
-- What the database goes through in one event.
use notify_queue.Prelude.{ℕ, ◌≡◌, refl, ◌∙◌, String, false, Option}
use notify_queue.Tables.{Db, Uuids}
use notify_queue.Tables.Tx.{ok}
use notify_queue.Jobs.Finalize.{Transition, mark_sent}
use notify_queue.History.{Step, Reach, here, next}
use notify_queue.History.Quiet.{is_sending, Step-deliveries}

-- A history without `mark_sent`.
pub data Quiet (u : Uuids) (db : Db) : Db → Type 0 where
  rests : Quiet u db db
  goes_on :
      {mid db' : Db} → Quiet u db mid → (s : Step u mid db') → is_sending s ≡ false → Quiet u db db'

pub Quiet-Reach : (u : Uuids) {db db' : Db} → Quiet u db db' → Reach u db db'
Quiet-Reach u rests = here
Quiet-Reach u (goes_on q s h) = next (Quiet-Reach u q) s

pub Quiet-deliveries : (u : Uuids) {db db' : Db} → Quiet u db db' → db'.deliveries ≡ db.deliveries
Quiet-deliveries u rests = refl
Quiet-deliveries u (goes_on q s h) = Step-deliveries u s h ∙ Quiet-deliveries u q

-- A `mark_sent` of job x.
abbrev pub Sends : Uuids → ℕ → Db → Db → Type 0
Sends u x db db' =
    (now t : ℕ) × (worker_id : String) × (message : Option String) × (url : String) × (r : Option
      Transition)
    × (mark_sent u now x t worker_id message url db ≡ ok (r, db'))
