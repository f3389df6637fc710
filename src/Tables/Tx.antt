-- ===== src/Tables/Tx.antt =====
-- A transaction: a function from the database to its result and the new database, or to an error,
-- which rolls it back (`async with engine.begin() as conn`).
use notify_queue.Prelude.{Bool, true, false, ◌≡◌, refl}
use notify_queue.Tables.{Db}

pub data Error : Type 0 where
  unique_violation check_violation conflict_without_row division_by_zero : Error

pub data Result {ℓ} (A : Type ℓ) : Type ℓ where
  ok : A → Result A
  raise : Error → Result A

abbrev pub Tx : Type 0 → Type 0
Tx A = Db → Result (A × Db)

-- What follows the first statement, at its outcome.
abbrev pub continue : {A B : Type 0} → Result (A × Db) → (A → Tx B) → Result (B × Db)
continue (ok (a, db)) f = f a db
continue (raise e) f = raise e

infixl 5 ◌>>=◌ ◌>>◌
abbrev pub ◌>>=◌ : {A B : Type 0} → Tx A → (A → Tx B) → Tx B
◌>>=◌ m f db = continue (m db) f

abbrev pub ◌>>◌ : {B : Type 0} → Tx (Unit {0}) → Tx B → Tx B
◌>>◌ m k db = continue (m db) (λ _. k)

abbrev pub pure : {A : Type 0} → A → Tx A
pure a db = ok (a, db)

abbrev pub read : {A : Type 0} → (Db → A) → Tx A
read f db = ok (f db, db)

abbrev pub write : (Db → Db) → Tx (Unit {0})
write f db = ok (tt, f db)

-- A constraint that the statement must meet, checked on the database it finds.
abbrev pub check : Error → (Db → Bool) → Tx (Unit {0})
check e test db = elim (test db) [ true ↦ ok (tt, db) | false ↦ raise e ]

pub >>-assoc :
    {A : Type 0} (r : Result (Unit {0} × Db)) (k : Tx (Unit {0})) (p : Tx A)
    → continue r (λ _. k >> p) ≡ continue (continue r (λ _. k)) (λ _. p)
>>-assoc (ok (a, db)) k p = refl
>>-assoc (raise e) k p = refl

pub ok-pair :
    {A : Type 0} {a b : A} {db db' : Db}
    → ◌≡◌ {A = Result (A × Db)} (ok (a, db)) (ok (b, db'))
    → (a ≡ b) × (db ≡ db')
ok-pair e = (cc, cc)
