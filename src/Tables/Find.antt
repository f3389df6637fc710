-- ===== src/Tables/Find.antt =====
-- Facts on the rows of the jobs table: reading by primary key after an UPDATE or an INSERT.
use notify_queue.Prelude.{
  ℕ, ◌≡◌, refl, Bool, true, false, ◌||◌, Option, none, some, List, [], ◌∷◌, ◌++◌, arith, ◌==◌,
  if◌then◌else◌, first, select, update_where, elem, Distinct, Bool-cases, inl, inr,
}
use notify_queue.Domain.{Job}
use notify_queue.Tables.{find, ids}

-- The row at a key, if it passes a test.
abbrev pub if_hit : (Job → Bool) → Option Job → Option Job
if_hit p none = none
if_hit p (some j) = if p j then some j else none

abbrev pub to_list : Option Job → List Job
to_list none = []
to_list (some j) = j ∷ []

abbrev pub change : (Job → Bool) → (Job → Job) → Option Job → Option Job
change p f none = none
change p f (some j) = some (if p j then f j else j)

pub find-id : (i : ℕ) (js : List Job) {j : Job} → find i js ≡ some j → j.id ≡ i
find-id i [] h = cc
find-id i (k ∷ js) {j} h = ground (arith, find-id i js {j = j})

pub elem-find : (i : ℕ) (js : List Job) → elem i (ids js) ≡ false → find i js ≡ none
unfolding elem
elem-find i [] h = refl
elem-find i (k ∷ js) h = ground (arith, elem-find i js)

pub find-elem : (i : ℕ) (js : List Job) → find i js ≡ none → elem i (ids js) ≡ false
unfolding elem
find-elem i [] h = refl
find-elem i (k ∷ js) h = ground (arith, find-elem i js)

pub find-append :
    (i : ℕ) (js : List Job) (j : Job)
    → find i (js ++ j ∷ [])
      ≡ elim (find i js) [ some k ↦ some k | none ↦ if j.id == i then some j else none ]
find-append i [] j = refl
find-append i (k ∷ js) j = ground (arith, find-append i js j)

pub elem-append : (i : ℕ) (xs : List ℕ) (x : ℕ) → elem i (xs ++ x ∷ []) ≡ (elem i xs || (x == i))
unfolding elem
elem-append i [] x = ground arith
elem-append i (y ∷ xs) x = ground (arith, elem-append i xs x)

pub Distinct-append :
    (xs : List ℕ) (x : ℕ) → elem x xs ≡ false → Distinct xs → Distinct (xs ++ x ∷ [])
unfolding elem
Distinct-append [] x h d = (refl, tt)
Distinct-append (y ∷ xs) x h d =
    (ground (arith, elem-append y xs x), Distinct-append xs x (ground arith) d.1)

module _ (p : Job → Bool) (f : Job → Job) (same : (j : Job) → (f j).id ≡ j.id) where
  pub find-update : (i : ℕ) (js : List Job) → find i (update_where p f js) ≡ change p f (find i js)
  unfolding update_where
  find-update i [] = refl
  find-update i (j ∷ js) = ground (arith, find-update i js, same j)

  pub ids-update : (js : List Job) → ids (update_where p f js) ≡ ids js
  unfolding update_where
  ids-update [] = refl
  ids-update (j ∷ js) = ground (arith, ids-update js, same j)

-- No row is hit: nothing changes.
pub update_where-none :
    (p : Job → Bool) (f : Job → Job) (js : List Job) → select p js ≡ [] → update_where p f js ≡ js
unfolding update_where select
update_where-none p f [] h = refl
update_where-none p f (j ∷ js) h = elim (Bool-cases (p j)) [
  | inl e ↦ ground arith
  | inr e ↦ ground (arith, update_where-none p f js)
]

select-none :
    (p : Job → Bool) (x : ℕ)
    → ((j : Job) → p j ≡ true → j.id ≡ x)
    → (js : List Job) → find x js ≡ none
    → select p js ≡ []
unfolding select
select-none p x key [] h = refl
select-none p x key (j ∷ js) h = ground (arith, key j, select-none p x key js)

-- A test that fixes the primary key hits the row with that key and no other.
pub select-key :
    (p : Job → Bool) (x : ℕ)
    → ((j : Job) → p j ≡ true → j.id ≡ x)
    → (js : List Job) → Distinct (ids js)
    → select p js ≡ to_list (if_hit p (find x js))
unfolding select
select-key p x key [] d = refl
select-key p x key (j ∷ js) d =
    ground (arith, key j, select-key p x key js d.1, select-none p x key js, elem-find j.id js)

pub if_hit-eq-some :
    (p : Job → Bool) (o : Option Job) {j : Job} → if_hit p o ≡ some j → (o ≡ some j) × (p j ≡ true)
if_hit-eq-some p none h = cc
if_hit-eq-some p (some k) {j} h = ground arith

-- `get_job` reads by the primary key.
pub first-select-find : (i : ℕ) (js : List Job) → first (select (λ j. j.id == i) js) ≡ find i js
unfolding select
first-select-find i [] = refl
first-select-find i (j ∷ js) = elim (Bool-cases (j.id == i)) [
  | inl y ↦ rw y refl
  | inr z ↦ rw z (first-select-find i js)
]
