-- ===== src/RateLimiter/Window.antt =====
-- The sliding window: how many slots may be taken in any period of its length.
use notify_queue.Prelude.{
  ℕ, ◌≤◌, ◌<◌, ◌≡◌, refl, sym, ◌∙◌, ap, Bool, true, false, ◌||◌, not, ◌&&◌, List, [], ◌∷◌, ◌++◌,
  arith, length, leb, leb→le, ltb, ◌==◌, if◌then◌else◌, select, exists_where, count_where,
  count_where-append, Bool-cases, inl, inr,
}
use notify_queue.RateLimiter.{Slot, is_live, acquire_script, release}
use notify_queue.RateLimiter.Calls.{
  Request, slot_of, Call, acquires, releases, is_returned, is_admitted, charges, charged,
  refuses_early, IsForward, within,
}

-- The room that the script leaves for the call of a job that holds no slot.
abbrev takes : (window limit : ℕ) → Request → List Slot → Bool
takes window limit r slots =
    let live = select (is_live r.now window) slots in
    not (exists_where (λ s. s.job_id == r.job_id) live) && ltb (length live) limit

length-select : (p : Slot → Bool) (ss : List Slot) → length (select p ss) ≡ count_where p ss
unfolding select count_where
length-select p [] = refl
length-select p (s ∷ ss) = ground (arith, length-select p ss)

-- What is live later is live now.
select-later :
    (now later window : ℕ)
    → now ≤ later
    → (ss : List Slot)
    → select (is_live later window) (select (is_live now window) ss)
      ≡ select (is_live later window) ss
unfolding select
select-later now later window le [] = refl
select-later now later window le (s ∷ ss) = ground (arith, select-later now later window le ss)

select-append :
    (p : Slot → Bool) (ss : List Slot) (s : Slot)
    → p s ≡ true
    → select p (ss ++ s ∷ []) ≡ select p ss ++ s ∷ []
unfolding select
select-append p [] s h = ground arith
select-append p (x ∷ ss) s h = ground (arith, select-append p ss s)

within-live :
    (now t window : ℕ)
    → now ≤ t
    → (ss : List Slot) → count_where (within t window) ss ≤ count_where (is_live now window) ss
unfolding count_where
within-live now t window le [] = omega arith
within-live now t window le (s ∷ ss) = ground (arith, within-live now t window le ss)

-- What a hand-back leaves is live as before.
select-returned :
    (last window job : ℕ) (ss : List Slot)
    → select (λ s. not (s.job_id == job)) (select (is_live last window) ss)
      ≡ select (is_live last window) (select (λ s. not (is_returned last window job s)) ss)
unfolding select
select-returned last window job [] = refl
select-returned last window job (s ∷ ss) = ground (arith, select-returned last window job ss)

count_where-select-le :
    (p q : Slot → Bool) (ss : List Slot) → count_where p (select q ss) ≤ count_where p ss
unfolding count_where select
count_where-select-le p q [] = omega arith
count_where-select-le p q (s ∷ ss) = ground (arith, count_where-select-le p q ss)

module _ (window limit : ℕ) (some_window : 1 ≤ window) where
  -- No window holds more than `limit` of the slots.
  Bounded : List Slot → Type 0
  Bounded ss = (t : ℕ) → count_where (within t window) ss ≤ limit

  one-more :
      (now job : ℕ) (ss : List Slot)
      → Bounded ss
      → length (select (is_live now window) ss) < limit
      → Bounded (ss ++ (record { job_id = job; taken = now }) ∷ [])
  unfolding Bounded count_where
  one-more now job ss b room t = elim (Bool-cases (leb now t)) [
    | inl y ↦ ground (
      arith,
      count_where-append (within t window) ss ((record { job_id = job; taken = now }) ∷ []),
      within-live now t window (leb→le now t y) ss,
      length-select (is_live now window) ss,
      b t,
    )
    | inr z ↦ ground (
      arith,
      count_where-append (within t window) ss ((record { job_id = job; taken = now }) ∷ []),
      b t,
    )
  ]

  -- A call removes what is out of the window, and adds its slot if it takes one.
  after_call :
      (r : Request) (slots : List Slot)
      → (acquire_script r.now window limit r.job_id slots).1 ≡ (
          if takes window limit r slots
          then select (is_live r.now window) slots ++ slot_of r ∷ []
          else select (is_live r.now window) slots)
  unfolding acquire_script
  after_call r slots = ground arith

  -- The slots are those of the past that are live, before a call and after it.
  live_after :
      (r : Request) (last : ℕ) (past slots : List Slot)
      → last ≤ r.now
      → slots ≡ select (is_live last window) past
      → select (is_live r.now window) slots ≡ select (is_live r.now window) past
  live_after r last past slots le same =
      ap (select (is_live r.now window)) same ∙ select-later last r.now window le past

  slots_after :
      (r : Request) (last : ℕ) (past slots : List Slot)
      → last ≤ r.now
      → slots ≡ select (is_live last window) past
      → (acquire_script r.now window limit r.job_id slots).1
        ≡ select
            (is_live r.now window)
            (if takes window limit r slots then past ++ slot_of r ∷ [] else past)
  slots_after r last past slots le same = elim (Bool-cases (takes window limit r slots)) [
    | inl y ↦
        let live = live_after r last past slots le same in
        let more = select-append (is_live r.now window) past (slot_of r) (ground arith) in
        after_call r slots ∙ rw y (ap (λ l. l ++ slot_of r ∷ []) live ∙ sym more)
    | inr z ↦ after_call r slots ∙ rw z (live_after r last past slots le same)
  ]

  past_after :
      (r : Request) (last : ℕ) (past slots : List Slot)
      → last ≤ r.now
      → slots ≡ select (is_live last window) past
      → Bounded past
      → Bounded (if takes window limit r slots then past ++ slot_of r ∷ [] else past)
  past_after r last past slots le same b = elim (Bool-cases (takes window limit r slots)) [
    | inl y ↦
        let live = live_after r last past slots le same in
        let room : length (select (is_live r.now window) past) < limit =
          ground (arith, ap (λ (l : List Slot). length l) live) in
        rw y (one-more r.now r.job_id past b room)
    | inr z ↦ rw z b
  ]

  admitted_lem :
      (r : Request) (slots : List Slot)
      → is_admitted (acquire_script r.now window limit r.job_id slots).0 ≡ (
          exists_where (λ s. s.job_id == r.job_id) (select (is_live r.now window) slots)
          || ltb (length (select (is_live r.now window) slots)) limit)
  unfolding acquire_script
  admitted_lem r slots = ground arith

  charges_lem :
      (r : Request) (last : ℕ) (past slots : List Slot)
      → last ≤ r.now
      → slots ≡ select (is_live last window) past
      → charges window limit r past slots ≡ takes window limit r slots
  charges_lem r last past slots le same =
      let live = live_after r last past slots le same in
      let held = ap (exists_where (λ s. s.job_id == r.job_id)) live in
      ground (arith, held, admitted_lem r slots)

  run-Bounded :
      (cs : List Call) (last : ℕ) (past slots : List Slot)
      → IsForward last cs
      → slots ≡ select (is_live last window) past
      → Bounded past
      → Bounded (charged window limit cs last past slots)
  unfolding charged Bounded release
  run-Bounded [] last past slots fwd same b = b
  run-Bounded (acquires r ∷ cs) last past slots fwd same b =
      rw (charges_lem r last past slots fwd.0 same) (
        run-Bounded cs r.now _ _ fwd.1 (slots_after r last past slots fwd.0 same)
          (past_after r last past slots fwd.0 same b))
  run-Bounded (releases job ∷ cs) last past slots fwd same b =
      run-Bounded cs last _ _ fwd (ap (release job) same ∙ select-returned last window job past)
        (λ t. omega (
          arith,
          b t,
          count_where-select-le (within t window) (λ s. not (is_returned last window job s)) past,
        ))

  run-fair :
      (cs : List Call) (last : ℕ) (past slots : List Slot)
      → IsForward last cs
      → slots ≡ select (is_live last window) past
      → refuses_early window limit cs last past slots ≡ false
  unfolding refuses_early release
  run-fair [] last past slots fwd same = refl
  run-fair (acquires r ∷ cs) last past slots fwd same =
      let live = live_after r last past slots fwd.0 same in
      let room = ap (λ (l : List Slot). length l) live in
      let rest : refuses_early window limit cs r.now
            (if charges window limit r past slots then past ++ slot_of r ∷ [] else past)
            (acquire_script r.now window limit r.job_id slots).1
          ≡ false =
        rw (charges_lem r last past slots fwd.0 same)
          (run-fair cs r.now _ _ fwd.1 (slots_after r last past slots fwd.0 same)) in
      ground (arith, room, admitted_lem r slots, rest)
  run-fair (releases job ∷ cs) last past slots fwd same =
      run-fair cs last _ _ fwd (ap (release job) same ∙ select-returned last window job past)

  -- For a recipient without slots, a window of at least one millisecond and a clock that never runs
  -- backwards: whatever jobs call the script, and whichever hand their slots back, in any order and
  -- however often, in no period of the window's length does the script admit more than `limit` jobs
  -- that do not hand their slots back, where the admission of a job that was charged for a slot
  -- within the last window counts no second time; and no call is refused while fewer than `limit` of
  -- the slots that are charged for and not handed back by then were taken within the last window.
  pub window-bounded :
      (cs : List Call) (t : ℕ)
      → IsForward 0 cs
      → (count_where (within t window) (charged window limit cs 0 [] []) ≤ limit)
        × (refuses_early window limit cs 0 [] [] ≡ false)
  unfolding Bounded select count_where
  window-bounded cs t fwd =
      (run-Bounded cs 0 [] [] fwd refl (λ t. omega arith) t, run-fair cs 0 [] [] fwd refl)
