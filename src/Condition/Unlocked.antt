-- ===== src/Condition/Unlocked.antt =====
-- The waits of include/boost/task/spin/condition.hpp that are given a `unique_lock`: they hand on its mutex, which the
-- wait unlocks and locks again, while the `unique_lock` owns it all the time. An interruption leaves the
-- wait without the lock, and the block with it, so the `unique_lock` is destroyed.
use boost_task.Prelude.{
  ℕ, ◌≡◌, ◌≢◌, ap, ap₂, ◌∙◌, Bool, true, false, not, ◌&&◌, List, [], ◌∷◌, ◌==◌, if◌then◌else◌,
  arith,
}
use boost_task.Mutex.{try_lock, unlock, put_inside}
use boost_task.Mutex.Exclusion.{put_inside-here}

-- `destroy owns word` is what the destructor of a `unique_lock` makes of the mutex's word.
pub record UniqueLock : Type 0 where
  pub destroy : Bool → Bool → Bool
  pub destroy_owning : (word : Bool) → destroy true word ≡ unlock word
  pub destroy_other : (word : Bool) → destroy false word ≡ word

-- `inside` are the threads that have locked the mutex, `owning` those whose `unique_lock` owns it.
pub record Guarded : Type 0 where
  pub locked : Bool
  pub inside : ℕ → Bool
  pub owning : ℕ → Bool

pub data Event : Type 0 where
  locks : ℕ → Event
  waits : ℕ → Event
  relocks : ℕ → Event
  interrupts : ℕ → Event

-- The mutex while the thread `i` has it, alone.
abbrev pub alone : ℕ → Guarded
alone i = record { locked = true; inside = λ x. x == i; owning = λ x. x == i }

module _ (ul : UniqueLock) where
  -- The `unique_lock` takes the mutex, one exchange.
  unfoldable pub lock_step : Guarded → ℕ → Bool × Bool → Guarded
  unfolding put_inside
  lock_step s i (got, locked') = record {
    locked = locked';
    inside = put_inside s.inside i got;
    owning = put_inside s.owning i got;
  }

  -- `lt.lock()` at the end of the wait.
  unfoldable pub relock_step : Guarded → ℕ → Bool × Bool → Guarded
  unfolding put_inside
  relock_step s i (got, locked') = record s { locked = locked'; inside = put_inside s.inside i got }

  unfoldable pub step : Guarded → Event → Guarded
  unfolding lock_step relock_step try_lock unlock put_inside
  step s (locks i) = if s.owning i then s else lock_step s i (try_lock s.locked)
  step s (waits i) =
      if s.inside i
      then record s { locked = unlock s.locked; inside = put_inside s.inside i false }
      else s
  step s (relocks i) =
      if s.owning i && not (s.inside i) then relock_step s i (try_lock s.locked) else s
  step s (interrupts i) =
      if s.owning i && not (s.inside i)
      then record s {
        locked = ul.destroy (s.owning i) s.locked;
        owning = put_inside s.owning i false;
      }
      else s

  unfoldable pub run : Guarded → List Event → Guarded
  unfolding step
  run s [] = s
  run s (e ∷ es) = run (step s e) es

  -- The states of that run.
  abbrev waiting : ℕ → Guarded
  waiting i = record (alone i) { locked = false; inside = put_inside (λ x. x == i) i false }

  abbrev taken : ℕ → ℕ → Guarded
  taken i j = record {
    locked = true;
    inside = put_inside (waiting i).inside j true;
    owning = put_inside (waiting i).owning j true;
  }

  abbrev unlocked : ℕ → ℕ → Guarded
  unlocked i j = record (taken i j) {
    locked = false;
    owning = put_inside (taken i j).owning i false;
  }

  abbrev both : ℕ → ℕ → ℕ → Guarded
  both i j k = record {
    locked = true;
    inside = put_inside (taken i j).inside k true;
    owning = put_inside (unlocked i j).owning k true;
  }

  step-waits : (i : ℕ) → step (alone i) (waits i) ≡ waiting i
  unfolding step unlock
  step-waits i =
      let here : (i == i) ≡ true = ground arith in
      ap (λ (b : Bool). if b then waiting i else alone i) here

  step-locks : (i j : ℕ) → j ≢ i → step (waiting i) (locks j) ≡ taken i j
  unfolding step lock_step try_lock
  step-locks i j ji =
      let other : (j == i) ≡ false = ground arith in
      ap (λ (b : Bool). if b then waiting i else taken i j) other

  step-interrupts : (i j : ℕ) → j ≢ i → step (taken i j) (interrupts i) ≡ unlocked i j
  unfolding step unlock put_inside
  step-interrupts i j ji =
      let s = taken i j in
      let here : (i == i) ≡ true = ground arith in
      let other : (j == i) ≡ false = ground arith in
      let owns : s.owning i ≡ true = ap (λ (b : Bool). if b then true else (i == i)) other ∙ here in
      let outside : s.inside i ≡ false =
        ap (λ (b : Bool). if b then true else (waiting i).inside i) other
        ∙ ap (λ (b : Bool). if b then false else (i == i)) here in
      let end = λ (word : Bool). record s { locked = word; owning = put_inside s.owning i false } in
      ap₂ (λ (a b : Bool). if a && not b then end (ul.destroy a true) else s) owns outside
      ∙ ap end (ul.destroy_owning true)

  step-last : (i j k : ℕ) → k ≢ i → k ≢ j → step (unlocked i j) (locks k) ≡ both i j k
  unfolding step lock_step try_lock put_inside
  step-last i j k ki kj =
      let s = unlocked i j in
      let e1 : (i == k) ≡ false = ground arith in
      let e2 : (j == k) ≡ false = ground arith in
      let e3 : (k == i) ≡ false = ground arith in
      let free : s.owning k ≡ false =
        ap (λ (b : Bool). if b then false else (taken i j).owning k) e1
        ∙ ap (λ (b : Bool). if b then true else (k == i)) e2
        ∙ e3 in
      ap (λ (b : Bool). if b then s else both i j k) free

  -- A thread that has the mutex by a unique_lock waits, a second thread takes the mutex, the first is interrupted in
  -- its wait, and a third takes the mutex: then the second and the third are inside at once.
  pub interrupted_wait_unlocks :
      (i j k : ℕ)
      → j ≢ i
      → k ≢ i
      → k ≢ j
      → let s : Guarded = run (alone i) (waits i ∷ locks j ∷ interrupts i ∷ locks k ∷ []) in
        (s.inside j ≡ true) × (s.inside k ≡ true)
  unfolding run put_inside
  interrupted_wait_unlocks i j k ji ki kj =
      let e =
        ap (λ s. run s (locks j ∷ interrupts i ∷ locks k ∷ [])) (step-waits i)
        ∙ ap (λ s. run s (interrupts i ∷ locks k ∷ [])) (step-locks i j ji)
        ∙ ap (λ s. run s (locks k ∷ [])) (step-interrupts i j ji)
        ∙ step-last i j k ki kj in
      let other : (k == j) ≡ false = ground arith in
      (
        ap (λ (s : Guarded). s.inside j) e
            ∙ ap (λ (b : Bool). if b then true else (taken i j).inside j) other
            ∙ put_inside-here (waiting i).inside j true,
        ap (λ (s : Guarded). s.inside k) e ∙ put_inside-here (taken i j).inside k true,
      )
