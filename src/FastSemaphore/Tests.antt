-- ===== src/FastSemaphore/Tests.antt =====
-- The theorems on `fast_semaphore` at concrete inputs, over a kernel whose semaphore is a number.
use boost_task.Prelude.{◌+◌, ◌≤◌, ◌≡◌, refl, Bool, true, List, [], ◌∷◌, some, arith}
use boost_task.Prelude.Int.{ℤ, pos, pos_part, neg_part}
use boost_task.Semaphore
use boost_task.Semaphore.{Call, returns, asleep, invalid_argument}
use boost_task.Semaphore.Counting.{counting}
use boost_task.FastSemaphore.{Fast, construct}
use boost_task.FastSemaphore.Race.{
  Shared, Event, lower, decide, resume, exchange, raise, hand, switch_off, load, raise_loaded, new,
  run, total,
}
use boost_task.FastSemaphore.Race.Safety.{nobody_overslept, waits_account}

abbrev fast : ℤ → Bool → Fast counting
fast n active = record { spin_count = 3; sem_count = n; sem_active = active; sem = 0 }

abbrev two : Fast counting
two = record { spin_count = 0; sem_count = pos 2; sem_active = true; sem = 2 }

construct-two : construct counting (pos 2) 0 ≡ some two
unfolding construct Semaphore.construct
construct-two = refl

-- A semaphore of count 2 and seven waits, of which five go below 0 and two to the kernel's own count; a post
-- of 1 that has not reached the kernel; and a deactivate.
abbrev crowd : List Event
crowd =
    lower
    ∷ lower
    ∷ lower
    ∷ lower
    ∷ lower
    ∷ lower
    ∷ lower
    ∷ decide
    ∷ decide
    ∷ decide
    ∷ decide
    ∷ resume
    ∷ resume
    ∷ resume
    ∷ raise 1
    ∷ switch_off
    ∷ load
    ∷ raise_loaded 0
    ∷ hand 0
    ∷ resume
    ∷ exchange (pos 1)
    ∷ []

crowd_run :
    let s : Shared counting = run counting (new counting two) crowd in
    (s.inside ≡ 1)
    × (s.returned ≡ 6)
    × (s.fsem.sem_count ≡ pos 0)
    × (total s.posting ≡ 1)
    × (s.fsem.sem ≡ 3)
unfolding run Semaphore.wait Semaphore.post
crowd_run = (refl, refl, refl, refl, refl)

nobody_overslept_example :
    let s : Shared counting = run counting (new counting two) crowd in
    (s.inside + s.deciding ≤ neg_part s.fsem.sem_count + total s.posting + s.fsem.sem)
    × (s.stopped ≡ true → s.inside ≤ total s.posting + s.fsem.sem)
nobody_overslept_example = nobody_overslept counting 2 0 crowd (omega arith) construct-two

waits_account_example :
    let s : Shared counting = run counting (new counting two) crowd in
    s.returned + pos_part s.fsem.sem_count + total s.posting + s.fsem.sem
    ≡ s.posted + 2 + 2 + s.early + s.at_zero
waits_account_example = waits_account counting 2 0 crowd (omega arith) construct-two
