-- ===== src/Mutex/Tests.antt =====
-- Runs of the spin mutex.
use boost_task.Prelude.{ℕ, ◌≡◌, ◌⊎◌, refl, true, false, some, List, [], ◌∷◌}
use boost_task.Mutex.{Threads, Event, attempt, release, initial, step, run, lock, timed_lock}
use boost_task.Mutex.Exclusion.{ByHolder, mutual_exclusion}

abbrev script : List Event
script = attempt 1 ∷ attempt 2 ∷ release 1 ∷ attempt 2 ∷ []

run-script : ((run initial script).inside 1 ≡ false) × ((run initial script).inside 2 ≡ true)
unfolding run initial
run-script = (refl, refl)

lock-third : lock (true ∷ true ∷ false ∷ []) ≡ some true
unfolding lock
lock-third = refl

timed_lock-late :
    timed_lock false false true ((true, false) ∷ (true, true) ∷ []) ≡ some (false, true)
unfolding timed_lock
timed_lock-late = refl

mutual_exclusion_example :
    let s : Threads = run initial script in
    ((s.locked ≡ false) × ((j : ℕ) → s.inside j ≡ false))
    ⊎ ((s.locked ≡ true) × (i : ℕ) × (s.inside i ≡ true) × ((j : ℕ) → s.inside j ≡ true → j ≡ i))
unfolding ByHolder initial step
mutual_exclusion_example = mutual_exclusion script (refl, tt)
