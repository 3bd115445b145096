-- ===== src/Condition/Tests.antt =====
-- Runs of the spin condition.
use boost_task.Prelude.{
  ℕ, ◌≡◌, refl, Bool, leb, arith, if◌then◌else◌, true, false, List, [], ◌∷◌, length,
}
use boost_task.Condition.{
  Condition, sleeping, construct, Event, enters, notifies, wakes, expires, unlocks, run,
}
use boost_task.Condition.Inv.{Phase, InPhase}
use boost_task.Condition.Safety.{IsCalm, command_has_taker}
use boost_task.Condition.Predicate.{returns, timed_wait_owned}
use boost_task.Mutex.{unlock}
use boost_task.Condition.Unlocked
use boost_task.Condition.Unlocked.{UniqueLock, Guarded, alone, interrupted_wait_unlocks}
use boost_task.Condition.Lost.{interrupted_wait, interrupted_waiter_blocks}

-- Two waiters, both woken by notify_all.
abbrev script : List Event
script =
    enters false
    ∷ enters true
    ∷ expires 0
    ∷ unlocks 0
    ∷ enters false
    ∷ notifies true
    ∷ wakes 0
    ∷ wakes 0
    ∷ unlocks 0
    ∷ []

run-script :
    let c : Condition = run construct script in
    (c.asleep ≡ []) × (c.waiters ≡ 0) × (c.enter_locked ≡ false) × (c.cmd ≡ sleeping)
unfolding run construct
run-script = (refl, refl, refl, refl)

command_has_taker_example :
    let c : Condition = run construct script in
    (c.waiters ≡ length c.asleep) × (c.spinning ≡ []) × (p : Phase) × InPhase c p
unfolding IsCalm
command_has_taker_example = command_has_taker script tt

interrupted_waiter_blocks_example :
    let c : Condition = run construct (interrupted_wait false true) in
    (c.enter_locked ≡ true)
    × (c.waiters ≡ 1)
    × (c.asleep ≡ [])
    × (c.leaving ≡ [])
    × (run c (enters true ∷ notifies false ∷ wakes 0 ∷ []) ≡ c)
interrupted_waiter_blocks_example =
    interrupted_waiter_blocks false true (enters true ∷ notifies false ∷ wakes 0 ∷ [])

-- The world is a number; the second wait runs out of time, and by then the number has come to 3.
abbrev moves : List (Bool × ℕ)
moves = (true, 1) ∷ (false, 3) ∷ (true, 4) ∷ []

timed_wait_owned-moves : timed_wait_owned (leb 3) false true 0 moves ≡ returns true 3
unfolding timed_wait_owned
timed_wait_owned-moves = refl

-- The destructor as its documentation has it.
abbrev unique_lock : UniqueLock
unfolding unlock
unique_lock = record {
  destroy = λ owns word. if owns then false else word;
  destroy_owning = λ word. refl;
  destroy_other = λ word. refl;
}

interrupted_wait_unlocks_example :
    let s : Guarded =
      Unlocked.run unique_lock
        (alone 1)
        (Unlocked.waits 1 ∷ Unlocked.locks 2 ∷ Unlocked.interrupts 1 ∷ Unlocked.locks 3 ∷ []) in
    (s.inside 2 ≡ true) × (s.inside 3 ≡ true)
interrupted_wait_unlocks_example =
    interrupted_wait_unlocks unique_lock 1 2 3 (λ e. omega (arith, e)) (λ e. omega (arith, e))
      (λ e. omega (arith, e))
