-- ===== src/Events/Release.antt =====
-- A waiter of a manual-reset event that is slow to unlock, and a later set.
use boost_task.Prelude.{ℕ, zero, suc, ◌+◌, ◌≤◌, ◌≡◌, true, false, List, [], ◌∷◌, ◌++◌}
use boost_task.Events.ManualReset.{
  Manual, construct, begin_wait, wait_add, wait_open, wait_test, leave_sub, leave_open, begin_set,
  set_exchange, set_count, begin_reset, reset_store, reset_open, Event, waits, leaves, sets, resets,
  run,
}

abbrev whole_reset : List Event
whole_reset = resets begin_reset ∷ resets reset_store ∷ resets reset_open ∷ []

-- Threads come to the loop of `wait`, one after another.
abbrev pub come_to_wait : ℕ → List Event
come_to_wait zero = []
come_to_wait (suc n) = waits begin_wait ∷ waits wait_add ∷ waits wait_open ∷ come_to_wait n

-- A thread waits on the set event, up to its last access, and the event is reset.
abbrev pub slow_waiter : List Event
slow_waiter = come_to_wait 1 ++ (waits wait_test ∷ leaves leave_sub ∷ []) ++ whole_reset

-- A whole `set`, the last access of that first thread, and a whole `reset`.
abbrev pub set_and_reset : List Event
set_and_reset =
    (sets begin_set ∷ sets set_exchange ∷ sets set_count ∷ leaves leave_open ∷ []) ++ whole_reset

-- The event reset, with `k` threads waiting and `u` about to unlock.
abbrev at_rest : ℕ → ℕ → ℕ → Manual
unfolding construct
at_rest k u found = record (construct false) {
  waiters = k;
  waiting = k;
  leave_unlocking = u;
  found = found;
}

-- The event is reset, no call of `set` is before its exchange, and at least `k` threads wait.
pub record Stranded (k : ℕ) (m : Manual) : Type 0 where
  pub reset : m.state ≡ false
  pub no_set : m.exchanging ≡ 0
  pub waiting : k ≤ m.waiting

-- No call of `set` begins.
abbrev pub NoSet : List Event → Type 0
NoSet [] = Unit {0}
NoSet (sets begin_set ∷ es) = ⊥
NoSet (e ∷ es) = NoSet es

-- What the slow waiter, `n + 1` further waiters, a set and a reset come to.
abbrev pub missed : ℕ → Manual
missed n = run (construct true) (slow_waiter ++ come_to_wait (n + 1) ++ set_and_reset)
