-- ===== src/Events/AutoReset.antt =====
-- include/boost/task/spin/auto_reset_event.hpp and src/spin/auto_reset_event.cpp: an event on one atomic word. The
-- state is whether the word is SET.
use boost_task.Prelude.{ℕ, ◌+◌, Bool, true, false, Option, none, some, List, [], ◌∷◌, if◌then◌else◌}

unfoldable pub construct : Bool → Bool
construct isset = if isset then true else false

unfoldable pub set : Bool → Bool
set state = true

-- `compare_exchange_strong( expected, RESET)` with SET expected: its answer and the word after it.
unfoldable pub try_wait : Bool → Bool × Bool
try_wait state = if state then (true, false) else (false, state)

-- `wait`, by the words that its rounds meet: the word it leaves, or `none` while it waits.
unfoldable pub wait : List Bool → Option Bool
unfolding try_wait
wait [] = none
wait (state ∷ later) =
    let rest = wait later in let (got, state') = try_wait state in if got then some state' else rest

-- The rounds of `timed_wait`: the word that each meets, and whether the time is up after it.
unfoldable pub timed_rounds : List (Bool × Bool) → Option (Bool × Bool)
unfolding try_wait
timed_rounds [] = none
timed_rounds ((state, late) ∷ later) =
    let rest = timed_rounds later in
    let (got, state') = try_wait state in
    if got then some (true, state') else if late then some (false, state') else rest

unfoldable pub timed_wait : Bool → Bool → List (Bool × Bool) → Option (Bool × Bool)
unfolding timed_rounds
timed_wait late state later = if late then some (false, state) else timed_rounds later

-- Threads on one event: `sets` counts the calls of `set`, `passed` the waits that succeeded.
pub record Waiters : Type 0 where
  pub state : Bool
  pub sets : ℕ
  pub passed : ℕ

-- A call of `set`, and a round of a wait of any kind.
pub data Event : Type 0 where
  signals : Event
  tries : Event

unfoldable pub initial : Bool → Waiters
unfolding construct
initial isset = record { state = construct isset; sets = 0; passed = 0 }

unfoldable pub step : Waiters → Event → Waiters
unfolding set try_wait
step w signals = record w { state = set w.state; sets = w.sets + 1 }
step w tries =
    let (got, state') = try_wait w.state in
    record w { state = state'; passed = if got then w.passed + 1 else w.passed }

unfoldable pub run : Waiters → List Event → Waiters
unfolding step
run w [] = w
run w (e ∷ es) = run (step w e) es
