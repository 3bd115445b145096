-- ===== src/Events/ManualReset.antt =====
-- include/boost/task/spin/manual_reset_event.hpp and src/spin/manual_reset_event.cpp: an event that stays set until
-- it is reset. A call of `set` with waiters leaves `enter_mtx_` locked, and the last waiter unlocks it.
-- A step is one access to shared data; for each access there is the number of threads about to make it.
use boost_task.Prelude.{
  ℕ, ◌+◌, ◌-◌, Bool, true, false, not, Option, none, some, List, [], ◌∷◌, ◌==◌, if◌then◌else◌,
}
use boost_task.Mutex.{try_lock, unlock}

-- `found` is how many threads were in the loop of `wait` when a `set` last found the event reset.
pub record Manual : Type 0 where
  pub state : Bool
  pub waiters : ℕ
  pub locked : Bool
  pub wait_adding : ℕ  -- `wait`: `waiters_.fetch_add( 1)`
  pub wait_added : ℕ  -- the end of the block
  pub waiting : ℕ  -- `RESET == state_.load()`
  pub try_adding : ℕ  -- the same three of `try_wait`
  pub try_added : ℕ
  pub trying : ℕ
  pub leaving : ℕ  -- both: `waiters_.fetch_sub( 1)`
  pub leave_unlocking : ℕ  -- both: `enter_mtx_.unlock()`
  pub exchanging : ℕ  -- `set`: `state_.compare_exchange_strong( expected, SET)`
  pub counting : ℕ  -- `0 == waiters_.load()`
  pub set_unlocking : ℕ  -- `enter_mtx_.unlock()`
  pub storing : ℕ  -- `reset`: `state_.store( RESET)`
  pub reset_unlocking : ℕ  -- the end of the block
  pub found : ℕ

unfoldable pub construct : Bool → Manual
construct isset = record {
  state = if isset then true else false;
  waiters = 0;
  locked = false;
  wait_adding = 0;
  wait_added = 0;
  waiting = 0;
  try_adding = 0;
  try_added = 0;
  trying = 0;
  leaving = 0;
  leave_unlocking = 0;
  exchanging = 0;
  counting = 0;
  set_unlocking = 0;
  storing = 0;
  reset_unlocking = 0;
  found = 0;
}

-- The accesses of a thread in `wait`, in the order it makes them; `begin_wait` is an exchange of `lock`.
pub data WaitAt : Type 0 where
  begin_wait : WaitAt
  wait_add : WaitAt
  wait_open : WaitAt
  wait_test : WaitAt

-- The accesses of `try_wait` before its `fetch_sub`.
pub data TryAt : Type 0 where
  begin_try : TryAt
  try_add : TryAt
  try_open : TryAt
  try_test : TryAt

-- The end of `wait` and of `try_wait`.
pub data LeaveAt : Type 0 where
  leave_sub : LeaveAt
  leave_open : LeaveAt

pub data SetAt : Type 0 where
  begin_set : SetAt
  set_exchange : SetAt
  set_count : SetAt
  set_open : SetAt

pub data ResetAt : Type 0 where
  begin_reset : ResetAt
  reset_store : ResetAt
  reset_open : ResetAt

-- Where nobody is about to make the access nothing happens, and so where the lock is not got.
unfoldable pub wait_step : Manual → WaitAt → Manual
unfolding try_lock unlock
wait_step m begin_wait =
    let (got, locked') = try_lock m.locked in
    if got then record m { locked = locked'; wait_adding = m.wait_adding + 1 } else m
wait_step m wait_add = if m.wait_adding == 0 then m else record m {
  wait_adding = m.wait_adding - 1;
  waiters = m.waiters + 1;
  wait_added = m.wait_added + 1;
}
wait_step m wait_open = if m.wait_added == 0 then m else record m {
  wait_added = m.wait_added - 1;
  locked = unlock m.locked;
  waiting = m.waiting + 1;
}
wait_step m wait_test =
    if m.waiting == 0
    then m
    else if not m.state
    then m
    else record m { waiting = m.waiting - 1; leaving = m.leaving + 1 }

unfoldable pub try_step : Manual → TryAt → Manual
unfolding try_lock unlock
try_step m begin_try =
    let (got, locked') = try_lock m.locked in
    if got then record m { locked = locked'; try_adding = m.try_adding + 1 } else m
try_step m try_add = if m.try_adding == 0 then m else record m {
  try_adding = m.try_adding - 1;
  waiters = m.waiters + 1;
  try_added = m.try_added + 1;
}
try_step m try_open =
    if m.try_added == 0
    then m
    else record m { try_added = m.try_added - 1; locked = unlock m.locked; trying = m.trying + 1 }
try_step m try_test =
    if m.trying == 0 then m else record m { trying = m.trying - 1; leaving = m.leaving + 1 }

-- The answer of a `try_wait` at its load.
unfoldable pub try_answer : Manual → Bool
try_answer m = m.state

-- `if ( 1 == waiters_.fetch_sub( 1) ) enter_mtx_.unlock()`
unfoldable pub leave_step : Manual → LeaveAt → Manual
unfolding unlock
leave_step m leave_sub = if m.leaving == 0 then m else record m {
  leaving = m.leaving - 1;
  waiters = m.waiters - 1;
  leave_unlocking = if m.waiters == 1 then m.leave_unlocking + 1 else m.leave_unlocking;
}
leave_step m leave_open =
    if m.leave_unlocking == 0
    then m
    else record m { leave_unlocking = m.leave_unlocking - 1; locked = unlock m.locked }

-- `set` returns with the mutex locked where the exchange succeeds and somebody is counted.
unfoldable pub set_step : Manual → SetAt → Manual
unfolding try_lock unlock
set_step m begin_set =
    let (got, locked') = try_lock m.locked in
    if got then record m { locked = locked'; exchanging = m.exchanging + 1 } else m
set_step m set_exchange =
    if m.exchanging == 0
    then m
    else if m.state
    then record m { exchanging = m.exchanging - 1; set_unlocking = m.set_unlocking + 1 }
    else record m {
      exchanging = m.exchanging - 1;
      state = true;
      counting = m.counting + 1;
      found = m.waiting;
    }
set_step m set_count = if m.counting == 0 then m else record m {
  counting = m.counting - 1;
  set_unlocking = if m.waiters == 0 then m.set_unlocking + 1 else m.set_unlocking;
}
set_step m set_open =
    if m.set_unlocking == 0
    then m
    else record m { set_unlocking = m.set_unlocking - 1; locked = unlock m.locked }

unfoldable pub reset_step : Manual → ResetAt → Manual
unfolding try_lock unlock
reset_step m begin_reset =
    let (got, locked') = try_lock m.locked in
    if got then record m { locked = locked'; storing = m.storing + 1 } else m
reset_step m reset_store = if m.storing == 0 then m else record m {
  storing = m.storing - 1;
  state = false;
  reset_unlocking = m.reset_unlocking + 1;
}
reset_step m reset_open =
    if m.reset_unlocking == 0
    then m
    else record m { reset_unlocking = m.reset_unlocking - 1; locked = unlock m.locked }

-- The rounds of `timed_wait`, which is not counted: the word that each meets, and whether the time is up
-- after it.
unfoldable pub timed_rounds : List (Bool × Bool) → Option Bool
timed_rounds [] = none
timed_rounds ((state, late) ∷ later) =
    let rest = timed_rounds later in
    if not state then (if late then some false else rest) else some true

unfoldable pub timed_wait : Bool → List (Bool × Bool) → Option Bool
unfolding timed_rounds
timed_wait late later = if late then some false else timed_rounds later

pub data Event : Type 0 where
  waits : WaitAt → Event
  tries : TryAt → Event
  leaves : LeaveAt → Event
  sets : SetAt → Event
  resets : ResetAt → Event

unfoldable pub step : Manual → Event → Manual
unfolding wait_step try_step leave_step set_step reset_step
step m (waits at) = wait_step m at
step m (tries at) = try_step m at
step m (leaves at) = leave_step m at
step m (sets at) = set_step m at
step m (resets at) = reset_step m at

unfoldable pub run : Manual → List Event → Manual
unfolding step
run m [] = m
run m (e ∷ es) = run (step m e) es
