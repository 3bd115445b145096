-- ===== src/Condition.antt =====
-- include/boost/task/spin/condition.hpp and src/spin/condition.cpp: a condition whose waiters spin on a command
-- word. A waiter is counted and sleeps; a notifier locks `enter_mtx_` and sets the word; the waiter that
-- takes the command unlocks `enter_mtx_`. A step is what one thread does between two accesses that
-- others may see: the block under `check_mtx_` is one, since only its holder resets the word.
pub mod Inv
pub mod Safety
pub mod Lost
pub mod Predicate
pub mod Unlocked
mod Tests
use boost_task.Prelude.{
  ℕ, zero, suc, ◌+◌, ◌-◌, ◌≡◌, Bool, true, false, not, Option, none, some, List, [], ◌∷◌, ◌++◌,
  ◌==◌, if◌then◌else◌, length,
}
use boost_task.Prelude.Picks.{pick}

pub data Command : Type 0 where
  sleeping : Command
  notify_one : Command
  notify_all : Command

-- `asleep` are the threads in the loop of `wait`, each with whether it has a time limit; `leaving` those
-- past it with `unlock_enter_mtx` set and the unlock to come; `spinning` the notifiers that hold
-- `enter_mtx_` and have not set the word yet, with their commands.
pub record Condition : Type 0 where
  pub cmd : Command
  pub waiters : ℕ
  pub enter_locked : Bool
  pub asleep : List Bool
  pub leaving : List Bool
  pub spinning : List Command

unfoldable pub construct : Condition
construct = record {
  cmd = sleeping;
  waiters = 0;
  enter_locked = false;
  asleep = [];
  leaving = [];
  spinning = [];
}

-- The first block of `wait`: it waits for `enter_mtx_`.
unfoldable pub enter : Condition → Bool → Condition
enter c timed =
    if c.enter_locked then c else record c { waiters = c.waiters + 1; asleep = timed ∷ c.asleep }

-- `compare_exchange_strong( expected, cmd)` of `notify_`, with SLEEPING expected.
unfoldable pub set_command : Condition → Command → Command → Condition
set_command c command sleeping = record c { cmd = command }
set_command c command notify_one = record c { spinning = command ∷ c.spinning }
set_command c command notify_all = record c { spinning = command ∷ c.spinning }

-- `notify_`, up to the first exchange.
unfoldable pub notify : Condition → Command → Condition
unfolding set_command
notify c command =
    if c.enter_locked
    then c
    else if c.waiters == 0
    then c
    else set_command (record c { enter_locked = true }) command c.cmd

retry_picked : Condition → Option (Command × List Command) → Condition
unfolding set_command
retry_picked c none = c
retry_picked c (some (command, rest)) = set_command (record c { spinning = rest }) command c.cmd

-- Another round of the loop of `notify_`.
unfoldable pub retry : Condition → ℕ → Condition
unfolding retry_picked
retry c i = retry_picked c (pick c.spinning i)

-- What a waiter does under `check_mtx_`, by the command it meets; `rest` are the others. Each of them is
-- counted, so the count is not 0 here.
unfoldable pub wake_by : Condition → Command → Bool → List Bool → Condition
wake_by c sleeping timed rest = c
wake_by c notify_one timed rest = record c {
  cmd = sleeping;
  waiters = c.waiters - 1;
  asleep = rest;
  leaving = timed ∷ c.leaving;
}
wake_by c notify_all timed rest =
    if c.waiters == 1
    then record c {
      cmd = sleeping;
      waiters = c.waiters - 1;
      asleep = rest;
      leaving = timed ∷ c.leaving;
    }
    else record c { waiters = c.waiters - 1; asleep = rest }

pub wake_picked : Condition → Option (Bool × List Bool) → Condition
unfolding wake_by
wake_picked c none = c
wake_picked c (some (timed, rest)) = wake_by c c.cmd timed rest

unfoldable pub wake : Condition → ℕ → Condition
unfolding wake_picked
wake c i = wake_picked c (pick c.asleep i)

-- The time limit of a `timed_wait`, with `enter_mtx_.try_lock()`, where the word is SLEEPING.
unfoldable pub time_out_by : Condition → Command → Bool → List Bool → Condition
time_out_by c sleeping timed rest =
    if not timed then c else if c.enter_locked then c else record c {
      enter_locked = true;
      waiters = c.waiters - 1;
      asleep = rest;
      leaving = timed ∷ c.leaving;
    }
time_out_by c notify_one timed rest = c
time_out_by c notify_all timed rest = c

pub time_out_picked : Condition → Option (Bool × List Bool) → Condition
unfolding time_out_by
time_out_picked c none = c
time_out_picked c (some (timed, rest)) = time_out_by c c.cmd timed rest

unfoldable pub time_out : Condition → ℕ → Condition
unfolding time_out_picked
time_out c i = time_out_picked c (pick c.asleep i)

-- `this_thread::interruption_point()` throws out of the loop.
interrupt_picked : Condition → Option (Bool × List Bool) → Condition
interrupt_picked c none = c
interrupt_picked c (some (timed, rest)) = record c { asleep = rest }

unfoldable pub interrupt : Condition → ℕ → Condition
unfolding interrupt_picked
interrupt c i = interrupt_picked c (pick c.asleep i)

pub unlock_picked : Condition → Option (Bool × List Bool) → Condition
unlock_picked c none = c
unlock_picked c (some (timed, rest)) = record c { enter_locked = false; leaving = rest }

-- `if ( unlock_enter_mtx) enter_mtx_.unlock()`
unfoldable pub unlock : Condition → ℕ → Condition
unfolding unlock_picked
unlock c i = unlock_picked c (pick c.leaving i)

pub data Event : Type 0 where
  enters : Bool → Event
  notifies : Bool → Event
  retries : ℕ → Event
  wakes : ℕ → Event
  expires : ℕ → Event
  unlocks : ℕ → Event
  interrupts : ℕ → Event

-- `notify_all` with `true`, `notify_one` with `false`.
unfoldable pub step : Condition → Event → Condition
unfolding enter notify retry wake time_out unlock interrupt
step c (enters timed) = enter c timed
step c (notifies all) = notify c (if all then notify_all else notify_one)
step c (retries i) = retry c i
step c (wakes i) = wake c i
step c (expires i) = time_out c i
step c (unlocks i) = unlock c i
step c (interrupts i) = interrupt c i

unfoldable pub run : Condition → List Event → Condition
unfolding step
run c [] = c
run c (e ∷ es) = run (step c e) es
