-- ===== src/Mutex.antt =====
-- include/boost/task/spin/mutex.hpp and src/spin/mutex.cpp: a mutex on one atomic word. The state is whether
-- the word is LOCKED; each exchange is one step.
pub mod Exclusion
mod Tests
use boost_task.Prelude.{
  ℕ, Bool, true, false, not, Option, none, some, List, [], ◌∷◌, ◌==◌, ◌||◌, if◌then◌else◌,
}

unfoldable pub construct : Bool
construct = false

-- `compare_exchange_strong( expected, LOCKED)` with UNLOCKED expected: its answer and the word after it.
unfoldable pub try_lock : Bool → Bool × Bool
try_lock locked = if not locked then (true, true) else (false, locked)

unfoldable pub unlock : Bool → Bool
unlock locked = false

-- `lock`, by the words that its rounds meet: the word it leaves, or `none` while it spins.
unfoldable pub lock : List Bool → Option Bool
unfolding try_lock
lock [] = none
lock (locked ∷ later) =
    let rest = lock later in
    let (got, locked') = try_lock locked in if got then some locked' else rest

-- The rounds of `timed_lock`: the word that each meets, and whether the time is up after it.
unfoldable pub timed_loop : List (Bool × Bool) → Option (Bool × Bool)
unfolding try_lock
timed_loop [] = none
timed_loop ((locked, late) ∷ later) =
    let rest = timed_loop later in
    let (got, locked') = try_lock locked in
    if got then some (true, locked') else if late then some (false, locked') else rest

abbrev words : List (Bool × Bool) → List Bool
words [] = []
words ((locked, late) ∷ later) = locked ∷ words later

locked_by : Option Bool → Option (Bool × Bool)
locked_by none = none
locked_by (some locked) = some (true, locked)

-- `timed_lock`, with whether the time is infinite and whether it is up at once. The answer, and the word
-- that the last exchange left, or the one at hand where there was none.
unfoldable pub timed_lock : Bool → Bool → Bool → List (Bool × Bool) → Option (Bool × Bool)
unfolding lock timed_loop locked_by
timed_lock infinite late locked later =
    if infinite
    then locked_by (lock (words later))
    else if late
    then some (false, locked)
    else timed_loop later

-- Threads on one mutex: `inside` are those that hold it.
pub record Threads : Type 0 where
  pub locked : Bool
  pub inside : ℕ → Bool

-- One exchange of a thread's `lock` or `try_lock`, and the `unlock` of a thread.
pub data Event : Type 0 where
  attempt : ℕ → Event
  release : ℕ → Event

unfoldable pub initial : Threads
unfolding construct
initial = record { locked = construct; inside = λ i. false }

unfoldable pub put_inside : (ℕ → Bool) → ℕ → Bool → ℕ → Bool
put_inside inside i b j = if i == j then b else inside j

-- `unlock` stores UNLOCKED whoever calls it; a thread that is inside and tries again stays inside.
unfoldable pub step : Threads → Event → Threads
unfolding try_lock unlock put_inside
step s (attempt i) =
    let (got, locked') = try_lock s.locked in
    record { locked = locked'; inside = put_inside s.inside i (got || s.inside i) }
step s (release i) = record { locked = unlock s.locked; inside = put_inside s.inside i false }

unfoldable pub run : Threads → List Event → Threads
unfolding step
run s [] = s
run s (e ∷ es) = run (step s e) es
