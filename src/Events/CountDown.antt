-- ===== src/Events/CountDown.antt =====
-- include/boost/task/spin/count_down_event.hpp and src/spin/count_down_event.cpp: an event that is set when a count
-- has come down to 0. `set` loads the count twice before it exchanges it, and each of these is a step.
use boost_task.Prelude.{
  ℕ, ◌+◌, ◌-◌, ◌%◌, ◌^◌, Bool, true, false, not, Option, none, some, List, [], ◌∷◌, ◌==◌,
  if◌then◌else◌,
}
use boost_task.Prelude.Picks.{pick}

-- `tested` counts the threads in `set` that have found the count not 0; `expecting` are the counts that
-- those past the second load expect.
pub record Counter : Type 0 where
  pub initial : ℕ
  pub current : ℕ
  pub tested : ℕ
  pub expecting : List ℕ

unfoldable pub construct : ℕ → Counter
construct initial = record { initial = initial; current = initial; tested = 0; expecting = [] }

unfoldable pub is_set : Counter → Bool
is_set c = 0 == c.current

-- `if ( 0 == current_.load() ) return`
unfoldable pub test : Counter → Counter
test c = if 0 == c.current then c else record c { tested = c.tested + 1 }

-- `std::size_t expected = current_.load()`
unfoldable pub load : Counter → Counter
load c =
    if c.tested == 0
    then c
    else record c { tested = c.tested - 1; expecting = c.current ∷ c.expecting }

-- `expected - 1` of 64 bits.
unfoldable pub decrement : ℕ → ℕ
decrement expected = (expected + (2 ^ 64 - 1)) % 2 ^ 64

exchange_picked : Counter → Option (ℕ × List ℕ) → Counter
unfolding decrement
exchange_picked c none = c
exchange_picked c (some (expected, rest)) =
    let c' : Counter = record c { expecting = rest } in
    if c.current == expected then record c' { current = decrement expected } else c'

-- `compare_exchange_strong`; a thread that fails begins its loop again.
unfoldable pub exchange : Counter → ℕ → Counter
unfolding exchange_picked
exchange c i = exchange_picked c (pick c.expecting i)

-- `wait`, by the counts that its loop meets: whether it returns.
unfoldable pub wait : List ℕ → Bool
wait [] = false
wait (current ∷ later) = let rest = wait later in if not (0 == current) then rest else true

-- The loop of `timed_wait`: the count that each test meets, and whether the time is up after the round.
unfoldable pub timed_tests : List (ℕ × Bool) → Option Bool
timed_tests [] = none
timed_tests ((current, late) ∷ later) =
    let rest = timed_tests later in
    if not (0 == current) then (if late then some false else rest) else some true

unfoldable pub timed_wait : Bool → List (ℕ × Bool) → Option Bool
unfolding timed_tests
timed_wait late later = if late then some false else timed_tests later

pub data Event : Type 0 where
  tests : Event
  loads : Event
  exchanges : ℕ → Event

unfoldable pub step : Counter → Event → Counter
unfolding test load exchange
step c tests = test c
step c loads = load c
step c (exchanges i) = exchange c i

unfoldable pub run : Counter → List Event → Counter
unfolding step
run c [] = c
run c (e ∷ es) = run (step c e) es
