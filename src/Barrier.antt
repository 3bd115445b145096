-- ===== src/Barrier.antt =====
-- include/boost/task/spin/barrier.hpp, src/spin/barrier.cpp: `barrier`. The mutex is held except in the
-- condition, so an event is a call of `wait` up to its sleep, or what a woken thread does.
mod Round
mod Tests
use boost_task.Prelude.{
  ℕ, zero, suc, ◌+◌, ◌-◌, ◌^◌, Bool, true, false, not, Option, none, some, List, [], ◌∷◌, ◌++◌,
  ◌==◌, if◌then◌else◌,
}

-- Of each thread in the condition (`asleep`), or out of it and without the lock yet (`ready`), the cycle
-- that it has in its variable; `returned` counts the calls that have answered false.
pub record Barrier : Type 0 where
  pub initial : ℕ
  pub current : ℕ
  pub cycle : Bool
  pub asleep : List Bool
  pub ready : List Bool
  pub returned : ℕ

-- `none` is the exception invalid_argument.
unfoldable pub construct : ℕ → Option Barrier
construct initial =
    if initial == 0
    then none
    else some (record {
      initial = initial;
      current = initial;
      cycle = true;
      asleep = [];
      ready = [];
      returned = 0;
    })

-- `--current_` on a size_t
unfoldable pub decrement : ℕ → ℕ
decrement n = if n == 0 then 2 ^ 64 - 1 else n - 1

unfoldable pub equal : Bool → Bool → Bool
equal true b = b
equal false b = not b

-- `wait` after the decrement: `some true` is its answer, `none` asleep.
unfoldable pub arrive : Barrier → ℕ → Option Bool × Barrier
arrive b current =
    if current == 0
    then (
      some true,
      record b {
        cycle = not b.cycle;
        current = b.initial;
        asleep = [];
        ready = b.ready ++ b.asleep;
      },
    )
    else (none, record b { current = current; asleep = b.asleep ++ (b.cycle ∷ []) })

unfoldable pub wait : Barrier → Option Bool × Barrier
unfolding decrement arrive
wait b = arrive b (decrement b.current)

-- The first thread that is ready gets the lock and tests the cycle.
unfoldable pub resume_from : Barrier → List Bool → Barrier
unfolding equal
resume_from b [] = b
resume_from b (cycle ∷ rest) =
    if equal cycle b.cycle
    then record b { asleep = b.asleep ++ (cycle ∷ []); ready = rest }
    else record b { ready = rest; returned = b.returned + 1 }

unfoldable pub resume : Barrier → Barrier
unfolding resume_from
resume b = resume_from b b.ready

unfoldable pub waits : ℕ → Barrier → Barrier
unfolding wait
waits zero b = b
waits (suc n) b = waits n (wait b).1

unfoldable pub resumes : ℕ → Barrier → Barrier
unfolding resume
resumes zero b = b
resumes (suc n) b = resumes n (resume b)
