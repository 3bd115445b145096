-- ===== src/FastSemaphore.antt =====
-- include/boost/task/fast_semaphore.hpp and src/fast_semaphore.cpp: a counter in front of the
-- kernel's semaphore. A negative counter says how many callers of `wait` went to the kernel.
pub mod Laws
pub mod Budget
pub mod Race
mod Tests
use boost_task.Prelude.{
  ℕ, zero, suc, ◌≡◌, Bool, true, false, not, ◌&&◌, Option, none, some, List, [], ◌∷◌, if◌then◌else◌,
}
use boost_task.Prelude.Int.{ℤ, pos, negsuc, ltb_ℤ, eq_ℤ, min_ℤ, abs_ℤ, wrap_int, ◌+ℤ◌, ◌-ℤ◌}
use boost_task.Semaphore
use boost_task.Semaphore.{Sysv, Call, returns, asleep, invalid_argument, system_error}

pub record FastSemaphore (K : Type 0) : Type 0 where
  pub spin_count : ℕ
  pub sem_count : ℤ
  pub sem_active : Bool
  pub sem : K

module _ (os : Sysv) where
  abbrev pub Fast : Type 0
  Fast = FastSemaphore os.Kern

  -- `none` is an exception of the constructor.
  unfoldable pub construct : ℤ → ℕ → Option Fast
  construct sem_count spin_count = elim (Semaphore.construct os sem_count) [
    | none ↦ none
    | some k ↦
        if ltb_ℤ sem_count (pos 0)
        then none
        else some
            (record { spin_count = spin_count; sem_count = sem_count; sem_active = true; sem = k })
  ]

  with_sem : Fast → Call os.Kern → Call Fast
  with_sem f (returns k) = returns (record f { sem = k })
  with_sem f (asleep k) = asleep (record f { sem = k })
  with_sem f (invalid_argument k) = invalid_argument (record f { sem = k })
  with_sem f (system_error k) = system_error (record f { sem = k })

  -- The counter is raised before the kernel is asked, also where the kernel then refuses.
  unfoldable pub post : Fast → ℤ → Call Fast
  unfolding with_sem
  post f count =
      if ltb_ℤ count (pos 0)
      then invalid_argument f
      else (let old : ℤ = f.sem_count in
          let raised : Fast = record f { sem_count = wrap_int (old +ℤ count) } in
          if ltb_ℤ old (pos 0)
          then with_sem raised (Semaphore.post os f.sem (min_ℤ count (wrap_int (pos 0 -ℤ old))))
          else returns raised)

  -- `try_wait` while other threads run. An element of the list is what they leave in `sem_count_` and
  -- `sem_active_` between the load and the compare-exchange of one round; in the round after the last
  -- element nobody interferes.
  unfoldable pub try_wait_among : List (ℤ × Bool) → Fast → Bool × Fast
  try_wait_among [] f =
      let seen : ℤ = f.sem_count in
      if not f.sem_active
      then (false, f)
      else if ltb_ℤ (pos 0) seen
      then (true, record f { sem_count = wrap_int (seen -ℤ pos 1) })
      else (false, f)
  try_wait_among ((count, active) ∷ others) f =
      let seen : ℤ = f.sem_count in
      let f' : Fast = record f { sem_count = count; sem_active = active } in
      let again = try_wait_among others f' in
      if not f.sem_active
      then (false, f)
      else if ltb_ℤ (pos 0) seen
      then if eq_ℤ count seen
        then (true, record f' { sem_count = wrap_int (seen -ℤ pos 1) })
        else again
      else (false, f)

  unfoldable pub try_wait : Fast → Bool × Fast
  unfolding try_wait_among
  try_wait = try_wait_among []

  -- The loop of `wait` with the rounds that are left.
  unfoldable pub spin : ℕ → Fast → Bool × Fast
  unfolding try_wait
  spin zero f = (false, f)
  spin (suc rounds) f =
      let (taken, f') = try_wait f in
      let rest = spin rounds f' in if taken then (true, f') else rest

  -- After the spinning: the counter falls by one, and its old value decides.
  unfoldable pub wait_slow : Fast → Call Fast
  unfolding with_sem
  wait_slow f =
      let old : ℤ = f.sem_count in
      let lowered : Fast = record f { sem_count = wrap_int (old -ℤ pos 1) } in
      if not (ltb_ℤ old (pos 0))
      then returns lowered
      else if not f.sem_active
      then returns lowered
      else with_sem lowered (Semaphore.wait os f.sem)

  unfoldable pub wait : Fast → Call Fast
  unfolding spin wait_slow
  wait f = let (taken, f') = spin f.spin_count f in if taken then returns f' else wait_slow f'

  unfoldable pub deactivate : Fast → Call Fast
  unfolding post
  deactivate f =
      let stopped : Fast = record f { sem_active = false } in post stopped (abs_ℤ f.sem_count)
