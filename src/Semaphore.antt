-- ===== src/Semaphore.antt =====
-- include/boost/task/semaphore.hpp and src/semaphore_posix.cpp: a counting semaphore on one System V
-- semaphore. The kernel is a parameter: `Sysv` has its calls, and what their manual says of them.
pub mod Counting
use boost_task.Prelude.{ℕ, suc, ◌+◌, ◌≤◌, ◌≡◌, Bool, true, false, Option, none, some, if◌then◌else◌}
use boost_task.Prelude.Int.{ℤ, pos, negsuc, ltb_ℤ}

-- How `semop` answers: 0, no answer yet because the caller sleeps, or -1 with an `errno`.
pub data Semop {ℓ} (K : Type ℓ) : Type ℓ where
  done : K → Semop K
  sleeps : Semop K
  fails : ℕ → Semop K

-- SEMVMX, the greatest value of a System V semaphore on Linux.
abbrev pub max_value : ℕ
max_value = 32767

-- The calls on the one semaphore of a set. `semop kern op nowait` has IPC_NOWAIT as its last argument.
pub record Sysv : Type 1 where
  pub Kern : Type 0
  pub semget : Option Kern
  pub semctl_setval : Kern → ℕ → Option Kern
  pub semop : Kern → ℤ → Bool → Semop Kern
  pub value : Kern → ℕ
  pub setval_value :
      (k : Kern) (n : ℕ)
      → n ≤ max_value
      → (k' : Kern) × (semctl_setval k n ≡ some k') × (value k' ≡ n)
  pub semop_up :
      (k : Kern) (n : ℕ) (nowait : Bool)
      → value k + suc n ≤ max_value
      → (k' : Kern) × (semop k (pos (suc n)) nowait ≡ done k') × (value k' ≡ value k + suc n)
  pub semop_down :
      (k : Kern) (v : ℕ) (nowait : Bool)
      → value k ≡ suc v
      → (k' : Kern) × (semop k (negsuc 0) nowait ≡ done k') × (value k' ≡ v)
  pub semop_empty : (k : Kern) → value k ≡ 0 → semop k (negsuc 0) false ≡ sleeps
  pub semop_again : (k : Kern) → value k ≡ 0 → (e : ℕ) × (semop k (negsuc 0) true ≡ fails e)

-- How a call ends: it returns, it sleeps in the kernel, or it throws.
pub data Call {ℓ} (A : Type ℓ) : Type ℓ where
  returns : A → Call A
  asleep : A → Call A
  invalid_argument : A → Call A
  system_error : A → Call A

module _ (os : Sysv) where
  open os use {Kern}

  set_value : Kern → ℤ → Option Kern
  set_value k (pos n) = os.semctl_setval k n
  set_value k (negsuc n) = none

  -- What `semaphore::semaphore` leaves: `none` is an exception, and then there is no object.
  unfoldable pub construct : ℤ → Option Kern
  unfolding set_value
  construct sem_count =
      if ltb_ℤ sem_count (pos 0)
      then none
      else elim os.semget [ none ↦ none | some k ↦ set_value k sem_count ]

  answer : Kern → Semop Kern → Call Kern
  answer k (done k') = returns k'
  answer k sleeps = asleep k
  answer k (fails e) = system_error k

  unfoldable pub post : Kern → ℤ → Call Kern
  unfolding answer
  post k n = if ltb_ℤ (pos 0) n then answer k (os.semop k n false) else invalid_argument k

  unfoldable pub wait : Kern → Call Kern
  unfolding answer
  wait k = answer k (os.semop k (negsuc 0) false)

  -- The second part is the state after the call.
  unfoldable pub try_wait : Kern → Bool × Kern
  try_wait k = elim (os.semop k (negsuc 0) true) [
    | done k' ↦ (true, k')
    | sleeps ↦ (false, k)
    | fails e ↦ (false, k)
  ]
