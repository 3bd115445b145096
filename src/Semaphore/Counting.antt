-- ===== src/Semaphore/Counting.antt =====
-- A kernel whose semaphore is a number, to show that what `Sysv` says of the kernel can hold.
use boost_task.Prelude.{ℕ, zero, suc, ◌+◌, ◌≡◌, refl, Bool, true, false, some}
use boost_task.Prelude.Int.{ℤ, pos, negsuc}
use boost_task.Semaphore.{Sysv, Semop, done, sleeps, fails}

-- EAGAIN is 11.
abbrev pub down : ℕ → Bool → Semop ℕ
down zero true = fails 11
down zero false = sleeps
down (suc v) nowait = done v

abbrev pub semop : ℕ → ℤ → Bool → Semop ℕ
semop k (pos n) nowait = done (k + n)
semop k (negsuc n) nowait = down k nowait

pub down-suc : (k v : ℕ) (nowait : Bool) → k ≡ suc v → down k nowait ≡ done v
down-suc k v nowait e = rw e

pub down-zero : (k : ℕ) → k ≡ 0 → down k false ≡ sleeps
down-zero k e = rw e

pub down-again : (k : ℕ) → k ≡ 0 → down k true ≡ fails 11
down-again k e = rw e

abbrev pub counting : Sysv
counting = record {
  Kern = ℕ;
  semget = some 0;
  semctl_setval = λ k n. some n;
  semop = semop;
  value = λ k. k;
  setval_value = λ k n h. (n, refl, refl);
  semop_up = λ k n nowait h. (k + suc n, refl, refl);
  semop_down = λ k v nowait e. (v, down-suc k v nowait e, refl);
  semop_empty = down-zero;
  semop_again = λ k e. (11, down-again k e);
}
