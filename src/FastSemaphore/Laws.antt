-- ===== src/FastSemaphore/Laws.antt =====
-- What `fast_semaphore` does on each branch of its operations.
use boost_task.Prelude.{ℕ, zero, suc, ◌+◌, ◌-◌, ◌^◌, ◌<◌, ◌≤◌, min, ◌≡◌, refl, true, false, arith}
use boost_task.Prelude.Int.{pos, negsuc, min_ℤ, wrap_int, ◌+ℤ◌, ◌-ℤ◌}
use boost_task.Semaphore
use boost_task.Semaphore.{
  Sysv, max_value, Semop, done, sleeps, fails, Call, returns, asleep, invalid_argument,
}
use boost_task.FastSemaphore.{Fast, post, spin, wait, deactivate}

module _ (os : Sysv) where
  open os use {value}

  -- The number of sleepers that `post` hands to the kernel.
  woken :
      (w n : ℕ)
      → w < 2 ^ 31 - 1
      → min_ℤ (pos (suc n)) (wrap_int (pos 0 -ℤ negsuc w)) ≡ pos (suc (min n w))
  woken w n small = ground arith

  raised :
      (w n : ℕ)
      → w < 2 ^ 31 - 1
      → n < 2 ^ 31 - 1
      → wrap_int (negsuc w +ℤ pos (suc n)) ≡ negsuc w +ℤ pos (suc n)
  raised w n small few = ground arith

  -- `post` of `n + 1` while `w + 1` callers went to the kernel: the counter rises by `n + 1`, the kernel's
  -- semaphore by the smaller of the two numbers, and the call returns.
  post-wakes :
      (f : Fast os) (w n : ℕ)
      → f.sem_count ≡ negsuc w
      → w < 2 ^ 31 - 1
      → n < 2 ^ 31 - 1
      → value f.sem + suc (min n w) ≤ max_value
      → (f' : Fast os) × (post os f (pos (suc n)) ≡ returns f')
        × (f'.sem_count ≡ negsuc w +ℤ pos (suc n))
        × (value f'.sem ≡ value f.sem + suc (min n w))
        × (f'.sem_active ≡ f.sem_active)
  unfolding post Semaphore.post
  post-wakes f w n e small few room =
      let (k', up, v) = os.semop_up f.sem (min n w) false room in
      (
        record f { sem_count = negsuc w +ℤ pos (suc n); sem = k' },
        ground (arith, woken w n small, raised w n small few),
        refl,
        v,
        refl,
      )

  -- Where nobody went to the kernel, `post` only raises the counter.
  pub post-counts :
      (f : Fast os) (c n : ℕ)
      → f.sem_count ≡ pos c
      → c + n < 2 ^ 31
      → post os f (pos n) ≡ returns (record f { sem_count = pos (c + n) })
  unfolding post
  post-counts f c n e fits = ground arith

  -- The guard of `post` lets 0 pass, and the kernel's semaphore refuses it: with callers in the kernel
  -- `post 0` throws, with none it changes nothing.
  post_zero :
      (f : Fast os) (w c : ℕ)
      → w < 2 ^ 31 - 1
      → c < 2 ^ 31
      → (f.sem_count ≡ negsuc w → post os f (pos 0) ≡ invalid_argument f)
        × (f.sem_count ≡ pos c → post os f (pos 0) ≡ returns f)
  unfolding post Semaphore.post
  post_zero f w c small fits = (λ e. ground arith, λ e. ground arith)

  -- Once the semaphore is switched off, no `wait` sleeps: each returns and lowers the counter.
  spin-inactive : (rounds : ℕ) (f : Fast os) → f.sem_active ≡ false → spin os rounds f ≡ (false, f)
  unfolding spin
  spin-inactive zero f e = refl
  spin-inactive (suc rounds) f e = ground (arith, spin-inactive rounds f e)

  wait-inactive :
      (f : Fast os)
      → f.sem_active ≡ false
      → wait os f ≡ returns (record f { sem_count = wrap_int (f.sem_count -ℤ pos 1) })
  unfolding wait
  wait-inactive f e = ground (arith, spin-inactive f.spin_count f e)

  -- With a positive counter `wait` takes one and does not enter the kernel.
  spin-none : (rounds : ℕ) (f : Fast os) → f.sem_count ≡ pos 0 → spin os rounds f ≡ (false, f)
  unfolding spin
  spin-none zero f e = refl
  spin-none (suc rounds) f e = ground (arith, spin-none rounds f e)

  spin-negative :
      (rounds : ℕ) (f : Fast os) (w : ℕ) → f.sem_count ≡ negsuc w → spin os rounds f ≡ (false, f)
  unfolding spin
  spin-negative zero f w e = refl
  spin-negative (suc rounds) f w e = ground (arith, spin-negative rounds f w e)

  spin-positive :
      (rounds : ℕ) (f : Fast os) (c : ℕ)
      → f.sem_active ≡ true
      → f.sem_count ≡ pos (suc c)
      → c < 2 ^ 31 - 1
      → (spin os (suc rounds) f ≡ (true, record f { sem_count = pos c }))
  unfolding spin
  spin-positive rounds f c a e fits = ground arith

  -- An active semaphore: a positive counter falls by one; at 0 the call returns as well and leaves -1;
  -- below 0 the kernel decides, and where its semaphore is 0 the caller sleeps.
  pub wait-positive :
      (f : Fast os) (c : ℕ)
      → f.sem_active ≡ true
      → f.sem_count ≡ pos (suc c)
      → c < 2 ^ 31 - 1
      → wait os f ≡ returns (record f { sem_count = pos c })
  unfolding wait
  wait-positive f c a e fits = by_rounds f.spin_count refl
    where
      by_rounds :
          (rounds : ℕ)
          → f.spin_count ≡ rounds
          → wait os f ≡ returns (record f { sem_count = pos c })
      by_rounds zero r = rw (r, spin) (ground arith)
      by_rounds (suc rounds) r = ground (arith, spin-positive rounds f c a e fits)

  pub wait-zero :
      (f : Fast os) → f.sem_count ≡ pos 0 → wait os f ≡ returns (record f { sem_count = negsuc 0 })
  unfolding wait
  wait-zero f e = ground (arith, spin-none f.spin_count f e)

  pub wait-negative :
      (f : Fast os) (w v : ℕ)
      → f.sem_active ≡ true
      → f.sem_count ≡ negsuc w
      → w < 2 ^ 31 - 1
      → value f.sem ≡ suc v
      → (f' : Fast os) × (wait os f ≡ returns f')
        × (f'.sem_count ≡ negsuc (suc w))
        × (value f'.sem ≡ v)
        × (f'.sem_active ≡ true)
  unfolding wait Semaphore.wait
  wait-negative f w v a e fits h =
      let (k', down, left) = os.semop_down f.sem v false h in
      (
        record f { sem_count = negsuc (suc w); sem = k' },
        ground (arith, spin-negative f.spin_count f w e),
        refl,
        left,
        a,
      )

  pub wait-sleeps :
      (f : Fast os) (w : ℕ)
      → f.sem_active ≡ true
      → f.sem_count ≡ negsuc w
      → w < 2 ^ 31 - 1
      → value f.sem ≡ 0
      → wait os f ≡ asleep (record f { sem_count = negsuc (suc w) })
  unfolding wait Semaphore.wait
  wait-sleeps f w a e fits h =
      ground (arith, spin-negative f.spin_count f w e, os.semop_empty f.sem h)

  -- `deactivate` of a counter below 0 brings it to 0 and hands every one of those callers a token, so
  -- that none of them sleeps on; it throws nothing.
  deactivate-wakes :
      (f : Fast os) (w : ℕ)
      → f.sem_count ≡ negsuc w
      → w < 2 ^ 31 - 1
      → value f.sem + suc w ≤ max_value
      → (f' : Fast os) × (deactivate os f ≡ returns f')
        × (f'.sem_count ≡ pos 0)
        × (value f'.sem ≡ value f.sem + suc w)
        × (f'.sem_active ≡ false)
  unfolding deactivate
  deactivate-wakes f w e small room =
      let (f', up, count, v, off) =
        post-wakes (record f { sem_active = false }) w w e small small (omega arith) in
      (f', ground arith, ground arith, omega arith, off)
