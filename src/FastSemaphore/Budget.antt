-- ===== src/FastSemaphore/Budget.antt =====
-- How many calls of `wait` return before anyone posts, and `try_wait` among other threads.
use boost_task.Prelude.{
  ℕ, zero, suc, ◌+◌, ◌^◌, ◌<◌, ◌≤◌, ◌≡◌, refl, ◌∙◌, Bool, true, false, some, List, [], ◌∷◌, arith,
  Option-cases, inl, inr, ◌⊎◌,
}
use boost_task.Prelude.Int.{ℤ, pos, negsuc, ltb_ℤ, pos_part, neg_part}
use boost_task.Semaphore
use boost_task.Semaphore.{Sysv, max_value, Call, returns, asleep, invalid_argument, system_error}
use boost_task.FastSemaphore.{Fast, construct, try_wait_among, wait}
use boost_task.FastSemaphore.Laws.{wait-positive, wait-zero, wait-negative, wait-sleeps}

module _ (os : Sysv) where
  open os use {value}

  and_then : Call (Fast os) → (Fast os → Call (Fast os)) → Call (Fast os)
  and_then (returns f) k = k f
  and_then (asleep f) k = asleep f
  and_then (invalid_argument f) k = invalid_argument f
  and_then (system_error f) k = system_error f

  -- `n` calls of `wait` in a row; the first that does not return ends the row.
  pub waits : ℕ → Fast os → Call (Fast os)
  waits zero f = returns f
  waits (suc n) f = and_then (wait os f) (waits n)

  and_then-add :
      (r : Call (Fast os)) (m n : ℕ) {f' : Fast os}
      → ((g : Fast os) → waits m g ≡ returns f' → waits (m + n) g ≡ waits n f')
      → and_then r (waits m) ≡ returns f'
      → and_then r (waits (m + n)) ≡ waits n f'
  unfolding and_then
  and_then-add (returns g) m n ih h = ih g h
  and_then-add (asleep g) m n ih h = cc
  and_then-add (invalid_argument g) m n ih h = cc
  and_then-add (system_error g) m n ih h = cc

  waits-add :
      (m n : ℕ) (f : Fast os) {f' : Fast os} → waits m f ≡ returns f' → waits (m + n) f ≡ waits n f'
  unfolding waits and_then
  waits-add zero n f {f'} h = let e : 0 + n ≡ n = omega arith in cc
  waits-add (suc m) n f h =
      let e : suc m + n ≡ suc (m + n) = omega arith in
      rw e (and_then-add (wait os f) m n (λ g. waits-add m n g) h)

  -- From a positive counter `c` the first `c + 1` calls leave the kernel alone.
  waits-positive :
      (c : ℕ) (f : Fast os)
      → f.sem_active ≡ true
      → f.sem_count ≡ pos c
      → c < 2 ^ 31
      → waits (suc c) f ≡ returns (record f { sem_count = negsuc 0 })
  unfolding waits and_then
  waits-positive zero f a e h = rw (wait-zero os f e)
  waits-positive (suc c) f a e h =
      rw (wait-positive os f c a e (omega arith))
        (waits-positive c (record f { sem_count = pos c }) a refl (omega arith))

  -- Below 0 the next calls use up what the kernel's semaphore holds.
  waits-negative :
      (v w : ℕ) (f : Fast os)
      → f.sem_active ≡ true
      → f.sem_count ≡ negsuc w
      → value f.sem ≡ v
      → w + v < 2 ^ 31
      → (f' : Fast os) × (waits v f ≡ returns f')
        × (f'.sem_active ≡ true)
        × (f'.sem_count ≡ negsuc (w + v))
        × (value f'.sem ≡ 0)
  unfolding waits and_then
  waits-negative zero w f a e h fits = (f, refl, a, ground arith, h)
  waits-negative (suc v) w f a e h fits =
      let (g, step, count, left, active) = wait-negative os f w v a e (omega arith) h in
      let (f', rest, on, count', out) =
        waits-negative v (suc w) g active count left (omega arith) in
      (f', rw step rest, on, ground arith, out)

  pub construct_fields :
      (n spin : ℕ) {f : Fast os}
      → n ≤ max_value
      → construct os (pos n) spin ≡ some f
      → (f.sem_count ≡ pos n) × (f.sem_active ≡ true) × (value f.sem ≡ n)
  unfolding construct Semaphore.construct
  construct_fields n spin few made = elim (Option-cases os.semget) [
    | inl nothing ↦ ground arith
    | inr (k, got) ↦ let (k', stored, v) = os.setval_value k n few in ground arith
  ]

  -- A semaphore constructed with the count `n` lets 2 n + 1 calls of `wait` return before any `post`, one
  -- by the test `0 <= old` at 0 and `n` by the kernel's semaphore, that starts at `n` too; the next
  -- call sleeps.
  wait_budget :
      (n spin : ℕ) {f : Fast os}
      → n ≤ max_value
      → construct os (pos n) spin ≡ some f
      → (f' : Fast os) × (waits (suc n + n) f ≡ returns f')
        × (wait os f' ≡ asleep (record f' { sem_count = negsuc (suc n) }))
  wait_budget n spin {f} few made =
      let (count, active, v) = construct_fields n spin few made in
      let first = waits-positive n f active count (omega arith) in
      let (f', second, on, count', out) =
        waits-negative n 0 (record f { sem_count = negsuc 0 }) active refl v (omega arith) in
      (
        f',
        waits-add (suc n) n f first ∙ second,
        wait-sleeps os f' n on (ground arith) (omega arith) out,
      )

  -- What a 32-bit `int` can hold, for the counter and for all that the other threads store.
  abbrev IsInt : ℤ → Type 0
  IsInt z = (pos_part z < 2 ^ 31) × (neg_part z ≤ 2 ^ 31)

  abbrev AllInt : List (ℤ × Bool) → Type 0
  AllInt [] = Unit
  AllInt ((count, active) ∷ others) = IsInt count × AllInt others

  -- Whatever the other threads store between load and compare-exchange, `try_wait` ends; where it returns
  -- true it has not taken the counter below 0, and where it returns false the semaphore is switched off
  -- or its counter not positive. The kernel's semaphore stays as it is.
  try_wait_among_sound :
      (others : List (ℤ × Bool)) (f : Fast os)
      → IsInt f.sem_count
      → AllInt others
      → let (taken, f') = try_wait_among os others f in
        (taken ≡ true → ltb_ℤ f'.sem_count (pos 0) ≡ false)
        × (taken ≡ false → (f'.sem_active ≡ false) ⊎ (ltb_ℤ (pos 0) f'.sem_count ≡ false))
        × (f'.sem ≡ f.sem)
  unfolding try_wait_among
  try_wait_among_sound [] f r all = ground arith
  try_wait_among_sound ((count, active) ∷ others) f r all =
      let ih =
        try_wait_among_sound others (record f { sem_count = count; sem_active = active }) all.0
          all.1 in
      ground arith
