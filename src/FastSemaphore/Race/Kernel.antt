-- ===== src/FastSemaphore/Race/Kernel.antt =====
-- What passes through the kernel's semaphore keeps the accounts too.
use boost_task.Prelude.{
  ℕ, zero, suc, ◌+◌, ◌^◌, ◌<◌, ◌≤◌, ◌≡◌, refl, ap, sym, ◌⊎◌, inl, inr, true, false, if-cases,
  Option, none, some, List, [], ◌∷◌, arith,
}
use mathlib.Core.Path.{subst}
use boost_task.Prelude.Int.{ℤ, pos, negsuc, pos_part, neg_part, abs_ℤ}
use boost_task.Prelude.Picks.{pick}
use boost_task.Semaphore
use boost_task.Semaphore.{
  Sysv, max_value, Semop, done, sleeps, Call, returns, asleep, invalid_argument,
}
use boost_task.FastSemaphore.Race.{
  Shared, total, resume_inside, resumed, handed, hand_picked, raise_count, load_count, raise_picked,
}
use boost_task.FastSemaphore.Race.Inv.{Covering, Covering-more, Balanced}
use boost_task.FastSemaphore.Race.Moves.{widened}
use boost_task.FastSemaphore.Race.Posts.{raise_loaded-Balanced}
use boost_task.FastSemaphore.Race.Choice.{Parted, pick-Parted, Chosen, pick-Chosen}

module _ (os : Sysv) where
  open os use {Kern, value}

  wait-empty : (k : Kern) → value k ≡ 0 → Semaphore.wait os k ≡ asleep k
  unfolding Semaphore.wait
  wait-empty k e = rw (os.semop_empty k e)

  wait-full :
      (k : Kern) (v : ℕ)
      → value k ≡ suc v
      → (k' : Kern) × (Semaphore.wait os k ≡ returns k') × (value k' ≡ v)
  unfolding Semaphore.wait
  wait-full k v e = let (k', down, left) = os.semop_down k v false e in (k', rw down, left)

  post-up :
      (k : Kern) (m : ℕ)
      → value k + suc m ≤ max_value
      → (k' : Kern) × (Semaphore.post os k (pos (suc m)) ≡ returns k')
        × (value k' ≡ value k + suc m)
  unfolding Semaphore.post
  post-up k m room = let (k', up, v) = os.semop_up k m false room in (k', ground (arith, up), v)

  pub resume_inside-Balanced :
      {n b : ℕ} (s : Shared os) (i : ℕ)
      → s.inside ≡ i
      → Balanced os n b s
      → Balanced os n b (resume_inside os s i)
  unfolding resume_inside
  resume_inside-Balanced s zero e h = h
  resume_inside-Balanced {n} {b} s (suc rest) e h = by_value (os.value s.fsem.sem) refl
    where
      by_value :
          (v : ℕ)
          → os.value s.fsem.sem ≡ v
          → Balanced os n b (resumed os s rest (Semaphore.wait os s.fsem.sem))
      by_value zero empty =
          subst (λ c. Balanced os n b (resumed os s rest c)) (sym (wait-empty s.fsem.sem empty)) h
      by_value (suc v) full =
          let (k, down, left) = wait-full s.fsem.sem v full in
          subst (λ c. Balanced os n b (resumed os s rest c)) (sym down)
            (record {
              range = h.range;
              woken = omega (arith, h.woken, e, full, left);
              gone = omega (arith, h.gone, full, left);
              calls = omega (arith, h.calls, e);
              flag = h.flag;
              waiting =
                  Covering-more _ _ _ _ s.loaded (omega arith) (omega (arith, e, full, left))
                    h.waiting;
              covered = λ t. omega (arith, h.covered t, e, full, left);
            })

  -- Where the number handed on is not above 0, the kernel's semaphore refuses it.
  refused :
      {n b : ℕ} (s : Shared os) (rest : List ℤ)
      → total s.posting ≡ total rest
      → Balanced os n b s
      → Balanced os n b (record s { posting = rest })
  refused s rest same h = record {
    range = h.range;
    woken = omega (arith, h.woken, same);
    gone = omega (arith, h.gone, same);
    calls = h.calls;
    flag = h.flag;
    waiting = Covering-more _ _ _ _ s.loaded (omega arith) (omega (arith, same)) h.waiting;
    covered = λ t. omega (arith, h.covered t, same);
  }

  handed-Balanced :
      {n b : ℕ} (s : Shared os) (x : ℤ) (rest : List ℤ)
      → total s.posting ≡ pos_part x + total rest
      → b ≤ max_value
      → Balanced os n b s
      → Balanced os n b (handed os s rest (Semaphore.post os s.fsem.sem x))
  unfolding handed Semaphore.post
  handed-Balanced s (pos zero) rest same room h = refused s rest (omega (arith, same)) h
  handed-Balanced {n} {b} s (negsuc w) rest same room h =
      let no : Semaphore.post os s.fsem.sem (negsuc w) ≡ invalid_argument s.fsem.sem =
        ground arith in
      subst (λ c. Balanced os n b (handed os s rest c)) (sym no)
        (refused s rest (omega (arith, same)) h)
  handed-Balanced {n} {b} s (pos (suc m)) rest same room h =
      let (k, up, v) = post-up s.fsem.sem m (omega (arith, h.woken, h.calls, same)) in
      subst (λ c. Balanced os n b (handed os s rest c)) (sym up)
        (record {
          range = h.range;
          woken = omega (arith, h.woken, same, v);
          gone = omega (arith, h.gone, same, v);
          calls = h.calls;
          flag = h.flag;
          waiting = Covering-more _ _ _ _ s.loaded (omega arith) (omega (arith, same, v)) h.waiting;
          covered = λ t. omega (arith, h.covered t, same, v);
        })

  hand_picked-Balanced :
      {n b : ℕ} (s : Shared os) (o : Option (ℤ × List ℤ))
      → Parted s.posting o
      → b ≤ max_value
      → Balanced os n b s
      → Balanced os n b (hand_picked os s o)
  unfolding hand_picked Parted
  hand_picked-Balanced s none p room h = h
  hand_picked-Balanced s (some (x, rest)) p room h = handed-Balanced s x rest p room h

  raise_picked-Balanced :
      {n b : ℕ} (s : Shared os) (o : Option (ℤ × List ℤ))
      → Chosen b s.inside (total s.posting + value s.fsem.sem) s.loaded o
      → b + b < 2 ^ 31
      → Balanced os n b s
      → Balanced os n (b + b) (raise_picked os s o)
  unfolding raise_picked Chosen
  raise_picked-Balanced s none p room h = widened os s (omega arith) h
  raise_picked-Balanced {n} {b} s (some (x, rest)) (more, split) room h = from h.flag
    where
      from :
          (s.fsem.sem_active ≡ false) ⊎ ((s.loaded ≡ []) × (s.stopped ≡ false))
          → Balanced os n
              (b + b)
              (raise_count os (record s { loaded = rest; stopped = true }) x s.fsem.sem_count)
      from (inl off) =
          raise_loaded-Balanced os s x rest s.fsem.sem_count refl room off (split h.waiting) h
      from (inr (nothing, going)) = absurd (more nothing)

  pub load_count-Balanced :
      {n b : ℕ} (s : Shared os) → Balanced os n b s → Balanced os n b (load_count os s)
  unfolding load_count Covering
  load_count-Balanced {n} {b} s h =
      if-cases (Balanced os n b) s.fsem.sem_active (λ on. h)
        (λ off. record {
          range = h.range;
          woken = h.woken;
          gone = h.gone;
          calls = h.calls;
          flag = inl off;
          waiting = loads s.fsem.sem_count refl;
          covered = h.covered;
        })
    where
      loads :
          (c : ℤ)
          → s.fsem.sem_count ≡ c
          → Covering b s.inside (total s.posting + value s.fsem.sem) (abs_ℤ c ∷ s.loaded)
      loads (pos m) e = (
        (refl, omega (arith, h.range, ap pos_part e), omega (arith, h.woken, ap neg_part e)),
        h.waiting,
      )
      loads (negsuc w) e = (
        (refl, omega (arith, h.range, ap neg_part e), omega (arith, h.woken, ap neg_part e)),
        h.waiting,
      )

  -- A `post` that hands on, and a `deactivate` that adds, each chosen by its place.
  pub hand-Balanced :
      {n b : ℕ} (s : Shared os) (i : ℕ)
      → b ≤ max_value
      → Balanced os n b s
      → Balanced os n b (hand_picked os s (pick s.posting i))
  hand-Balanced s i room h =
      hand_picked-Balanced s (pick s.posting i) (pick-Parted s.posting i) room h

  pub raise_at-Balanced :
      {n b : ℕ} (s : Shared os) (i : ℕ)
      → b + b < 2 ^ 31
      → Balanced os n b s
      → Balanced os n (b + b) (raise_picked os s (pick s.loaded i))
  raise_at-Balanced {n} {b} s i room h =
      raise_picked-Balanced s (pick s.loaded i)
        (pick-Chosen b s.inside (total s.posting + value s.fsem.sem) s.loaded i) room h
