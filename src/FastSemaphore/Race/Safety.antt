-- ===== src/FastSemaphore/Race/Safety.antt =====
-- The accounts of a fast semaphore after any steps of its callers.
use boost_task.Prelude.{ℕ, ◌+◌, ◌≤◌, ◌≡◌, refl, ap, inl, inr, true, some, List, [], ◌∷◌, arith}
use boost_task.Prelude.Int.{pos, pos_part, neg_part}
use boost_task.Semaphore.{Sysv, max_value}
use boost_task.FastSemaphore.{Fast, construct}
use boost_task.FastSemaphore.Budget.{construct_fields}
use boost_task.FastSemaphore.Race.{
  Shared, total, Event, lower, decide, resume, exchange, raise, hand, switch_off, load,
  raise_loaded, new, step, run, reach,
}
use boost_task.FastSemaphore.Race.Inv.{Covering-none, Balanced}
use boost_task.FastSemaphore.Race.Moves.{
  lower_count-Balanced, decide_sleep-Balanced, exchange_seen-Balanced,
}
use boost_task.FastSemaphore.Race.Posts.{raise_count-Balanced}
use boost_task.FastSemaphore.Race.Kernel.{
  resume_inside-Balanced, hand-Balanced, raise_at-Balanced, load_count-Balanced,
}

reach-le : (b : ℕ) (es : List Event) → b ≤ reach b es
reach-le b [] = omega arith
reach-le b (lower ∷ es) = omega (arith, reach-le (b + 1) es)
reach-le b (decide ∷ es) = reach-le b es
reach-le b (resume ∷ es) = reach-le b es
reach-le b (exchange seen ∷ es) = reach-le b es
reach-le b (raise n ∷ es) = omega (arith, reach-le (b + n) es)
reach-le b (hand i ∷ es) = reach-le b es
reach-le b (switch_off ∷ es) = reach-le b es
reach-le b (load ∷ es) = reach-le b es
reach-le b (raise_loaded i ∷ es) = omega (arith, reach-le (b + b) es)

module _ (os : Sysv) where
  open os use {value}

  switched_off :
      {n b : ℕ} (s : Shared os) → Balanced os n b s → Balanced os n b (step os s switch_off)
  unfolding step
  switched_off s h = record {
    range = h.range;
    woken = h.woken;
    gone = h.gone;
    calls = h.calls;
    flag = inl refl;
    waiting = h.waiting;
    covered = h.covered;
  }

  run-Balanced :
      {n : ℕ} (b : ℕ) (s : Shared os) (es : List Event)
      → reach b es ≤ max_value
      → Balanced os n b s
      → Balanced os n (reach b es) (run os s es)
  unfolding run step
  run-Balanced b s [] room h = h
  run-Balanced b s (lower ∷ es) room h =
      run-Balanced (b + 1) _ es room
        (lower_count-Balanced os s s.fsem.sem_count refl (omega (arith, reach-le (b + 1) es)) h)
  run-Balanced b s (decide ∷ es) room h =
      run-Balanced b _ es room (decide_sleep-Balanced os s s.deciding refl h)
  run-Balanced b s (resume ∷ es) room h =
      run-Balanced b _ es room (resume_inside-Balanced os s s.inside refl h)
  run-Balanced b s (exchange seen ∷ es) room h =
      run-Balanced b _ es room (exchange_seen-Balanced os s seen (omega (arith, reach-le b es)) h)
  run-Balanced b s (raise n ∷ es) room h = run-Balanced (b + n) _ es room (
      raise_count-Balanced os (b + n) n s s.fsem.sem_count refl (omega arith)
        (omega (arith, reach-le (b + n) es)) h)
  run-Balanced b s (hand i ∷ es) room h =
      run-Balanced b _ es room (hand-Balanced os s i (omega (arith, reach-le b es)) h)
  run-Balanced b s (switch_off ∷ es) room h = run-Balanced b _ es room (switched_off s h)
  run-Balanced b s (load ∷ es) room h = run-Balanced b _ es room (load_count-Balanced os s h)
  run-Balanced b s (raise_loaded i ∷ es) room h =
      run-Balanced (b + b) _ es room
        (raise_at-Balanced os s i (omega (arith, reach-le (b + b) es)) h)

  new-Balanced :
      {n : ℕ} (spin : ℕ) {f : Fast os}
      → n ≤ max_value
      → construct os (pos n) spin ≡ some f
      → Balanced os n n (new os f)
  new-Balanced {n} spin {f} few made =
      let (count, active, v) = construct_fields os n spin few made in
      let up : pos_part f.sem_count ≡ n = ap pos_part count in
      let down : neg_part f.sem_count ≡ 0 = ap neg_part count in
      record {
        range = omega (arith, up, down);
        woken = omega (arith, down, v);
        gone = omega (arith, up, v);
        calls = omega arith;
        flag = inr (refl, refl);
        waiting = Covering-none _ _ _;
        covered = λ t. omega (arith, v);
      }

  -- Callers of wait, try_wait, post and deactivate in any number and order on a new semaphore of count n, as
  -- long as neither the count nor what the kernel is handed can pass the kernel's greatest value. A
  -- thread in the kernel is counted below zero, or covered by the kernel's count or by what a post is about
  -- to hand on; and once a deactivate has added, it is covered by the kernel's count or by such a post.
  pub nobody_overslept :
      (n spin : ℕ) {f : Fast os} (es : List Event)
      → reach n es ≤ max_value
      → construct os (pos n) spin ≡ some f
      → let s : Shared os = run os (new os f) es in
        (s.inside + s.deciding ≤ neg_part s.fsem.sem_count + total s.posting + value s.fsem.sem)
        × (s.stopped ≡ true → s.inside ≤ total s.posting + value s.fsem.sem)
  nobody_overslept n spin {f} es room made =
      let h =
        run-Balanced n (new os f) es room (new-Balanced spin (omega (arith, reach-le n es)) made) in
      (omega (arith, h.woken), h.covered)

  -- Callers of wait, try_wait, post and deactivate in any number and order on a new semaphore of count n, as
  -- long as neither the count nor what the kernel is handed can pass the kernel's greatest value: the
  -- calls of wait and try_wait that have returned, with the count where it is
  -- not negative, what the kernel holds and what posts are about to hand on, are all that was added, twice
  -- the count at the start, one for each wait that found the count 0, and one for each that found the
  -- semaphore inactive.
  pub waits_account :
      (n spin : ℕ) {f : Fast os} (es : List Event)
      → reach n es ≤ max_value
      → construct os (pos n) spin ≡ some f
      → let s : Shared os = run os (new os f) es in
        s.returned + pos_part s.fsem.sem_count + total s.posting + value s.fsem.sem
        ≡ s.posted + n + n + s.early + s.at_zero
  waits_account n spin {f} es room made =
      let h =
        run-Balanced n (new os f) es room (new-Balanced spin (omega (arith, reach-le n es)) made) in
      h.gone
