-- ===== src/FastSemaphore/Race/Posts.antt =====
-- What `post` and `deactivate` add keeps the accounts of a fast semaphore.
use boost_task.Prelude.{ℕ, suc, ◌+◌, ◌^◌, ◌<◌, ◌≤◌, ◌≡◌, ap, inl, true, false, List, ◌∷◌, arith}
use boost_task.Prelude.Int.{ℤ, pos, negsuc, pos_part, neg_part}
use boost_task.Semaphore.{Sysv}
use boost_task.FastSemaphore.Race.{Shared, total, raised, raise_count}
use boost_task.FastSemaphore.Race.Inv.{
  Covering, Covering-more, Balanced, raised-pos, raised-negsuc, share-negsuc,
}

module _ (os : Sysv) where
  pub raise_count-Balanced :
      {n b : ℕ} (b' x : ℕ) (s : Shared os) (c : ℤ)
      → s.fsem.sem_count ≡ c
      → b + x ≤ b'
      → b' < 2 ^ 31
      → Balanced os n b s
      → Balanced os n b' (raise_count os s (pos x) c)
  unfolding raise_count
  raise_count-Balanced b' x s (pos m) e more room h =
      let l : raised (pos m) (pos x) ≡ pos (m + x) =
        raised-pos m x (omega (arith, h.range, ap pos_part e)) in
      record {
        range = omega (arith, h.range, ap pos_part e, ap pos_part l, ap neg_part l);
        woken = omega (arith, h.woken, ap neg_part e, ap neg_part l);
        gone = omega (arith, h.gone, ap pos_part e, ap pos_part l);
        calls = omega (arith, h.calls);
        flag = h.flag;
        waiting = Covering-more _ _ _ _ s.loaded (omega arith) (omega arith) h.waiting;
        covered = h.covered;
      }
  raise_count-Balanced b' x s (negsuc w) e more room h =
      let small : suc w + x < 2 ^ 31 = omega (arith, h.range, ap neg_part e) in
      let (up, down) = raised-negsuc w x small in
      let part = share-negsuc w x (omega (arith, small)) in
      record {
        range = omega (arith, h.range, ap neg_part e, up, down);
        woken = omega (arith, h.woken, ap neg_part e, up, down, part);
        gone = omega (arith, h.gone, ap pos_part e, up, down, part);
        calls = omega (arith, h.calls);
        flag = h.flag;
        waiting = Covering-more _ _ _ _ s.loaded (omega arith) (omega arith) h.waiting;
        covered = λ t. omega (arith, h.covered t);
      }

  dropped :
      {n b : ℕ} (s : Shared os) (rest : List ℤ)
      → s.fsem.sem_active ≡ false
      → Covering b s.inside (total s.posting + os.value s.fsem.sem) rest
      → Balanced os n b s
      → Balanced os n b (record s { loaded = rest })
  dropped s rest off others h = record {
    range = h.range;
    woken = h.woken;
    gone = h.gone;
    calls = h.calls;
    flag = inl off;
    waiting = others;
    covered = h.covered;
  }

  -- A removed number leaves the others covered.
  pub raise_loaded-Balanced :
      {n b : ℕ} (s : Shared os) (x : ℤ) (rest : List ℤ) (c : ℤ)
      → s.fsem.sem_count ≡ c
      → b + b < 2 ^ 31
      → s.fsem.sem_active ≡ false
      → Covering b s.inside (total s.posting + os.value s.fsem.sem) (x ∷ rest)
      → Balanced os n b s
      → Balanced os n (b + b) (raise_count os (record s { loaded = rest; stopped = true }) x c)
  unfolding raise_count Covering
  raise_loaded-Balanced {n} {b} s (negsuc a) rest c e room off ((number, few, enough), others) h =
      absurd (ground (arith, number))
  raise_loaded-Balanced {n} {b} s (pos x) rest (pos m) e room off ((number, few, enough), others)
        h =
      let kept : Balanced os n (b + b)
          (raise_count os (record s { loaded = rest }) (pos x) (pos m)) =
        raise_count-Balanced (b + b) x (record s { loaded = rest }) (pos m) e (omega (arith, few))
          room (dropped s rest off others h) in
      record {
        range = kept.range;
        woken = kept.woken;
        gone = kept.gone;
        calls = kept.calls;
        flag = inl off;
        waiting = kept.waiting;
        covered = λ t. omega (arith, h.woken, ap neg_part e);
      }
  raise_loaded-Balanced {n} {b} s (pos x) rest (negsuc w) e room off ((number, few, enough), others)
        h =
      let small : suc w + x < 2 ^ 31 = omega (arith, h.range, ap neg_part e, few) in
      let part = share-negsuc w x (omega (arith, small)) in
      let kept : Balanced os n (b + b)
          (raise_count os (record s { loaded = rest }) (pos x) (negsuc w)) =
        raise_count-Balanced (b + b) x (record s { loaded = rest }) (negsuc w) e
          (omega (arith, few)) room (dropped s rest off others h) in
      record {
        range = kept.range;
        woken = kept.woken;
        gone = kept.gone;
        calls = kept.calls;
        flag = inl off;
        waiting = kept.waiting;
        covered = λ t. omega (arith, h.woken, ap neg_part e, part, enough);
      }
