-- ===== src/FastSemaphore/Race/Moves.antt =====
-- Each step on a fast semaphore keeps its accounts.
use boost_task.Prelude.{
  ℕ, zero, suc, ◌+◌, ◌^◌, ◌<◌, ◌≤◌, ◌≡◌, sym, ap, ◌∙◌, ◌⊎◌, inl, inr, true, false, true≢false, not,
  ◌&&◌, if-cases, [], arith,
}
use mathlib.Core.Path.{subst}
use boost_task.Prelude.Int.{ℤ, pos, negsuc, pos_part, neg_part, ltb_ℤ, eq_ℤ}
use boost_task.Semaphore.{Sysv}
use boost_task.FastSemaphore.Race.{Shared, total, lowered, lower_count, decide_sleep, exchange_seen}
use boost_task.FastSemaphore.Race.Inv.{
  Covering, Covering-more, Covering-none, Balanced, lowered-suc, lowered-zero, lowered-negsuc,
}

module _ (os : Sysv) where
  pub widened : {n b b' : ℕ} (s : Shared os) → b ≤ b' → Balanced os n b s → Balanced os n b' s
  widened s more h = record {
    range = omega (arith, h.range);
    woken = h.woken;
    gone = h.gone;
    calls = omega (arith, h.calls);
    flag = h.flag;
    waiting = Covering-more _ _ _ _ s.loaded more (omega arith) h.waiting;
    covered = h.covered;
  }

  pub lower_count-Balanced :
      {n b : ℕ} (s : Shared os) (c : ℤ)
      → s.fsem.sem_count ≡ c
      → suc b < 2 ^ 31
      → Balanced os n b s
      → Balanced os n (b + 1) (lower_count os s c)
  unfolding lower_count
  lower_count-Balanced s (pos zero) e room h = record {
    range = omega (arith, h.range, ap pos_part lowered-zero, ap neg_part lowered-zero);
    woken = omega (arith, h.woken, ap neg_part e, ap neg_part lowered-zero);
    gone = omega (arith, h.gone, ap pos_part e, ap pos_part lowered-zero);
    calls = omega (arith, h.calls);
    flag = h.flag;
    waiting = Covering-more _ _ _ _ s.loaded (omega arith) (omega arith) h.waiting;
    covered = h.covered;
  }
  lower_count-Balanced s (pos (suc m)) e room h =
      let l : lowered (pos (suc m)) ≡ pos m =
        lowered-suc m (omega (arith, h.range, ap pos_part e)) in
      record {
        range = omega (arith, h.range, ap pos_part e, ap pos_part l, ap neg_part l);
        woken = omega (arith, h.woken, ap neg_part e, ap neg_part l);
        gone = omega (arith, h.gone, ap pos_part e, ap pos_part l);
        calls = omega (arith, h.calls);
        flag = h.flag;
        waiting = Covering-more _ _ _ _ s.loaded (omega arith) (omega arith) h.waiting;
        covered = h.covered;
      }
  lower_count-Balanced s (negsuc w) e room h =
      let l : lowered (negsuc w) ≡ negsuc (suc w) =
        lowered-negsuc w (omega (arith, h.range, ap neg_part e)) in
      record {
        range = omega (arith, h.range, ap neg_part e, ap pos_part l, ap neg_part l);
        woken = omega (arith, h.woken, ap neg_part e, ap neg_part l);
        gone = omega (arith, h.gone, ap pos_part e, ap pos_part l);
        calls = omega (arith, h.calls);
        flag = h.flag;
        waiting = Covering-more _ _ _ _ s.loaded (omega arith) (omega arith) h.waiting;
        covered = h.covered;
      }

  pub decide_sleep-Balanced :
      {n b : ℕ} (s : Shared os) (d : ℕ)
      → s.deciding ≡ d
      → Balanced os n b s
      → Balanced os n b (decide_sleep os s d)
  unfolding decide_sleep
  decide_sleep-Balanced s zero e h = h
  decide_sleep-Balanced {n} {b} s (suc rest) e h =
      if-cases (Balanced os n b) (not s.fsem.sem_active)
        (λ off. record {
          range = h.range;
          woken = omega (arith, h.woken, e);
          gone = omega (arith, h.gone);
          calls = omega (arith, h.calls, e);
          flag = h.flag;
          waiting = h.waiting;
          covered = h.covered;
        })
        (λ on. started (ground (arith, on)))
    where
      started :
          s.fsem.sem_active ≡ true
          → Balanced os n b (record s { deciding = rest; inside = s.inside + 1 })
      started on = from h.flag
        where
          from :
              (s.fsem.sem_active ≡ false) ⊎ ((s.loaded ≡ []) × (s.stopped ≡ false))
              → Balanced os n b (record s { deciding = rest; inside = s.inside + 1 })
          from (inl off) = absurd (true≢false (sym on ∙ off))
          from (inr (nothing, going)) = record {
            range = h.range;
            woken = omega (arith, h.woken, e);
            gone = omega (arith, h.gone);
            calls = omega (arith, h.calls, e);
            flag = inr (nothing, going);
            waiting =
                subst (Covering b (s.inside + 1) (total s.posting + os.value s.fsem.sem))
                  (sym nothing) (Covering-none _ _ _);
            covered = λ t. absurd (true≢false (sym t ∙ going));
          }

  pub exchange_seen-Balanced :
      {n b : ℕ} (s : Shared os) (seen : ℤ)
      → b < 2 ^ 31
      → Balanced os n b s
      → Balanced os n b (exchange_seen os s seen)
  unfolding exchange_seen
  exchange_seen-Balanced {n} {b} s (negsuc w) room h =
      if-cases (Balanced os n b) (ltb_ℤ (pos 0) (negsuc w) && eq_ℤ s.fsem.sem_count (negsuc w))
        (λ same. absurd (ground (arith, same))) (λ other. h)
  exchange_seen-Balanced s (pos zero) room h = h
  exchange_seen-Balanced {n} {b} s (pos (suc m)) room h =
      if-cases (Balanced os n b)
        (ltb_ℤ (pos 0) (pos (suc m)) && eq_ℤ s.fsem.sem_count (pos (suc m)))
        (λ same. took (ground (arith, same)) (ground (arith, same))) (λ other. h)
    where
      took :
          pos_part s.fsem.sem_count ≡ suc m
          → neg_part s.fsem.sem_count ≡ 0
          → Balanced os n b (record s {
            fsem = record s.fsem { sem_count = lowered (pos (suc m)) };
            returned = s.returned + 1;
          })
      took up down =
          let l : lowered (pos (suc m)) ≡ pos m = lowered-suc m (omega (arith, h.range, up)) in
          record {
            range = omega (arith, h.range, up, ap pos_part l, ap neg_part l);
            woken = omega (arith, h.woken, down, ap neg_part l);
            gone = omega (arith, h.gone, up, ap pos_part l);
            calls = h.calls;
            flag = h.flag;
            waiting = h.waiting;
            covered = h.covered;
          }
