-- ===== src/BoundedPrioQueue/Safety.antt =====
-- What the bounded priority queue promises, whatever its callers do and in whatever order.
use boost_task.Prelude.{
  true≢false, ℕ, ◌+◌, ◌<◌, ◌≤◌, ◌≡◌, refl, ap, ap₂, sym, ◌∙◌, Bool, true, false, not, Option, none,
  some, List, [], ◌∷◌, ◌++◌, ltb, if-cases, length, replicate, arith,
}
use mathlib.Core.List.{append-nil, append_assoc}
use mathlib.Core.Path.{subst}
use boost_task.Prelude.Picks.{pick}
use boost_task.BoundedPrioQueue.{
  Heap, PrioQueue, Producer, initial, construct, size, full, producers_activate, reject, finish_put,
  await_room, notify_all, deactivate, resume_picked, resume, Event, retry, step, run,
}
use boost_task.BoundedPrioQueue.Inv.{Fits, IsSound}
use boost_task.BoundedPrioQueue.Preserved.{run-IsSound, inactivated-running}

module _ {V Q : Type 0} (heap : Heap V Q) where
  construct-IsSound :
      (hwm lwm : ℕ) (has_fsem : Bool) (q : PrioQueue V Q)
      → construct heap hwm lwm has_fsem ≡ some q
      → IsSound heap q
  unfolding construct initial IsSound
  construct-IsSound hwm lwm has_fsem q made =
      if-cases (λ (o : Option (PrioQueue V Q)). o ≡ some q → IsSound heap q) (ltb hwm lwm)
        {x = none} {y = some (initial heap hwm lwm has_fsem)} (λ high. λ e. absurd (cc e))
        (λ low. λ e.
          subst (IsSound heap) (let same : initial heap hwm lwm has_fsem ≡ q = cc e in same)
            (fresh low))
        made
    where
      fresh : ltb hwm lwm ≡ false → Fits true (heap.size heap.new) hwm lwm 0 0
      fresh low = rw heap.size-new (record {
        marks = ground arith;
        bound = omega arith;
        running = λ s. refl;
        above = λ s. absurd (omega (arith, s));
        owed = λ s. absurd (omega (arith, s));
      })

  -- In every state that a new queue reaches by any sequence of calls, wake-ups and time-outs: the size is
  -- at most the high watermark; and if a producer sleeps, the queue is active, and its size is above the
  -- low watermark where that is below the high one, or where they are equal the size and the
  -- producers already woken reach the high watermark.
  pub nobody_stranded :
      (hwm lwm : ℕ) (has_fsem : Bool) (start : PrioQueue V Q) (es : List (Event V))
      → construct heap hwm lwm has_fsem ≡ some start
      → let q : PrioQueue V Q = run heap start es in
        (size heap q ≤ q.hwm)
        × (1 ≤ length q.asleep
            → (q.active ≡ true)
              × (q.lwm < q.hwm → q.lwm < size heap q)
              × (q.lwm ≡ q.hwm → q.hwm ≤ size heap q + length q.ready))
  unfolding size IsSound
  nobody_stranded hwm lwm has_fsem start es made =
      let f = run-IsSound heap start es (construct-IsSound hwm lwm has_fsem start made) in
      (f.bound, λ s. (f.running s, f.above s, f.owed s))

  abbrev pub values : List (Producer V) → List V
  values [] = []
  values ((timed, va) ∷ ps) = va ∷ values ps

  resume-closed :
      (q : PrioQueue V Q) (p : Producer V) (ps : List (Producer V))
      → q.active ≡ false
      → q.ready ≡ p ∷ ps
      → resume heap q 0 ≡ record q { ready = ps; rejected = q.rejected ++ (p.1 ∷ []) }
  unfolding resume resume_picked await_room producers_activate full size finish_put reject
  resume-closed q p ps a e =
      let q' = record q { ready = ps } in
      let thrown = reject heap q' p.1 in
      ap (λ (ps' : List (Producer V)). resume_picked heap q (pick ps' 0)) e
      ∙ if-cases (λ q''. q'' ≡ thrown) (producers_activate heap q')
          (λ c.
            if-cases (λ q''. q'' ≡ thrown) (not q.active) (λ t. refl)
              (λ t. absurd (true≢false (sym (ap not a) ∙ t))))
          (λ c. absurd (true≢false (sym (inactivated-running q.active _ q.hwm c) ∙ a)))

  release :
      (ps : List (Producer V)) (q : PrioQueue V Q)
      → q.active ≡ false
      → q.ready ≡ ps
      → run heap q (replicate (length ps) (retry 0))
        ≡ record q { ready = []; rejected = q.rejected ++ values ps }
  unfolding run step
  release [] q a e =
      ap₂ (λ (r : List (Producer V)) (vs : List V). record q { ready = r; rejected = vs }) e
        (sym (append-nil q.rejected))
  release (p ∷ ps) q a e =
      ap (λ (q' : PrioQueue V Q). run heap q' (replicate (length ps) (retry 0)))
        (resume-closed q p ps a e)
      ∙ release ps (record q { ready = ps; rejected = q.rejected ++ (p.1 ∷ []) }) a refl
      ∙ ap (λ (vs : List V). record q { ready = []; rejected = vs })
          (append_assoc q.rejected (p.1 ∷ []) (values ps))

  -- After deactivate every producer inside put, asleep or already woken, gets out when it has the lock
  -- once: its call throws, and the queue and the posts are as they were.
  pub deactivate_releases :
      (q : PrioQueue V Q)
      → let closed : PrioQueue V Q = deactivate heap q in
        run heap closed (replicate (length closed.ready) (retry 0)) ≡ record q {
          active = false;
          asleep = [];
          ready = [];
          rejected = q.rejected ++ values (q.ready ++ q.asleep);
        }
  unfolding deactivate notify_all
  deactivate_releases q = release (q.ready ++ q.asleep) (deactivate heap q) refl refl
