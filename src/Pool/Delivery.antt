-- ===== src/Pool/Delivery.antt =====
-- From submit to the worker, across a shutdown.
use boost_task.Prelude.{
  ℕ, suc, ◌≡◌, refl, ap, sym, ◌∙◌, Bool, true, false, not, ◌||◌, some, List, [], ◌∷◌, ◌++◌, length,
  if◌then◌else◌, if-cases, true≢false,
}
use mathlib.Core.Path.{subst}
use boost_task.Semaphore.{Sysv, returns}
use boost_task.FastSemaphore
use boost_task.FastSemaphore.{Fast}
use boost_task.Queue.{Queue}
use boost_task.Prelude.Int.{pos}
use boost_task.Pool.{
  Pool, done, task_rejected, submit, put_queue, after_post, shutdown, deactivate, closed,
  after_fsem, stop_workers, join_all, all_ended,
}
use boost_task.Pool.Shutdown.{state_of}
use boost_task.Pool.Drain.{NoneLocal, RunsOnly, AllWork, drain}
use boost_task.Pool.Worker.{Outside, loop}

module _ (os : Sysv) {V : Type 0} {is_vacant : V → Bool} (queue : Queue V is_vacant)
    (vacant : V) where
  abbrev P : Type 0
  P = Pool os queue vacant

  submit-active :
      (p : P) (ca : V) (q : queue.Q) (f : Fast os)
      → p.active ≡ true
      → queue.put p.queue ca ≡ some q
      → FastSemaphore.post os p.fsem (pos 1) ≡ returns f
      → submit os queue vacant p ca ≡ done (record p { queue = q; fsem = f })
  unfolding submit closed put_queue after_post
  submit-active p ca q f act put posted =
      ap
        (λ (b : Bool).
          if not b then task_rejected p else put_queue os queue vacant p (queue.put p.queue ca))
        act
      ∙ ap (put_queue os queue vacant p) put
      ∙ ap (after_post os queue vacant (record p { queue = q })) posted

  -- What `drain` asks of a pool.
  abbrev Draining : ℕ → List V → P → Type 0
  Draining i xs p =
      NoneLocal os queue vacant i p
      × (p.shtdwn ≡ true)
      × (p.shtdwn_now ≡ false)
      × queue.Holds p.queue xs

  shutdown-Draining :
      (i : ℕ) (p : P) (xs : List V) (f : Fast os)
      → NoneLocal os queue vacant i p
      → p.active ≡ true
      → p.shtdwn_now ≡ false
      → queue.Holds p.queue xs
      → FastSemaphore.deactivate os p.fsem ≡ returns f
      → Draining i xs (state_of os queue vacant (shutdown os queue vacant false p))
  unfolding shutdown deactivate closed after_fsem stop_workers join_all state_of
  shutdown-Draining i p xs f local act now holds e =
      let (kept, shut) = queue.deactivate_lem p.queue xs holds in
      let p'' : P = record p { active = false; queue = queue.deactivate p.queue } in
      let p4 : P = record p'' { fsem = f; shtdwn = true } in
      let stops : Draining i xs (state_of os queue vacant (join_all p4)) =
        if-cases (λ r. Draining i xs (state_of os queue vacant r)) (all_ended p4 p4.size)
          (λ t. (local, refl, now, kept)) (λ t. (local, refl, now, kept)) in
      if-cases (λ r. Draining i xs (state_of os queue vacant r)) (closed p || not p.active)
        (λ t. absurd (true≢false (sym t ∙ ap (λ (b : Bool). not b || not b) act)))
        (λ t.
          subst
            (λ c. Draining i xs (state_of os queue vacant (after_fsem os queue vacant false p'' c)))
            (sym e) stops)

  -- Work that submit hands to an open pool, and all that was queued before it, is run, in the order of the
  -- queue, by a worker whose own ring is empty, after shutdown, where the post on the pool's semaphore and the
  -- deactivate of the semaphore that it leaves return,
  -- none of the work is an empty callable, and all work is complete when it has run and leaves the pool
  -- as it is. Then the worker has ended and the queue is empty.
  pub accepted_then_run :
      (o : ℕ → Outside V P) (i : ℕ) (p : P) (xs : List V) (ca : V) (posted f : Fast os)
      → ((n : ℕ) → RunsOnly os queue vacant (o n))
      → NoneLocal os queue vacant i p
      → p.active ≡ true
      → p.shtdwn_now ≡ false
      → queue.Holds p.queue xs
      → queue.active p.queue ≡ true
      → AllWork os queue vacant (xs ++ ca ∷ [])
      → FastSemaphore.post os p.fsem (pos 1) ≡ returns posted
      → FastSemaphore.deactivate os posted ≡ returns f
      → let p1 : P = state_of os queue vacant (submit os queue vacant p ca) in
        let p2 : P = state_of os queue vacant (shutdown os queue vacant false p1) in
        (p' : P) × (loop os queue vacant (suc (length (xs ++ ca ∷ []))) o i p2
          ≡ (xs ++ ca ∷ [], some p'))
        × queue.Holds p'.queue []
        × (p'.ended i ≡ true)
  unfolding state_of
  accepted_then_run o i p xs ca posted f only local act now holds open_queue work post e =
      let (q, put, holds', still) = queue.put_active p.queue xs ca holds open_queue in
      let p1 : P = record p { queue = q; fsem = posted } in
      let submitted : submit os queue vacant p ca ≡ done p1 =
        submit-active p ca q posted act put post in
      let (local', shut, now', held) =
        shutdown-Draining i p1 (xs ++ ca ∷ []) f local act now holds' e in
      subst
        (λ r.
          let p2 : P =
            state_of os queue vacant
              (shutdown os queue vacant false (state_of os queue vacant r)) in
          (p' : P) × (loop os queue vacant (suc (length (xs ++ ca ∷ []))) o i p2
            ≡ (xs ++ ca ∷ [], some p'))
          × queue.Holds p'.queue []
          × (p'.ended i ≡ true))
        (sym submitted)
        (drain os queue vacant o i (state_of os queue vacant (shutdown os queue vacant false p1))
          (xs ++ ca ∷ []) only local' shut now' held work)
