-- ===== src/Pool/Shutdown.antt =====
-- The pool after its shutdown, and further calls of it.
use boost_task.Prelude.{
  ◌≡◌, true≢false, refl, ap, sym, ◌∙◌, Bool, true, false, not, ◌||◌, List, [], ◌∷◌, if◌then◌else◌,
  if-cases,
}
use boost_task.Semaphore.{Sysv, Call, returns, asleep, invalid_argument, system_error}
use boost_task.FastSemaphore
use boost_task.FastSemaphore.{Fast}
use boost_task.Queue.{Queue}
use boost_task.Pool.{
  Reply, done, task_rejected, joining, stopped, closed, deactivate, all_ended, interrupt_all_worker,
  interrupt_all, join_all, Pool, shutdown, submit, after_fsem, stop_workers, put_queue,
}

pub data Op (V : Type 0) : Type 0 where
  submits : V → Op V
  shuts : Bool → Op V
  interrupts : Op V

module _ (os : Sysv) {V : Type 0} {is_vacant : V → Bool} (queue : Queue V is_vacant)
    (vacant : V) where
  abbrev P : Type 0
  P = Pool os queue vacant

  -- The pool after a call, by return or by exception, asleep or not.
  state_of_call : Call P → P
  state_of_call (returns p) = p
  state_of_call (asleep p) = p
  state_of_call (invalid_argument p) = p
  state_of_call (system_error p) = p

  unfoldable pub state_of : Reply P → P
  unfolding state_of_call
  state_of (done p) = p
  state_of (task_rejected p) = p
  state_of (joining p) = p
  state_of (stopped c) = state_of_call c

  unfoldable pub step : P → Op V → P
  unfolding state_of shutdown submit interrupt_all_worker
  step p (submits ca) = state_of (submit os queue vacant p ca)
  step p (shuts now) = state_of (shutdown os queue vacant now p)
  step p interrupts = interrupt_all_worker p

  unfoldable pub run : P → List (Op V) → P
  unfolding step
  run p [] = p
  run p (op ∷ ops) = run (step p op) ops

  closed-true : (p : P) → p.active ≡ false → (closed p || not p.active) ≡ false → ⊥
  unfolding closed
  closed-true p c f = true≢false (sym (ap (λ (b : Bool). not b || not b) c) ∙ f)

  submit-closed :
      (p : P) (ca : V) → p.active ≡ false → submit os queue vacant p ca ≡ task_rejected p
  unfolding submit closed
  submit-closed p ca c =
      ap
        (λ (b : Bool).
          if not b then task_rejected p else put_queue os queue vacant p (queue.put p.queue ca))
        c

  shutdown-closed :
      (p : P) (now : Bool) → p.active ≡ false → shutdown os queue vacant now p ≡ done p
  unfolding shutdown deactivate
  shutdown-closed p now c =
      if-cases (λ (r : Reply P). r ≡ done p) (closed p || not p.active) (λ t. refl)
        (λ f. absurd (closed-true p c f))

  step-closed : (p : P) (op : Op V) → p.active ≡ false → step p op ≡ p
  unfolding step state_of closed interrupt_all_worker
  step-closed p (submits ca) c = ap state_of (submit-closed p ca c)
  step-closed p (shuts now) c = ap state_of (shutdown-closed p now c)
  step-closed p interrupts c = ap (λ (b : Bool). if not b then p else interrupt_all p) c

  run-closed : (p : P) (ops : List (Op V)) → p.active ≡ false → run p ops ≡ p
  unfolding run
  run-closed p [] c = refl
  run-closed p (op ∷ ops) c = ap (λ (q : P). run q ops) (step-closed p op c) ∙ run-closed p ops c

  join_all-closed : (p : P) → p.active ≡ false → (state_of (join_all p)).active ≡ false
  unfolding join_all state_of
  join_all-closed p c =
      if-cases (λ (r : Reply P). (state_of r).active ≡ false) (all_ended p p.size) (λ t. c) (λ f. c)

  stop_workers-closed :
      (now : Bool) (p : P) → p.active ≡ false → (stop_workers os queue vacant now p).active ≡ false
  unfolding stop_workers interrupt_all
  stop_workers-closed true p c = c
  stop_workers-closed false p c = c

  after_fsem-closed :
      (now : Bool) (p : P) (call : Call (Fast os))
      → p.active ≡ false
      → (state_of (after_fsem os queue vacant now p call)).active ≡ false
  unfolding after_fsem state_of state_of_call
  after_fsem-closed now p (returns f) c =
      join_all-closed (stop_workers os queue vacant now (record p { fsem = f }))
        (stop_workers-closed now (record p { fsem = f }) c)
  after_fsem-closed now p (asleep f) c = c
  after_fsem-closed now p (invalid_argument f) c = c
  after_fsem-closed now p (system_error f) c = c

  shutdown-closes :
      (p : P) (now : Bool) → (state_of (shutdown os queue vacant now p)).active ≡ false
  unfolding shutdown deactivate closed state_of
  shutdown-closes p now =
      if-cases (λ (r : Reply P). (state_of r).active ≡ false) (closed p || not p.active)
        (λ t. was_closed p.active t)
        (λ f.
          after_fsem-closed now (record p { active = false; queue = queue.deactivate p.queue })
            (FastSemaphore.deactivate os p.fsem) refl)
    where
      was_closed : (b : Bool) → (not b || not b) ≡ true → b ≡ false
      was_closed true t = sym t
      was_closed false t = refl

  -- After shutdown or shutdown_now, however it ended, the pool is closed; submit throws task_rejected and
  -- changes nothing, and no further calls of submit, shutdown, shutdown_now and interrupt_all_worker
  -- change the pool.
  pub closed_pool :
      (p : P) (now : Bool) (ca : V) (ops : List (Op V))
      → let q : P = step p (shuts now) in
        (q.active ≡ false) × (submit os queue vacant q ca ≡ task_rejected q) × (run q ops ≡ q)
  unfolding step
  closed_pool p now ca ops =
      let c = shutdown-closes p now in
      let q = state_of (shutdown os queue vacant now p) in
      (c, submit-closed q ca c, run-closed q ops c)
