-- ===== src/Pool.antt =====
-- include/boost/task/detail/pool_base.hpp with worker.hpp, worker_group.hpp and src/detail/worker_group.cpp:
-- a pool is a queue of submitted work, a fast semaphore, and workers that each have a ring. Here are
-- the state and the calls of the pool; in Pool/Worker the loop of a worker, in Pool/Steal its search
-- for work. Each call of a queue, ring or semaphore is one step.
pub mod Steal
pub mod Search
pub mod Worker
pub mod Shutdown
pub mod Drain
pub mod Delivery
pub mod Static
pub mod Attributes
mod Tests
use boost_task.Prelude.{
  ℕ, zero, suc, ◌+◌, Bool, true, false, not, ◌&&◌, ◌||◌, Option, none, some, List, [], ◌∷◌, ltb,
  ◌==◌, if◌then◌else◌,
}
use boost_task.Semaphore.{Sysv, Call, returns, asleep, invalid_argument, system_error}
use boost_task.FastSemaphore
use boost_task.FastSemaphore.{Fast}
use boost_task.Queue.{Queue}
use boost_task.Prelude.Int.{pos}
use boost_task.Wsq
use boost_task.Wsq.{Wsq}

-- The `fsem_` of a ring is the pool's, so a ring has none of its own.
abbrev pub Ring : Type 0 → Type 0
Ring V = Wsq V (Unit {0})

-- Workers are the numbers below `size`. `worker_shtdwn` has the flag that each worker keeps for itself,
-- `ended` those whose function has returned, `interrupted` those interrupted.
pub record PoolBase (V Q S : Type 0) : Type 0 where
  pub active : Bool
  pub queue : Q
  pub fsem : S
  pub size : ℕ
  pub rings : ℕ → Ring V
  pub shtdwn : Bool
  pub shtdwn_now : Bool
  pub worker_shtdwn : ℕ → Bool
  pub ended : ℕ → Bool
  pub interrupted : ℕ → Bool

-- How a call of the pool ends; `calls` is the end of a call of the semaphore.
pub data Reply (P : Type 0) : Type 0 where
  done : P → Reply P
  task_rejected : P → Reply P
  joining : P → Reply P
  stopped : Call P → Reply P

module _ {V Q S : Type 0} where
  unfoldable pub closed : PoolBase V Q S → Bool
  closed p = not p.active

  -- `state_.exchange( DEACTIVE)`
  unfoldable pub deactivate : PoolBase V Q S → Bool × PoolBase V Q S
  deactivate p = (p.active, record p { active = false })

  unfoldable pub interrupt_all : PoolBase V Q S → PoolBase V Q S
  interrupt_all p = record p { interrupted = λ i. ltb i p.size || p.interrupted i }

  unfoldable pub interrupt_all_worker : PoolBase V Q S → PoolBase V Q S
  unfolding interrupt_all closed
  interrupt_all_worker p = if closed p then p else interrupt_all p

  unfoldable pub all_ended : PoolBase V Q S → ℕ → Bool
  all_ended p zero = true
  all_ended p (suc n) = p.ended n && all_ended p n

  -- `join_all` returns when every worker has ended, and clears the group.
  unfoldable pub join_all : PoolBase V Q S → Reply (PoolBase V Q S)
  unfolding all_ended
  join_all p = if all_ended p p.size then done (record p { size = 0 }) else joining p

module _ (os : Sysv) {V : Type 0} {is_vacant : V → Bool} (queue : Queue V is_vacant)
    (vacant : V) where
  abbrev pub Pool : Type 0
  Pool = PoolBase V queue.Q (Fast os)

  -- The constructor. The semaphore's may throw.
  unfoldable pub construct : ℕ → queue.Q → Option (Fast os) → Option Pool
  unfolding Wsq.construct
  construct psize q none = none
  construct psize q (some fsem) = some (record {
    active = true;
    queue = q;
    fsem = fsem;
    size = psize;
    rings = λ i. Wsq.construct vacant tt;
    shtdwn = false;
    shtdwn_now = false;
    worker_shtdwn = λ i. false;
    ended = λ i. false;
    interrupted = λ i. false;
  })

  -- What follows `fsem_.deactivate()` in the two kinds of shutdown, up to `join_all`.
  unfoldable pub stop_workers : Bool → Pool → Pool
  unfolding interrupt_all
  stop_workers now p =
      if now then interrupt_all (record p { shtdwn_now = true }) else record p { shtdwn = true }

  unfoldable pub after_fsem : Bool → Pool → Call (Fast os) → Reply Pool
  unfolding stop_workers join_all
  after_fsem now p (returns f) = join_all (stop_workers now (record p { fsem = f }))
  after_fsem now p (asleep f) = stopped (asleep (record p { fsem = f }))
  after_fsem now p (invalid_argument f) = stopped (invalid_argument (record p { fsem = f }))
  after_fsem now p (system_error f) = stopped (system_error (record p { fsem = f }))

  -- `shutdown` and, with `true`, `shutdown_now`
  unfoldable pub shutdown : Bool → Pool → Reply Pool
  unfolding closed deactivate after_fsem
  shutdown now p =
      let (was_active, p') = deactivate p in
      if closed p || not was_active
      then done p
      else (let p'' : Pool = record p' { queue = queue.deactivate p'.queue } in
          after_fsem now p'' (FastSemaphore.deactivate os p''.fsem))

  -- How the `fsem_->post()` at the end of the queue's `put` ends; the value is linked before it.
  unfoldable pub after_post : Pool → Call (Fast os) → Reply Pool
  after_post p (returns f) = done (record p { fsem = f })
  after_post p (asleep f) = stopped (asleep (record p { fsem = f }))
  after_post p (invalid_argument f) = stopped (invalid_argument (record p { fsem = f }))
  after_post p (system_error f) = stopped (system_error (record p { fsem = f }))

  unfoldable pub put_queue : Pool → Option queue.Q → Reply Pool
  unfolding after_post
  put_queue p none = task_rejected p
  put_queue p (some q) = after_post (record p { queue = q }) (FastSemaphore.post os p.fsem (pos 1))

  -- `submit` of a callable that is made (Launch).
  unfoldable pub submit : Pool → V → Reply Pool
  unfolding closed put_queue
  submit p ca = if closed p then task_rejected p else put_queue p (queue.put p.queue ca)
