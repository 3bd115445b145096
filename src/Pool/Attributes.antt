-- ===== src/Pool/Attributes.antt =====
-- Pools over a queue whose values have an attribute: `submit` with an attribute of
-- include/boost/task/detail/pool_base.hpp, over include/boost/task/unbounded_prio_queue.hpp, and the calls of
-- include/boost/task/static_pool.hpp for such a queue.
pub mod Priority
mod Tests
use boost_task.Prelude.{ℕ, Bool, true, false, Option, none, some, List, [], ◌∷◌, if◌then◌else◌}
use boost_task.Handle.{forward}
use boost_task.Prelude.Int.{pos}
use boost_task.Semaphore.{Sysv, Call, returns, asleep, invalid_argument, system_error}
use boost_task.FastSemaphore
use boost_task.FastSemaphore.{Fast}
use boost_task.UnboundedPrioQueue
use boost_task.UnboundedPrioQueue.{PriorityQueue, PrioQueue, Value, value}
use boost_task.Pool.{
  PoolBase, Ring, Reply, done, task_rejected, joining, stopped, closed, interrupt_all_worker,
}
use boost_task.Wsq

module _ (os : Sysv) {T Attr Q : Type 0} {less : Attr → Attr → Bool} (is_vacant : T → Bool)
    (heap : PriorityQueue T Attr Q less) where
  abbrev pub Pool : Type 0
  Pool = PoolBase T (PrioQueue T Attr Q) (Fast os)

  -- The constructor of the pool, over a queue of its own.
  unfoldable pub construct : ℕ → T → Fast os → Pool
  unfolding UnboundedPrioQueue.construct Wsq.construct
  construct psize vacant fsem = record {
    active = true;
    queue = UnboundedPrioQueue.construct is_vacant heap;
    fsem = fsem;
    size = psize;
    rings = λ i. Wsq.construct vacant tt;
    shtdwn = false;
    shtdwn_now = false;
    worker_shtdwn = λ i. false;
    ended = λ i. false;
    interrupted = λ i. false;
  }

  -- How the `fsem_->post()` at the end of the queue's `put` ends, as in Pool.
  unfoldable pub after_post : Pool → Call (Fast os) → Reply Pool
  after_post p (returns f) = done (record p { fsem = f })
  after_post p (asleep f) = stopped (asleep (record p { fsem = f }))
  after_post p (invalid_argument f) = stopped (invalid_argument (record p { fsem = f }))
  after_post p (system_error f) = stopped (system_error (record p { fsem = f }))

  unfoldable pub put_queue : Pool → Option (PrioQueue T Attr Q) → Reply Pool
  unfolding after_post
  put_queue p none = task_rejected p
  put_queue p (some q) = after_post (record p { queue = q }) (FastSemaphore.post os p.fsem (pos 1))

  unfoldable pub put_value : Pool → Option (Value T Attr) → Option (Reply Pool)
  unfolding put_queue UnboundedPrioQueue.put
  put_value p none = none
  put_value p (some va) = some (put_queue p (UnboundedPrioQueue.put is_vacant heap p.queue va))

  -- `submit` of a callable that is made (Launch); `none` is the failed assertion of `value_type`.
  unfoldable pub submit : Pool → T → Attr → Option (Reply Pool)
  unfolding closed put_value value
  submit p ca attr =
      if closed p then some (task_rejected p) else put_value p (value is_vacant heap ca attr)

  -- `try_take_global_work_` of a worker, with its variable before and after.
  unfoldable pub take_global : Pool → T → Bool × T × Pool
  unfolding UnboundedPrioQueue.try_take
  take_global p ca =
      let (taken, out, q) = UnboundedPrioQueue.try_take is_vacant heap p.queue ca in
      (taken, out, record p { queue = q })

  -- Calls in a row, while they return.
  unfoldable pub submit_then :
      Option (Reply Pool) → (Pool → Option (Reply Pool)) → Option (Reply Pool)
  submit_then none k = none
  submit_then (some (done p)) k = k p
  submit_then (some (task_rejected p)) k = some (task_rejected p)
  submit_then (some (joining p)) k = some (joining p)
  submit_then (some (stopped c)) k = some (stopped c)

  unfoldable pub submits : Pool → List (Value T Attr) → Option (Reply Pool)
  unfolding submit submit_then
  submits p [] = some (done p)
  submits p (v ∷ vs) = submit_then (submit p v.ca v.attr) (λ p'. submits p' vs)

  -- The takes of workers, one after another, each with its variable.
  unfoldable pub takes : Pool → List T → Pool
  unfolding take_global
  takes p [] = p
  takes p (ca ∷ cas) = takes (take_global p ca).2 cas

  -- `static_pool` over such a queue, a handle to the pool.
  unfoldable pub static_submit : Option Pool → T → Attr → Option (Option (Reply Pool))
  unfolding submit
  static_submit h ca attr = forward (λ p. submit p ca attr) h

  unfoldable pub static_closed : Option Pool → Option Bool
  unfolding closed
  static_closed h = forward closed h

  unfoldable pub static_size : Option Pool → Option ℕ
  static_size h = forward (λ p. p.size) h

  unfoldable pub static_interrupt_all_worker : Option Pool → Option Pool
  unfolding interrupt_all_worker
  static_interrupt_all_worker h = forward interrupt_all_worker h
