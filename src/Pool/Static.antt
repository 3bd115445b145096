-- ===== src/Pool/Static.antt =====
-- include/boost/task/static_pool.hpp: `static_pool` over a queue without bounds and attributes, a handle to
-- its pool_base.
use boost_task.Prelude.{ℕ, Bool, true, false, Option, none, some}
use boost_task.Handle.{taken_from, swapped, assigned_from, is_null, forward}
use boost_task.Semaphore.{Sysv}
use boost_task.FastSemaphore.{Fast}
use boost_task.Queue.{Queue}
use boost_task.Pool
use boost_task.Pool.{Reply}

module _ (os : Sysv) {V : Type 0} {is_vacant : V → Bool} (queue : Queue V is_vacant)
    (vacant : V) where
  abbrev P : Type 0
  P = Pool.Pool os queue vacant

  abbrev H : Type 0
  H = Option P

  unfoldable pub default : H
  default = none

  -- The pool's constructor throws where it is `none`.
  unfoldable pub construct : ℕ → queue.Q → Option (Fast os) → Option H
  unfolding Pool.construct
  construct psize q fsem = elim (Pool.construct os queue vacant psize q fsem) [
    | none ↦ none
    | some p ↦ some (some p)
  ]

  unfoldable pub move_construct : H → H × H
  move_construct other = taken_from other

  unfoldable pub move_assign : H → H → H × H
  move_assign h other = assigned_from h other

  unfoldable pub swap : H → H → H × H
  swap h other = swapped h other

  unfoldable pub null : H → Bool
  null h = is_null h

  unfoldable pub interrupt_all_worker : H → Option P
  unfolding Pool.interrupt_all_worker
  interrupt_all_worker h = forward Pool.interrupt_all_worker h

  unfoldable pub shutdown : H → Option (Reply P)
  unfolding Pool.shutdown
  shutdown h = forward (Pool.shutdown os queue vacant false) h

  unfoldable pub shutdown_now : H → Option (Reply P)
  unfolding Pool.shutdown
  shutdown_now h = forward (Pool.shutdown os queue vacant true) h

  unfoldable pub size : H → Option ℕ
  size h = forward (λ p. p.size) h

  unfoldable pub closed : H → Option Bool
  unfolding Pool.closed
  closed h = forward Pool.closed h

  -- Of a callable that is made (Launch).
  unfoldable pub submit : H → V → Option (Reply P)
  unfolding Pool.submit
  submit h ca = forward (λ p. Pool.submit os queue vacant p ca) h
