-- ===== src/BoundedPrioQueue/Pointer.antt =====
-- The class `bounded_prio_queue` of include/boost/task/bounded_prio_queue.hpp, a handle to its base.
use boost_task.Prelude.{ℕ, Bool, true, false, Option, none, some, if◌then◌else◌}
use boost_task.Handle.{taken_from, swapped, assigned_from, is_null, forward}
use boost_task.BoundedPrioQueue
use boost_task.BoundedPrioQueue.{Heap, PrioQueue}

module _ {V Q : Type 0} (heap : Heap V Q) where
  abbrev H : Type 0
  H = Option (PrioQueue V Q)

  -- The base's constructor throws where it is `none`.
  unfoldable pub construct : ℕ → ℕ → Bool → Option H
  unfolding BoundedPrioQueue.construct
  construct hwm lwm has_fsem = elim (BoundedPrioQueue.construct heap hwm lwm has_fsem) [
    | none ↦ none
    | some q ↦ some (some q)
  ]

  unfoldable pub move_construct : H → H × H
  move_construct other = taken_from other

  -- `same` says that the two are one object.
  unfoldable pub move_assign : Bool → H → H → H × H
  move_assign same h other = if same then (h, other) else assigned_from h other

  unfoldable pub swap : H → H → H × H
  swap h other = swapped h other

  unfoldable pub null : H → Bool
  null h = is_null h

  unfoldable pub active : H → Option Bool
  active h = forward (λ q. q.active) h

  unfoldable pub deactivate : H → Option (PrioQueue V Q)
  unfolding BoundedPrioQueue.deactivate
  deactivate h = forward (BoundedPrioQueue.deactivate heap) h

  unfoldable pub empty : H → Option Bool
  unfolding BoundedPrioQueue.empty
  empty h = forward (BoundedPrioQueue.empty heap) h

  unfoldable pub upper_bound : H → Option ℕ
  upper_bound h = forward (λ q. q.hwm) h

  unfoldable pub lower_bound : H → Option ℕ
  lower_bound h = forward (λ q. q.lwm) h

  -- Without and with a time limit, up to the wait.
  unfoldable pub put : H → V → Option (PrioQueue V Q)
  unfolding BoundedPrioQueue.put
  put h va = forward (λ q. BoundedPrioQueue.put heap q (false, va)) h

  unfoldable pub timed_put : H → V → Option (PrioQueue V Q)
  unfolding BoundedPrioQueue.put
  timed_put h va = forward (λ q. BoundedPrioQueue.put heap q (true, va)) h

  unfoldable pub try_take : H → ℕ → Option (Option V × PrioQueue V Q)
  unfolding BoundedPrioQueue.try_take
  try_take h i = forward (λ q. BoundedPrioQueue.try_take heap q i) h
