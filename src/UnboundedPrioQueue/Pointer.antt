-- ===== src/UnboundedPrioQueue/Pointer.antt =====
-- The class `unbounded_prio_queue` of include/boost/task/unbounded_prio_queue.hpp, a handle to its base.
use boost_task.Prelude.{Bool, Option, some, if◌then◌else◌}
use boost_task.Handle.{taken_from, swapped, assigned_from, is_null, forward}
use boost_task.UnboundedPrioQueue
use boost_task.UnboundedPrioQueue.{Value, PriorityQueue, PrioQueue}

module _ {T Attr Q : Type 0} {less : Attr → Attr → Bool} (is_vacant : T → Bool)
    (heap : PriorityQueue T Attr Q less) where
  abbrev H : Type 0
  H = Option (PrioQueue T Attr Q)

  unfoldable pub construct : H
  unfolding UnboundedPrioQueue.construct
  construct = some (UnboundedPrioQueue.construct is_vacant heap)

  unfoldable pub move_construct : H → H × H
  move_construct other = taken_from other

  -- `same` says that the two are one object.
  unfoldable pub move_assign : Bool → H → H → H × H
  move_assign same h other = if same then (h, other) else assigned_from h other

  unfoldable pub swap : H → H → H × H
  swap h other = swapped h other

  unfoldable pub null : H → Bool
  null h = is_null h

  unfoldable pub active : H → Option Bool
  active h = forward (λ q. q.active) h

  unfoldable pub deactivate : H → Option (PrioQueue T Attr Q)
  unfolding UnboundedPrioQueue.deactivate
  deactivate h = forward (UnboundedPrioQueue.deactivate is_vacant heap) h

  unfoldable pub empty : H → Option Bool
  unfolding UnboundedPrioQueue.empty
  empty h = forward (UnboundedPrioQueue.empty is_vacant heap) h

  -- The inner `none` is task_rejected.
  unfoldable pub put : H → Value T Attr → Option (Option (PrioQueue T Attr Q))
  unfolding UnboundedPrioQueue.put
  put h va = forward (λ q. UnboundedPrioQueue.put is_vacant heap q va) h

  unfoldable pub try_take : H → T → Option (Bool × T × PrioQueue T Attr Q)
  unfolding UnboundedPrioQueue.try_take
  try_take h ca = forward (λ q. UnboundedPrioQueue.try_take is_vacant heap q ca) h
