-- ===== src/UnboundedFifo/Pointer.antt =====
-- The class `unbounded_fifo` of include/boost/task/unbounded_fifo.hpp, a handle to its base.
use boost_task.Prelude.{Bool, Option, some, if◌then◌else◌}
use boost_task.Handle.{taken_from, swapped, assigned_from, is_null, forward}
use boost_task.UnboundedFifo
use boost_task.UnboundedFifo.{Fifo}
use boost_task.UnboundedFifo.Calls.{put_call}

module _ {T : Type 0} (vacant : T) (is_vacant : T → Bool) where
  abbrev H : Type 0
  H = Option (Fifo T)

  unfoldable pub construct : Bool → H
  unfolding UnboundedFifo.construct
  construct has_fsem = some (UnboundedFifo.construct vacant has_fsem)

  unfoldable pub move_construct : H → H × H
  move_construct other = taken_from other

  -- `same` says that the two are one object.
  unfoldable pub move_assign : Bool → H → H → H × H
  move_assign same h other = if same then (h, other) else assigned_from h other

  unfoldable pub swap : H → H → H × H
  swap h other = swapped h other

  unfoldable pub null : H → Bool
  null h = is_null h

  unfoldable pub active : H → Option Bool
  active h = forward (λ q. q.active) h

  unfoldable pub deactivate : H → Option (Fifo T)
  unfolding UnboundedFifo.step
  deactivate h = forward (λ q. UnboundedFifo.step vacant q UnboundedFifo.close) h

  unfoldable pub empty : H → Option Bool
  unfolding UnboundedFifo.empty
  empty h = forward (UnboundedFifo.empty vacant) h

  -- The inner `none` is task_rejected.
  unfoldable pub put : H → T → Option (Option (Fifo T))
  unfolding put_call
  put h va = forward (λ q. put_call vacant q va) h

  unfoldable pub try_take : H → T → Option (Bool × T × Fifo T)
  unfolding UnboundedFifo.try_take
  try_take h va = forward (λ q. UnboundedFifo.try_take vacant is_vacant q va) h
