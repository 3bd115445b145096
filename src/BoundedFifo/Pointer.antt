-- ===== src/BoundedFifo/Pointer.antt =====
-- The class `bounded_fifo` of include/boost/task/bounded_fifo.hpp, a handle to its base. A call through it
-- begins the call of the base, whose steps follow.
use boost_task.Prelude.{ℕ, Bool, true, false, Option, none, some, ◌==◌, ◌&&◌, if◌then◌else◌}
use boost_task.Handle.{taken_from, swapped, assigned_from, is_null, forward}
use boost_task.BoundedFifo
use boost_task.BoundedFifo.{
  Fifo, Put, begin_put, begin_take, begin_deactivate, producer_is_free, consumer_is_free,
}

module _ {T : Type 0} (vacant : T) (is_empty : T → Bool) where
  abbrev H : Type 0
  H = Option (Fifo T)

  unfoldable pub construct : ℕ → ℕ → H
  unfolding BoundedFifo.construct
  construct hwm lwm = some (BoundedFifo.construct vacant hwm lwm)

  unfoldable pub move_construct : H → H × H
  move_construct other = taken_from other

  -- `same` says that the two are one object.
  unfoldable pub move_assign : Bool → H → H → H × H
  move_assign same h other = if same then (h, other) else assigned_from h other

  unfoldable pub swap : H → H → H × H
  swap h other = swapped h other

  unfoldable pub null : H → Bool
  null h = is_null h

  unfoldable pub upper_bound : H → Option ℕ
  upper_bound h = forward (λ q. q.hwm) h

  unfoldable pub lower_bound : H → Option ℕ
  lower_bound h = forward (λ q. q.lwm) h

  unfoldable pub active : H → Option Bool
  active h = forward (λ q. q.active) h

  unfoldable pub deactivate : H → Option (Fifo T)
  unfolding BoundedFifo.step
  deactivate h = forward (BoundedFifo.step vacant is_empty begin_deactivate) h

  -- `empty` of the base, which takes the two locks one inside the other: `none` while one is held.
  unfoldable pub base_empty : Fifo T → Option Bool
  unfolding producer_is_free consumer_is_free
  base_empty q =
      if producer_is_free q.producer && consumer_is_free q.consumer
      then some (q.head == q.tail)
      else none

  unfoldable pub empty : H → Option (Option Bool)
  unfolding base_empty
  empty h = forward base_empty h

  unfoldable pub put : H → T → Option (Fifo T)
  unfolding BoundedFifo.step
  put h va =
      forward (BoundedFifo.step vacant is_empty (begin_put (record { va = va; timed = false }))) h

  unfoldable pub timed_put : H → T → Option (Fifo T)
  unfolding BoundedFifo.step
  timed_put h va =
      forward (BoundedFifo.step vacant is_empty (begin_put (record { va = va; timed = true }))) h

  unfoldable pub try_take : H → T → Option (Fifo T)
  unfolding BoundedFifo.step
  try_take h va = forward (BoundedFifo.step vacant is_empty (begin_take va)) h
