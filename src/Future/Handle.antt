-- ===== src/Future/Handle.antt =====
-- include/boost/task/spin/future.hpp: `unique_future` and `shared_future`, pointers to a shared state that
-- may be null. A move returns the new value of the target and of the source.
use boost_task.Prelude.{ℕ, Bool, true, false, Option, none, some, List}
use boost_task.Future
use boost_task.Future.{
  Object, World, State, uninitialized, waiting, ready, moved, Result, ok, throws, blocks, fault,
  future_uninitialized,
}

abbrev pub Handle : Type 0
Handle = Option ℕ

-- The move constructors and assignments. `unique` is shared by both classes where they agree.
unfoldable pub move_construct : Handle → Handle × Handle
move_construct other = (other, none)

-- Of `unique_future`: `future=other.future; other.future.reset()`.
unfoldable pub move_assign : Handle → Handle → Handle × Handle
move_assign future other = (other, none)

-- Of `shared_future`: `future.swap(other.future); other.future.reset()`.
unfoldable pub shared_move_assign : Handle → Handle → Handle × Handle
shared_move_assign future other = let (a, b) : Handle × Handle = (other, future) in (a, none)

-- Copies of `shared_future`: both refer to the state.
unfoldable pub copy : Handle → Handle × Handle
copy other = (other, other)

unfoldable pub swap : Handle → Handle → Handle × Handle
swap future other = (other, future)

is_ready_state : State → Bool
is_ready_state ready = true
is_ready_state uninitialized = false
is_ready_state waiting = false
is_ready_state moved = false

module _ {R E C F : Type 0} where
  unfoldable pub get_state : World R E C F → Handle → State
  unfolding Future.get_state
  get_state w none = uninitialized
  get_state w (some a) = Future.get_state (w.objects a)

  unfoldable pub is_ready : World R E C F → Handle → Bool
  unfolding get_state is_ready_state
  is_ready w h = is_ready_state (get_state w h)

  unfoldable pub has_exception : World R E C F → Handle → Bool
  unfolding Future.has_exception
  has_exception w none = false
  has_exception w (some a) = Future.has_exception (w.objects a)

  unfoldable pub has_value : World R E C F → Handle → Bool
  unfolding Future.has_value
  has_value w none = false
  has_value w (some a) = Future.has_value (w.objects a)

module _ {R E C F : Type 0} (invoke : C → World R E C F → World R E C F) where
  unfoldable pub get : World R E C F → Handle → List (World R E C F) → Result E R
  unfolding Future.get
  get w none later = throws future_uninitialized
  get w (some a) later = Future.get invoke w a later

  unfoldable pub wait : World R E C F → Handle → List (World R E C F) → Result E (World R E C F)
  unfolding Future.wait
  wait w none later = throws future_uninitialized
  wait w (some a) later = Future.wait invoke w a false later

  timed_end : Option Bool → Result E Bool
  timed_end none = blocks
  timed_end (some b) = ok b

  unfoldable pub timed_wait_until :
      World R E C F → Handle → List (Bool × World R E C F) → Result E Bool
  unfolding Future.timed_wait_until timed_end
  timed_wait_until w none later = throws future_uninitialized
  timed_wait_until w (some a) later = timed_end (Future.timed_wait_until invoke w a later)
