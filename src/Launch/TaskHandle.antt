-- ===== src/Launch/TaskHandle.antt =====
-- include/boost/task/task.hpp and detail/task_object.hpp: the calls of a `task`, a pointer to a future and
-- a context. `none` is the failed assertion of a null task.
use boost_task.Prelude.{Bool, Option, none, some, List}
use boost_task.Context
use boost_task.Future.{World, Result}
use boost_task.Future.Handle
use boost_task.Launch.{Store, TaskObject, put_context}

-- Moves and `swap` exchange the pointers.
unfoldable pub move_construct : Option TaskObject → Option TaskObject × Option TaskObject
move_construct other = (other, none)

unfoldable pub swap : Option TaskObject → Option TaskObject → Option TaskObject × Option TaskObject
swap t other = (other, t)

unfoldable pub move_assign :
    Option TaskObject → Option TaskObject → Option TaskObject × Option TaskObject
unfolding move_construct swap
move_assign t other =
    let (tmp, other') = move_construct other in let (t', tmp') = swap t tmp in (t', other')

module _ {R E C F : Type 0} where
  unfoldable pub interruption_requested : Store R E C F → Option TaskObject → Option Bool
  unfolding Context.interruption_requested
  interruption_requested s none = none
  interruption_requested s (some t) = some (Context.interruption_requested (s.contexts t.ctx))

  unfoldable pub interrupt : Store R E C F → Option TaskObject → Option (Store R E C F)
  unfolding put_context Context.interrupt
  interrupt s none = none
  interrupt s (some t) = some (put_context s t.ctx (Context.interrupt (s.contexts t.ctx)))

module _ {R E C F : Type 0} (invoke : C → World R E C F → World R E C F) where
  unfoldable pub wait :
      Store R E C F → Option TaskObject → List (World R E C F) → Option (Result E (World R E C F))
  unfolding Handle.wait
  wait s none later = none
  wait s (some t) later = some (Handle.wait invoke s.world t.fut later)

  unfoldable pub wait_until :
      Store R E C F → Option TaskObject → List (Bool × World R E C F) → Option (Result E Bool)
  unfolding Handle.timed_wait_until
  wait_until s none later = none
  wait_until s (some t) later = some (Handle.timed_wait_until invoke s.world t.fut later)

  -- The store after the request, and the answer of the wait.
  unfoldable pub interrupt_and_wait :
      Store R E C F
      → Option TaskObject
      → List (World R E C F)
      → Option (Store R E C F × Result E (World R E C F))
  unfolding put_context Context.interrupt Handle.wait
  interrupt_and_wait s none later = none
  interrupt_and_wait s (some t) later =
      let s' = put_context s t.ctx (Context.interrupt (s.contexts t.ctx)) in
      some (s', Handle.wait invoke s'.world t.fut later)
