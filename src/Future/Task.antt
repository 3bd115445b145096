-- ===== src/Future/Task.antt =====
-- include/boost/task/spin/future.hpp: `task_base`, `task_object` and `packaged_task`.
use boost_task.Prelude.{ℕ, Bool, true, false, Option, none, some, if◌then◌else◌}
use boost_task.Future.{
  World, Outcome, value, raises, Result, ok, throws, fault, future_already_retrieved,
  task_already_started, task_moved, put, allocate, mark_exceptional_finish_internal,
  mark_finished_with_result_internal, set_wait_callback,
}
use boost_task.Future.Handle.{Handle}

pub record PackagedTask : Type 0 where
  pub task : Option ℕ
  pub future_obtained : Bool

unfoldable pub move_construct : PackagedTask → PackagedTask × PackagedTask
move_construct other = (other, record { task = none; future_obtained = false })

unfoldable pub swap : PackagedTask → PackagedTask → PackagedTask × PackagedTask
swap t other = (other, t)

-- The old task of the target goes with the temporary, whose destructor runs: see `destroy`.
unfoldable pub move_assign :
    PackagedTask → PackagedTask → PackagedTask × PackagedTask × PackagedTask
unfolding move_construct swap
move_assign t other =
    let (temp, other') = move_construct other in
    let (t', temp') = swap t temp in (t', other', temp')

unfoldable pub get_future : {E : Type 0} → PackagedTask → PackagedTask × Result E Handle
get_future t = elim t.task [
  | none ↦ (t, throws task_moved)
  | some a ↦
      if t.future_obtained
      then (t, throws future_already_retrieved)
      else (record t { future_obtained = true }, ok (some a))
]

module _ {R E C F : Type 0} where
  unfoldable pub construct : World R E C F → F → World R E C F × PackagedTask
  unfolding allocate
  construct w f = (allocate w (some f), record { task = some w.fresh; future_obtained = false })

  unfoldable pub set_callback : World R E C F → PackagedTask → C → Result E (World R E C F)
  unfolding set_wait_callback
  set_callback w t c = elim t.task [
    | none ↦ fault
    | some a ↦ ok (put w a (set_wait_callback (w.objects a) c))
  ]

  -- `task_base::run` up to `do_run`
  unfoldable pub start : World R E C F → ℕ → World R E C F
  start w a = put w a (record (w.objects a) { started = true })

  -- The end of `do_run`, on the object as the functor has left it.
  unfoldable pub deliver : World R E C F → ℕ → Outcome R E → World R E C F
  deliver w a (value r) = put w a (mark_finished_with_result_internal (w.objects a) r)
  deliver w a (raises e) = put w a (mark_exceptional_finish_internal (w.objects a) e)

-- `call` is what a functor does to the world, and how it ends.
module _ {R E C F : Type 0} (call : F → World R E C F → World R E C F × Outcome R E) where
  unfoldable pub do_run : World R E C F → ℕ → Option F → World R E C F × Result E (Unit {0})
  do_run w a none = (w, fault)
  do_run w a (some f) = let (w', out) = call f w in (deliver w' a out, ok tt)

  unfoldable pub run : World R E C F → ℕ → World R E C F × Result E (Unit {0})
  unfolding do_run
  run w a =
      if (w.objects a).started
      then (w, throws task_already_started)
      else do_run (start w a) a (w.objects a).fn

  -- `operator()`
  unfoldable pub invoke_task : World R E C F → PackagedTask → World R E C F × Result E (Unit {0})
  invoke_task w t = elim t.task [ none ↦ (w, throws task_moved) | some a ↦ run w a ]

module _ {R E C F : Type 0} (broken_promise : E) where
  unfoldable pub owner_destroyed : World R E C F → ℕ → World R E C F
  owner_destroyed w a =
      if (w.objects a).started
      then w
      else put w a (
          mark_exceptional_finish_internal (record (w.objects a) { started = true }) broken_promise)

  -- `~packaged_task`
  unfoldable pub destroy : World R E C F → PackagedTask → World R E C F
  unfolding owner_destroyed
  destroy w t = elim t.task [ none ↦ w | some a ↦ owner_destroyed w a ]
