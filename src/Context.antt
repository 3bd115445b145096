-- ===== src/Context.antt =====
-- include/boost/task/context.hpp and src/context.cpp: the interruption request of a task. All calls on one
-- `context_base` hold its mutex; a `context` points to it for good, so it is not a type of its own.
mod Delivery
mod Tests
use boost_task.Prelude.{
  ℕ, Bool, true, false, not, ◌&&◌, Option, none, some, List, [], ◌∷◌, ◌++◌, if◌then◌else◌,
}

-- A thread is a number; `interrupted` lists the calls of `thread::interrupt`, in their order.
pub record Context : Type 0 where
  pub requested : Bool
  pub thrd : Option ℕ
  pub interrupted : List ℕ

unfoldable pub construct : Context
construct = record { requested = false; thrd = none; interrupted = [] }

-- `if ( thrd_) thrd_->interrupt()`
unfoldable pub interrupt_thread : Context → Option ℕ → Context
interrupt_thread c none = c
interrupt_thread c (some t) = record c { interrupted = c.interrupted ++ (t ∷ []) }

-- `none` is the failed assertion of a null thread.
unfoldable pub reset : Context → Option ℕ → Option Context
unfolding interrupt_thread
reset c none = none
reset c (some t) =
    let c' : Context = record c { thrd = some t } in
    some (if c'.requested then interrupt_thread c' c'.thrd else c')

unfoldable pub interrupt : Context → Context
unfolding interrupt_thread
interrupt c = if not c.requested then interrupt_thread (record c { requested = true }) c.thrd else c

unfoldable pub interruption_requested : Context → Bool
interruption_requested c = c.requested

pub data Op : Type 0 where
  attach : ℕ → Op
  request : Op

after_reset : Context → Option Context → Context
after_reset c none = c
after_reset c (some c') = c'

unfoldable pub run : Context → List Op → Context
unfolding reset interrupt after_reset
run c [] = c
run c (attach t ∷ ops) = run (after_reset c (reset c (some t))) ops
run c (request ∷ ops) = run (interrupt c) ops
