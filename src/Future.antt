-- ===== src/Future.antt =====
-- include/boost/task/spin/future.hpp: the shared state of a promise or a packaged task and its futures. A
-- shared_ptr to a `future_object` is an address in a `World`; here are the object's own members, in the
-- children those of the handles. A mutex is held within one call, so a call is one function.
pub mod Handle
pub mod Promise
pub mod Task
pub mod Waiter
pub mod Inv
pub mod Laws
pub mod Delivery
pub mod Abandoned
pub mod Running
pub mod Locks
pub mod AnyOf
pub mod Void
mod Tests
use boost_task.Prelude.{
  ℕ, zero, suc, ◌+◌, ◌≡◌, Bool, true, false, not, ◌&&◌, Option, none, some, List, [], ◌∷◌, ◌==◌,
  if◌then◌else◌,
}

-- `future_object<R>` with its bases, and what `task_object` adds: the flag `started` and the functor. An
-- exception_ptr is an `E`, a functor of a task an `F`, a callback a `C`; `notified` counts the calls
-- that woke the waiters, registered ones too.
pub record Object (R E C F : Type 0) : Type 0 where
  pub exception : Option E
  pub done : Bool
  pub callback : Option C
  pub result : Option R
  pub notified : ℕ
  pub started : Bool
  pub fn : Option F

-- The heap of shared states. An address is not used twice, since a state lives as long as a handle to it.
pub record World (R E C F : Type 0) : Type 0 where
  pub objects : ℕ → Object R E C F
  pub fresh : ℕ

pub data State : Type 0 where
  uninitialized waiting ready moved : State

-- What a call of user code does: it returns or throws.
pub data Outcome (R E : Type 0) : Type 0 where
  value : R → Outcome R E
  raises : E → Outcome R E

pub data Error (E : Type 0) : Type 0 where
  future_uninitialized future_already_retrieved promise_already_satisfied : Error E
  task_already_started task_moved : Error E
  rethrown : E → Error E

-- How a call ends: with a value, by an exception, asleep until another thread acts, or by a read through
-- a null pointer.
pub data Result (E A : Type 0) : Type 0 where
  ok : A → Result E A
  throws : Error E → Result E A
  blocks : Result E A
  fault : Result E A

abbrev pub is_some : {A : Type 0} → Option A → Bool
is_some none = false
is_some (some a) = true

-- What `rethrow` makes of a finished state.
unfoldable pub rethrow_or : {E A : Type 0} → Option E → A → Result E A
rethrow_or none a = ok a
rethrow_or (some e) a = throws (rethrown e)

-- `*result`
unfoldable pub deref : {E R : Type 0} → Option R → Result E R
deref none = fault
deref (some r) = ok r

module _ {R E C F : Type 0} where
  unfoldable pub put : World R E C F → ℕ → Object R E C F → World R E C F
  put w a o = record w { objects = λ b. if a == b then o else w.objects b }

  unfoldable pub blank : Option F → Object R E C F
  blank fn = record {
    exception = none;
    done = false;
    callback = none;
    result = none;
    notified = 0;
    started = false;
    fn = fn;
  }

  -- `new future_object<R>` or `new task_object<R,F>( f)`
  unfoldable pub allocate : World R E C F → Option F → World R E C F
  unfolding put blank
  allocate w fn = record (put w w.fresh (blank fn)) { fresh = suc w.fresh }

  unfoldable pub mark_finished_internal : Object R E C F → Object R E C F
  mark_finished_internal o = record o { done = true; notified = o.notified + 1 }

  unfoldable pub mark_exceptional_finish_internal : Object R E C F → E → Object R E C F
  unfolding mark_finished_internal
  mark_exceptional_finish_internal o e = mark_finished_internal (record o { exception = some e })

  unfoldable pub mark_finished_with_result_internal : Object R E C F → R → Object R E C F
  unfolding mark_finished_internal
  mark_finished_with_result_internal o r = mark_finished_internal (record o { result = some r })

  unfoldable pub has_value : Object R E C F → Bool
  has_value o = o.done && not (is_some o.exception)

  unfoldable pub has_exception : Object R E C F → Bool
  has_exception o = o.done && is_some o.exception

  unfoldable pub get_state : Object R E C F → State
  get_state o = if not o.done then waiting else ready

  unfoldable pub set_wait_callback : Object R E C F → C → Object R E C F
  set_wait_callback o c = record o { callback = some c }

module _ {R E C F : Type 0} (invoke : C → World R E C F → World R E C F) where
  invoke_some : World R E C F → Option C → World R E C F
  invoke_some w none = w
  invoke_some w (some c) = invoke c w

  -- The callback runs with the lock released; `invoke` is what it does to the world.
  unfoldable pub do_callback : World R E C F → ℕ → World R E C F
  unfolding invoke_some
  do_callback w a = if (w.objects a).done then w else invoke_some w (w.objects a).callback

  -- `while(!done) waiters.wait(lock)`: the list holds the worlds in which the caller is woken.
  unfoldable pub wait_loop : World R E C F → ℕ → List (World R E C F) → Option (World R E C F)
  wait_loop w a [] = if (w.objects a).done then some w else none
  wait_loop w a (w' ∷ later) =
      let rest = wait_loop w' a later in if (w.objects a).done then some w else rest

  unfoldable pub wait_end : Bool → ℕ → Option (World R E C F) → Result E (World R E C F)
  wait_end rethrow a none = blocks
  wait_end rethrow a (some w) = if rethrow then rethrow_or (w.objects a).exception w else ok w

  unfoldable pub wait : World R E C F → ℕ → Bool → List (World R E C F) → Result E (World R E C F)
  unfolding do_callback wait_loop wait_end rethrow_or
  wait w a rethrow later = wait_end rethrow a (wait_loop (do_callback w a) a later)

  unfoldable pub get_end : ℕ → Result E (World R E C F) → Result E R
  get_end a (ok w) = deref (w.objects a).result
  get_end a (throws e) = throws e
  get_end a blocks = blocks
  get_end a fault = fault

  unfoldable pub get : World R E C F → ℕ → List (World R E C F) → Result E R
  unfolding wait get_end deref
  get w a later = get_end a (wait w a true later)

  -- The loop of `timed_wait_until`: each wake-up comes with the answer of the condition's timed wait.
  unfoldable pub timed_loop : World R E C F → ℕ → List (Bool × World R E C F) → Option Bool
  timed_loop w a [] = if (w.objects a).done then some true else none
  timed_loop w a ((success, w') ∷ later) =
      let rest = timed_loop w' a later in
      if (w.objects a).done
      then some true
      else if not success && not (w'.objects a).done
      then some false
      else rest

  unfoldable pub timed_wait_until : World R E C F → ℕ → List (Bool × World R E C F) → Option Bool
  unfolding do_callback timed_loop
  timed_wait_until w a later = timed_loop (do_callback w a) a later
