-- ===== src/Launch/Own.antt =====
-- include/boost/task/own_thread.hpp: a launch that runs the function at once in the caller's thread.
use boost_task.Prelude.{◌≡◌, refl, ap, ◌∙◌, Bool, true, Option, none, some, List, if◌then◌else◌}
use boost_task.Future
use boost_task.Future.{
  Object, World, Outcome, value, raises, Result, ok, throws, blocks, fault, rethrown, allocate,
  blank,
}
use boost_task.Future.Handle
use boost_task.Future.Promise
use boost_task.Future.Promise.{Promise, After, destroy}
use boost_task.Launch.{Store, Callable, TaskObject, make, make_with, run, settle}
use boost_task.Future.Delivery.{
  set_value-open, put-same, blank_done, blank_exception, destroyed_promise_answers,
}
use boost_task.Future.Laws.{get-done}

-- What a launch returns, by the way the function ended; and what the new future's `get` then does.
abbrev pub returned : {R E : Type 0} → TaskObject → Outcome R E → Result E (Option TaskObject)
returned t (value r) = ok (some t)
returned t (raises e) = throws (rethrown e)

abbrev pub obtained : {R E : Type 0} → E → Outcome R E → Result E R
obtained broken_promise (value r) = ok r
obtained broken_promise (raises e) = throws (rethrown broken_promise)

module _ {R E C F Fn : Type 0} (broken_promise : E)
    (call : Fn → World R E C F → World R E C F × Outcome R E) where
  -- At the end of the function, by return or by exception, the callable goes and with it the promise.
  finish :
      Store R E C F
      → Option TaskObject
      → After R E C F (Unit {0})
      → Result E (Unit {0})
      → Store R E C F × Result E (Option TaskObject)
  finish s t after (ok u) =
      (record s { world = destroy broken_promise after.world after.promise }, ok t)
  finish s t after (throws e) =
      (record s { world = destroy broken_promise after.world after.promise }, throws e)
  finish s t after blocks = (record s { world = after.world }, blocks)
  finish s t after fault = (record s { world = after.world }, fault)

  unfoldable pub launch_made :
      Store R E C F
      → Option (Callable Fn)
      → Result E (Option TaskObject)
      → Store R E C F × Result E (Option TaskObject)
  unfolding finish
  launch_made s (some ca) (ok t) = let after = run call s.world ca in finish s t after after.answer
  launch_made s none (ok t) = (s, fault)
  launch_made s ca (throws e) = (s, throws e)
  launch_made s ca blocks = (s, blocks)
  launch_made s ca fault = (s, fault)

  unfoldable pub own_thread : Store R E C F → Fn → Store R E C F × Result E (Option TaskObject)
  unfolding launch_made
  own_thread s fn = let made = make s fn in launch_made made.store made.callable made.task

  -- The callable and the task of a launch from the store `s`, and its store before the function runs.
  abbrev made_callable : Store R E C F → Fn → Callable Fn
  made_callable s fn = record {
    fn = fn;
    prom = record { future = some s.world.fresh; future_obtained = true };
    ctx = s.fresh_context;
  }

  abbrev made_task : Store R E C F → TaskObject
  made_task s = record { fut = some s.world.fresh; ctx = s.fresh_context }

  own_thread-ran :
      (s : Store R E C F) (fn : Fn) (w : World R E C F) (out : Outcome R E)
      → call fn (allocate s.world none) ≡ (w, out)
      → let after : After R E C F (Unit {0}) = settle call (made_callable s fn) w out in
        own_thread s fn ≡ finish (make s fn).store (some (made_task s)) after after.answer
  unfolding own_thread launch_made make make_with run Promise.get_future Promise.lazy_init
      Promise.lazy_from Promise.construct
  own_thread-ran s fn w out ran =
      ap
        (λ (r : World R E C F × Outcome R E).
          let after : After R E C F (Unit {0}) = settle call (made_callable s fn) r.0 r.1 in
          finish (make s fn).store (some (made_task s)) after after.answer)
        ran

  module _ (invoke : C → World R E C F → World R E C F) where
    -- `own_thread` on a function that leaves the new promise's state alone. If it returns a value, a task
    -- is returned whose future's `get` has the value, without sleeping. If it throws, own_thread
    -- throws the same, and the future's state has the broken promise instead of the exception.
    pub own_thread_lem :
        (s : Store R E C F) (fn : Fn) (w : World R E C F) (out : Outcome R E)
        (later : List (World R E C F))
        → call fn (allocate s.world none) ≡ (w, out)
        → w.objects s.world.fresh ≡ blank none
        → let result : Store R E C F × Result E (Option TaskObject) = own_thread s fn in
          (result.1 ≡ returned (record { fut = some s.world.fresh; ctx = s.fresh_context }) out)
          × (Handle.get invoke result.0.world (some s.world.fresh) later
              ≡ obtained broken_promise out)
    unfolding settle finish Handle.get Future.mark_finished_with_result_internal
        Future.mark_finished_internal
    own_thread_lem s fn w (value r) later ran left =
        let a = s.world.fresh in
        let p : Promise = record { future = some a; future_obtained = true } in
        let o = Future.mark_finished_with_result_internal (w.objects a) r in
        let w' = Future.put w a o in
        let there = put-same w a o in
        let done = ap (λ (x : Object R E C F). x.done) there in
        let ended =
          own_thread-ran s fn w (value r) ran
          ∙ ap
              (λ (after : After R E C F (Unit {0})).
                finish (make s fn).store (some (made_task s)) after after.answer)
              (set_value-open w a true r (blank_done none left)) in
        (
          ap (λ (x : Store R E C F × Result E (Option TaskObject)). x.1) ended,
          ap
                (λ (x : Store R E C F × Result E (Option TaskObject)).
                  Handle.get invoke x.0.world (some a) later)
                ended
              ∙ destroyed_promise_answers invoke broken_promise w' p a later refl
              ∙ ap
                  (λ (b : Bool).
                    if b
                    then Handle.get invoke w' (some a) later
                    else throws (rethrown broken_promise))
                  done
              ∙ get-done invoke w' a later r done
                  (ap (λ (x : Object R E C F). x.exception) there ∙ blank_exception none left)
                  (ap (λ (x : Object R E C F). x.result) there),
        )
    own_thread_lem s fn w (raises e) later ran left =
        let a = s.world.fresh in
        let p : Promise = record { future = some a; future_obtained = true } in
        let ended = own_thread-ran s fn w (raises e) ran in
        (
          ap (λ (x : Store R E C F × Result E (Option TaskObject)). x.1) ended,
          ap
                (λ (x : Store R E C F × Result E (Option TaskObject)).
                  Handle.get invoke x.0.world (some a) later)
                ended
              ∙ destroyed_promise_answers invoke broken_promise w p a later refl
              ∙ ap
                  (λ (b : Bool).
                    if b
                    then Handle.get invoke w (some a) later
                    else throws (rethrown broken_promise))
                  (blank_done none left),
        )
