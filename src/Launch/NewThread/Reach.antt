-- ===== src/Launch/NewThread/Reach.antt =====
-- What the task of a new thread gives its holder.
use boost_task.Prelude.{
  ℕ, suc, ◌≡◌, refl, ap, ◌∙◌, Bool, true, false, none, some, List, [], ◌∷◌, ◌==◌, if◌then◌else◌,
  arith,
}
use boost_task.Context
use boost_task.Context.{Context}
use boost_task.Future
use boost_task.Future.{
  Object, World, Outcome, value, raises, Result, ok, throws, rethrown, allocate, blank,
}
use boost_task.Future.Handle
use boost_task.Future.Promise
use boost_task.Future.Promise.{Promise, After}
use boost_task.Future.Delivery.{
  set_value-open, put-same, blank_done, blank_exception, destroyed_promise_answers,
}
use boost_task.Future.Laws.{get-done}
use boost_task.Launch
use boost_task.Launch.{Store, Callable, TaskObject, settle, put_context}
use boost_task.Launch.TaskHandle.{interrupt}
use boost_task.Launch.NewThread.{
  after_reset, new_thread, launch_with, attach, two_contexts, thread_runs, thread_ended,
}

module _ {R E C F : Type 0} where
  -- The task and the callable of a launch from the store `s`.
  abbrev pub task_of : Store R E C F → TaskObject
  task_of s = record { fut = some s.world.fresh; ctx = s.fresh_context }

module _ {R E C F Fn : Type 0} where
  abbrev pub callable_of : Store R E C F → Fn → Callable Fn
  callable_of s fn = record {
    fn = fn;
    prom = record { future = some s.world.fresh; future_obtained = true };
    ctx = suc s.fresh_context;
  }

module _ {R E C F : Type 0} where
  put_context-same : (s : Store R E C F) (a : ℕ) (c : Context) → (put_context s a c).contexts a ≡ c
  unfolding put_context
  put_context-same s a c =
      let same : (a == a) ≡ true = ground arith in
      ap (λ (b : Bool). if b then c else s.contexts a) same

  -- The first of two new contexts is blank.
  two_contexts-first :
      (s : Store R E C F) → (two_contexts s).contexts s.fresh_context ≡ Context.construct
  unfolding two_contexts put_context
  two_contexts-first s =
      let n = s.fresh_context in
      let other : (suc n == n) ≡ false = ground arith in
      ap
        (λ (b : Bool).
          if b then Context.construct else (put_context s n Context.construct).contexts n)
        other
      ∙ put_context-same s n Context.construct

  -- An interrupt of a thread that is attached to a new context.
  interrupt-attached :
      (s : Store R E C F) (thrd : ℕ)
      → (Context.interrupt
          ((attach (two_contexts s) s.fresh_context thrd).contexts s.fresh_context)).interrupted
        ≡ thrd ∷ []
  unfolding attach after_reset Context.reset Context.interrupt Context.construct
      Context.interrupt_thread
  interrupt-attached s thrd =
      let n = s.fresh_context in
      let c = (two_contexts s).contexts n in
      ap (λ (x : Context). (Context.interrupt x).interrupted)
        (put_context-same (two_contexts s) n (after_reset c (Context.reset c (some thrd)))
          ∙ ap (λ (x : Context). after_reset x (Context.reset x (some thrd)))
              (two_contexts-first s))

module _ {R E C F Fn : Type 0} (broken_promise : E)
    (call : Fn → World R E C F → World R E C F × Outcome R E)
    (invoke : C → World R E C F → World R E C F) where
  -- A launch in a new thread, from outside a pool, returns a task and a thread with the callable. Whenever
  -- that thread runs and the function returns a value and leaves the new promise's state alone, the
  -- thread ends and the task's future's get has the value, without sleeping. An interrupt of the task is one
  -- of that thread.
  pub new_thread_lem :
      (s : Store R E C F) (fn : Fn) (thrd : ℕ) (w w' : World R E C F) (r : R)
      (later : List (World R E C F))
      → call fn w ≡ (w', value r)
      → w'.objects s.world.fresh ≡ blank none
      → (s' : Store R E C F) × (ended : World R E C F) × (new_thread false s fn thrd
          ≡ some (record {
            store = s';
            thread = some (callable_of s fn);
            task = ok (some (task_of s));
          }))
        × (thread_runs broken_promise call w (callable_of s fn) ≡ some ended)
        × (Handle.get invoke ended (some s.world.fresh) later ≡ ok r)
        × (s'' : Store R E C F) × (interrupt s' (some (task_of s)) ≡ some s'')
        × ((s''.contexts s.fresh_context).interrupted ≡ thrd ∷ [])
  unfolding new_thread launch_with Promise.get_future Promise.lazy_init Promise.lazy_from
      Promise.construct thread_runs thread_ended Launch.run settle interrupt
      Future.mark_finished_with_result_internal Future.mark_finished_internal Handle.get
  new_thread_lem s fn thrd w w' r later ran left =
      let a = s.world.fresh in
      let p : Promise = record { future = some a; future_obtained = true } in
      let o = Future.mark_finished_with_result_internal (w'.objects a) r in
      let v = Future.put w' a o in
      let there = put-same w' a o in
      let done = ap (λ (x : Object R E C F). x.done) there in
      let s1 = record s { world = allocate s.world none } in
      let s' = attach (two_contexts s1) s.fresh_context thrd in
      let c' = Context.interrupt (s'.contexts s.fresh_context) in
      (
        s',
        Promise.destroy broken_promise v p,
        refl,
        ap
              (λ (x : World R E C F × Outcome R E).
                let after : After R E C F (Unit {0}) = settle call (callable_of s fn) x.0 x.1 in
                thread_ended broken_promise call after after.answer)
              ran
            ∙ ap
                (λ (after : After R E C F (Unit {0})).
                  thread_ended broken_promise call after after.answer)
                (set_value-open w' a true r (blank_done none left)),
        destroyed_promise_answers invoke broken_promise v p a later refl
            ∙ ap
                (λ (b : Bool).
                  if b
                  then Handle.get invoke v (some a) later
                  else throws (rethrown broken_promise))
                done
            ∙ get-done invoke v a later r done
                (ap (λ (x : Object R E C F). x.exception) there ∙ blank_exception none left)
                (ap (λ (x : Object R E C F). x.result) there),
        put_context s' s.fresh_context c',
        refl,
        ap (λ (x : Context). x.interrupted) (put_context-same s' s.fresh_context c')
            ∙ interrupt-attached s1 thrd,
      )
