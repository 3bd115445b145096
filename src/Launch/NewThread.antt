-- ===== src/Launch/NewThread.antt =====
-- include/boost/task/new_thread.hpp, and the overloads of include/boost/task/async.hpp for the two kinds of thread: a
-- launch that runs the function in a thread of its own. The task and the callable get a context each,
-- and the thread is attached to the task's.
pub mod Reach
use boost_task.Prelude.{ℕ, suc, Bool, true, false, Option, none, some, if◌then◌else◌}
use boost_task.Context
use boost_task.Context.{Context}
use boost_task.Future.{World, Outcome, Result, ok, throws, blocks, fault}
use boost_task.Future.Promise
use boost_task.Future.Promise.{After}
use boost_task.Future.Handle.{Handle}
use boost_task.Launch.{Store, Callable, TaskObject, put_context}
use boost_task.Launch
use boost_task.Launch.Own.{own_thread}

-- What a launch leaves: the thread that has been started has a copy of the callable.
pub record Launched (R E C F Fn : Type 0) : Type 0 where
  pub store : Store R E C F
  pub thread : Option (Callable Fn)
  pub task : Result E (Option TaskObject)

unfoldable pub after_reset : Context → Option Context → Context
after_reset c none = c
after_reset c (some c') = c'

module _ {R E C F : Type 0} where
  -- `ctx.reset( thrd)`
  unfoldable pub attach : Store R E C F → ℕ → ℕ → Store R E C F
  unfolding put_context Context.reset after_reset
  attach s ctx thrd =
      put_context s ctx (after_reset (s.contexts ctx) (Context.reset (s.contexts ctx) (some thrd)))

  -- `context ctx1, ctx2`
  unfoldable pub two_contexts : Store R E C F → Store R E C F
  unfolding put_context Context.construct
  two_contexts s =
      let s' = put_context s s.fresh_context Context.construct in
      record (put_context s' (suc s.fresh_context) Context.construct) {
        fresh_context = suc (suc s.fresh_context);
      }

module _ {R E C F Fn : Type 0} where
  -- From the future on; `thrd` is the new thread.
  unfoldable pub launch_with :
      Store R E C F → Fn → ℕ → After R E C F Handle → Result E Handle → Launched R E C F Fn
  unfolding two_contexts attach
  launch_with s fn thrd after (ok h) =
      let ctx1 : ℕ = s.fresh_context in
      let ctx2 : ℕ = suc s.fresh_context in
      record {
        store = attach (two_contexts (record s { world = after.world })) ctx1 thrd;
        thread = some (record { fn = fn; prom = after.promise; ctx = ctx2 });
        task = ok (some (record { fut = h; ctx = ctx1 }));
      }
  launch_with s fn thrd after (throws e) = record {
    store = record s { world = after.world };
    thread = none;
    task = throws e;
  }
  launch_with s fn thrd after blocks = record {
    store = record s { world = after.world };
    thread = none;
    task = blocks;
  }
  launch_with s fn thrd after fault = record {
    store = record s { world = after.world };
    thread = none;
    task = fault;
  }

  -- `none` is the failed assertion that the caller does not run in a pool.
  unfoldable pub new_thread : Bool → Store R E C F → Fn → ℕ → Option (Launched R E C F Fn)
  unfolding launch_with Promise.get_future Promise.construct
  new_thread runs_in_pool s fn thrd =
      let after = Promise.get_future s.world Promise.construct in
      if runs_in_pool then none else some (launch_with s fn thrd after after.answer)

  -- `async( fn)` and `async( fn, new_thread())`
  unfoldable pub async : Bool → Store R E C F → Fn → ℕ → Option (Launched R E C F Fn)
  unfolding new_thread
  async runs_in_pool s fn thrd = new_thread runs_in_pool s fn thrd

module _ {R E C F Fn : Type 0} (broken_promise : E)
    (call : Fn → World R E C F → World R E C F × Outcome R E) where
  -- `async( fn, own_thread())`
  unfoldable pub async_own : Store R E C F → Fn → Store R E C F × Result E (Option TaskObject)
  unfolding own_thread
  async_own s fn = own_thread broken_promise call s fn

  -- The end of the thread's function: with the callable goes its promise. An exception that leaves the
  -- function of a thread ends the program: `none`.
  unfoldable pub thread_ended :
      After R E C F (Unit {0}) → Result E (Unit {0}) → Option (World R E C F)
  unfolding Promise.destroy
  thread_ended after (ok u) = some (Promise.destroy broken_promise after.world after.promise)
  thread_ended after (throws e) = none
  thread_ended after blocks = some after.world
  thread_ended after fault = none

  -- The thread runs its callable in the world `w`.
  unfoldable pub thread_runs : World R E C F → Callable Fn → Option (World R E C F)
  unfolding thread_ended Launch.run
  thread_runs w ca = let after = Launch.run call w ca in thread_ended after after.answer
