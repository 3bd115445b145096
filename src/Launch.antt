-- ===== src/Launch.antt =====
-- include/boost/task/callable.hpp, src/callable.cpp, task.hpp, detail/task_object.hpp, own_thread.hpp and
-- the first half of `submit` in detail/pool_base.hpp: what is made of a function that is launched, and
-- its run. The promises are those of spin/future.hpp (Future), whose set_value is the sources' `set`.
pub mod TaskHandle
pub mod Own
pub mod NewThread
mod Tests
use boost_task.Prelude.{ℕ, suc, Bool, true, false, Option, none, some, ◌==◌, if◌then◌else◌}
use boost_task.Context
use boost_task.Context.{Context}
use boost_task.Future.{World, Outcome, value, raises, Result, ok, throws, blocks, fault, rethrown}
use boost_task.Future.Promise
use boost_task.Future.Promise.{Promise, After}
use boost_task.Future.Handle.{Handle}

-- The states of futures, and the `context_base` objects by their addresses.
pub record Store (R E C F : Type 0) : Type 0 where
  pub world : World R E C F
  pub contexts : ℕ → Context
  pub fresh_context : ℕ

-- `callable_object`; `callable` itself is an Option of it, `none` the empty one.
pub record Callable (Fn : Type 0) : Type 0 where
  pub fn : Fn
  pub prom : Promise
  pub ctx : ℕ

-- `task_object`; `task` is an Option of it.
pub record TaskObject : Type 0 where
  pub fut : Handle
  pub ctx : ℕ

abbrev pub empty : {Fn : Type 0} → Option (Callable Fn) → Bool
empty none = true
empty (some ca) = false

-- What making a callable and its task leaves; a refused future ends it by that exception.
pub record Made (R E C F Fn : Type 0) : Type 0 where
  pub store : Store R E C F
  pub callable : Option (Callable Fn)
  pub task : Result E (Option TaskObject)

module _ {R E C F : Type 0} where
  unfoldable pub put_context : Store R E C F → ℕ → Context → Store R E C F
  put_context s a c = record s { contexts = λ b. if a == b then c else s.contexts b }

module _ {R E C F Fn : Type 0} where
  unfoldable pub make_with :
      Store R E C F → Fn → After R E C F Handle → Result E Handle → Made R E C F Fn
  unfolding put_context Context.construct
  make_with s fn after (ok h) =
      let ctx : ℕ = s.fresh_context in
      record {
        store =
            put_context (record s { world = after.world; fresh_context = suc ctx }) ctx
              Context.construct;
        callable = some (record { fn = fn; prom = after.promise; ctx = ctx });
        task = ok (some (record { fut = h; ctx = ctx }));
      }
  make_with s fn after (throws e) = record {
    store = record s { world = after.world };
    callable = none;
    task = throws e;
  }
  make_with s fn after blocks = record {
    store = record s { world = after.world };
    callable = none;
    task = blocks;
  }
  make_with s fn after fault = record {
    store = record s { world = after.world };
    callable = none;
    task = fault;
  }

  -- `promise< R > prom; shared_future< R > f( prom.get_future() ); context ctx; task< R > t( f, ctx)`, and
  -- the callable.
  unfoldable pub make : Store R E C F → Fn → Made R E C F Fn
  unfolding make_with Promise.get_future Promise.construct
  make s fn =
      let after = Promise.get_future s.world Promise.construct in make_with s fn after after.answer

-- `call` is what the function does to the world, and how it ends.
module _ {R E C F Fn : Type 0} (call : Fn → World R E C F → World R E C F × Outcome R E) where
  -- `d->prom_.set( d->fn_() )`, after the function.
  unfoldable pub settle : Callable Fn → World R E C F → Outcome R E → After R E C F (Unit {0})
  unfolding Promise.set_value
  settle ca w (value r) = Promise.set_value w ca.prom r
  settle ca w (raises e) = record { world = w; promise = ca.prom; answer = throws (rethrown e) }

  unfoldable pub run : World R E C F → Callable Fn → After R E C F (Unit {0})
  unfolding settle
  run w ca = let (w', out) = call ca.fn w in settle ca w' out

  -- `callable::operator()`: the base is null in an empty one.
  unfoldable pub invoke :
      World R E C F
      → Option (Callable Fn)
      → World R E C F × Option (Callable Fn) × Result E (Unit {0})
  unfolding run
  invoke w none = (w, none, fault)
  invoke w (some ca) =
      let after = run w ca in (after.world, some (record ca { prom = after.promise }), after.answer)
