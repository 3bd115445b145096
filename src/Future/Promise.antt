-- ===== src/Future/Promise.antt =====
-- include/boost/task/spin/future.hpp: `promise<R>`; `promise<void>` is the same with a result of one value.
use boost_task.Prelude.{ℕ, Bool, true, false, Option, none, some, List, [], ◌∷◌, if◌then◌else◌}
use boost_task.Future.{
  Object, World, Result, ok, throws, future_already_retrieved, promise_already_satisfied, put,
  allocate, mark_exceptional_finish_internal, mark_finished_with_result_internal, set_wait_callback,
}
use boost_task.Future.Handle.{Handle}

pub record Promise : Type 0 where
  pub future : Option ℕ
  pub future_obtained : Bool

unfoldable pub construct : Promise
construct = record { future = none; future_obtained = false }

-- A move returns the target and the source.
unfoldable pub move_construct : Promise → Promise × Promise
move_construct rhs = (rhs, record rhs { future = none })

unfoldable pub move_assign : Promise → Promise → Promise × Promise
move_assign p rhs = (rhs, record rhs { future = none })

unfoldable pub swap : Promise → Promise → Promise × Promise
swap p other = (other, p)

-- What a call leaves, and how it ends: an exception too may come after a change of the world.
pub record After (R E C F A : Type 0) : Type 0 where
  pub world : World R E C F
  pub promise : Promise
  pub answer : Result E A

module _ {R E C F : Type 0} where
  -- The promise has a state afterwards, at the address that is returned.
  unfoldable pub lazy_from : World R E C F → Promise → Option ℕ → World R E C F × Promise × ℕ
  lazy_from w p none =
      (allocate w none, record { future = some w.fresh; future_obtained = false }, w.fresh)
  lazy_from w p (some a) = (w, p, a)

  unfoldable pub lazy_init : World R E C F → Promise → World R E C F × Promise × ℕ
  unfolding lazy_from allocate
  lazy_init w p = lazy_from w p p.future

  unfoldable pub get_future : World R E C F → Promise → After R E C F Handle
  get_future w p =
      let (w', p', a) = lazy_init w p in
      if p'.future_obtained
      then record { world = w'; promise = p'; answer = throws future_already_retrieved }
      else record {
        world = w';
        promise = record p' { future_obtained = true };
        answer = ok (some a);
      }

  -- `set_value` and `set_exception` finish a state that is not done.
  unfoldable pub finish_with :
      World R E C F → Promise → (Object R E C F → Object R E C F) → After R E C F (Unit {0})
  finish_with w p finish =
      let (w', p', a) = lazy_init w p in
      if (w'.objects a).done
      then record { world = w'; promise = p'; answer = throws promise_already_satisfied }
      else record { world = put w' a (finish (w'.objects a)); promise = p'; answer = ok tt }

  unfoldable pub set_value : World R E C F → Promise → R → After R E C F (Unit {0})
  unfolding finish_with
  set_value w p r = finish_with w p (λ o. mark_finished_with_result_internal o r)

  unfoldable pub set_exception : World R E C F → Promise → E → After R E C F (Unit {0})
  unfolding finish_with
  set_exception w p e = finish_with w p (λ o. mark_exceptional_finish_internal o e)

  unfoldable pub set_callback : World R E C F → Promise → C → World R E C F × Promise
  set_callback w p c =
      let (w', p', a) = lazy_init w p in (put w' a (set_wait_callback (w'.objects a) c), p')

module _ {R E C F : Type 0} (broken_promise : E) where
  unfoldable pub destroy_at : World R E C F → Option ℕ → World R E C F
  destroy_at w none = w
  destroy_at w (some a) =
      if (w.objects a).done
      then w
      else put w a (mark_exceptional_finish_internal (w.objects a) broken_promise)

  -- `~promise`
  unfoldable pub destroy : World R E C F → Promise → World R E C F
  unfolding destroy_at
  destroy w p = destroy_at w p.future

-- Calls on one promise variable; after `destroy` a new promise stands in its place.
pub data Op (R E C : Type 0) : Type 0 where
  retrieve : Op R E C
  give : R → Op R E C
  fail : E → Op R E C
  watch : C → Op R E C
  renew : Op R E C

module _ {R E C F : Type 0} (broken_promise : E) where
  unfoldable pub step : Op R E C → World R E C F → Promise → World R E C F × Promise
  unfolding get_future set_value set_exception set_callback destroy construct
  step retrieve w p = let after = get_future w p in (after.world, after.promise)
  step (give r) w p = let after = set_value w p r in (after.world, after.promise)
  step (fail e) w p = let after = set_exception w p e in (after.world, after.promise)
  step (watch c) w p = set_callback w p c
  step renew w p = (destroy broken_promise w p, construct)

  unfoldable pub run : List (Op R E C) → World R E C F → Promise → World R E C F × Promise
  run [] w p = (w, p)
  run (op ∷ ops) w p = let (w', p') = step op w p in run ops w' p'
