-- ===== src/Future/Tests.antt =====
-- Runs of the promises, tasks and futures of include/boost/task/spin/future.hpp.
use boost_task.Prelude.{ℕ, ◌+◌, ◌≡◌, ◌⊎◌, refl, true, false, none, some, List, [], ◌∷◌, arith}
use boost_task.Future.{
  Object, World, Outcome, value, raises, Result, ok, throws, blocks, rethrown,
  future_already_retrieved, promise_already_satisfied, task_already_started, put, blank, allocate,
  mark_finished_with_result_internal, mark_finished_internal,
}
use boost_task.Future.Handle
use boost_task.Future.Handle.{Handle}
use boost_task.Future.Promise
use boost_task.Future.Promise.{
  Promise, After, Op, give, fail, renew, retrieve, watch, set_value, move_assign, destroy, step,
}
use boost_task.Future.Task
use boost_task.Future.Task.{PackagedTask, start}
use boost_task.Future.Waiter.{spins, wait_for_any, empty, add_all}
use boost_task.Future.Inv.{Settled, done_for_good}
use boost_task.Future.Delivery.{delivers}
use boost_task.Future.Abandoned.{move_assign_abandons}
use boost_task.Future.Running.{run_once}
use boost_task.Future.Locks.{SharesState, AllDistinct}
use boost_task.Future.AnyOf.{Answers, wait_for_any_lem}

-- Numbers for results, exceptions, callbacks and functors: the callback `a` gives the state at `a` the
-- value 9, the functor `f` returns `f + 1`.
abbrev Heap : Type 0
Heap = World ℕ ℕ ℕ ℕ

abbrev poll : ℕ → Heap → Heap
unfolding put mark_finished_with_result_internal mark_finished_internal
poll a w = put w a (mark_finished_with_result_internal (w.objects a) 9)

abbrev succeed : ℕ → Heap → Heap × Outcome ℕ ℕ
succeed f w = (w, value (f + 1))

abbrev nothing : Heap
unfolding blank
nothing = record { objects = λ a. blank none; fresh = 0 }

-- One state, of a promise.
abbrev one_state : Heap
unfolding allocate
one_state = allocate nothing none

-- One state, of a task with the functor 4.
abbrev one_task : Heap
unfolding allocate
one_task = allocate nothing (some 4)

abbrev owner : Promise
owner = record { future = some 0; future_obtained = true }

abbrev finished : Heap
unfolding set_value
finished = (set_value one_state owner 7).world

-- A future whose promise is polled by its callback gets the callback's value.
get-polled : Handle.get poll (Promise.set_callback one_state owner 0).0 (some 0) [] ≡ ok 9
unfolding Handle.get Promise.set_callback put Promise.lazy_init boost_task.Future.set_wait_callback
    poll
get-polled = refl

-- A wait that is woken twice, the second time with the state done.
wait-woken : Handle.get poll one_state (some 0) (one_state ∷ finished ∷ []) ≡ ok 7
unfolding Handle.get one_state finished Promise.lazy_init mark_finished_with_result_internal
wait-woken = refl

done_for_good_example :
    Settled 0 none (some 7) (Promise.run 5 (give 8 ∷ fail 1 ∷ renew ∷ give 3 ∷ []) finished owner).0
unfolding finished Promise.lazy_init mark_finished_with_result_internal
done_for_good_example =
    done_for_good 5 (give 8 ∷ fail 1 ∷ renew ∷ give 3 ∷ []) finished owner finished-Settled
  where
    finished-Settled : Settled 0 none (some 7) finished
    finished-Settled = record { old = omega arith; done = refl; exception = refl; result = refl }

delivers_example :
    let one : After ℕ ℕ ℕ ℕ Handle = Promise.get_future one_state Promise.construct in
    let two = set_value one.world one.promise 3 in
    (one.answer ≡ ok (some one_state.fresh))
    × (Promise.get_future one.world one.promise).answer ≡ throws future_already_retrieved
    × (two.answer ≡ ok tt)
    × (Handle.get poll two.world (some one_state.fresh) [] ≡ ok 3)
    × (set_value two.world two.promise 4 ≡ record {
      world = two.world;
      promise = two.promise;
      answer = throws promise_already_satisfied;
    })
delivers_example = delivers poll one_state 3 4 []

-- The target had handed out a future; the source is new.
move_assign_abandons_example :
    ((Promise.run 5
        (give 8 ∷ renew ∷ [])
        one_state
        (move_assign owner Promise.construct).0).0.objects
      0).done
    ≡ false
unfolding one_state Promise.construct
move_assign_abandons_example =
    move_assign_abandons 5 (give 8 ∷ renew ∷ []) one_state owner Promise.construct 0 refl
      (omega arith) refl (λ same. cc same)

run_once_example :
    ((Task.run succeed one_task 0).1 ≡ ok tt)
    × (Handle.get poll (Task.run succeed one_task 0).0 (some 0) [] ≡ ok 5)
    × (Task.run succeed (Task.run succeed one_task 0).0 0
        ≡ ((Task.run succeed one_task 0).0, throws task_already_started))
unfolding one_task start
run_once_example =
    run_once poll succeed one_task 0 4 (start one_task 0) (value 5) [] refl refl refl refl refl

-- A null future and one that is done when the wait is woken.
wait_for_any_lem_example :
    let hs : List Handle = none ∷ some 0 ∷ [] in
    (SharesState hs × (wait_for_any poll one_state hs (finished ∷ []) ≡ spins))
    ⊎ (AllDistinct hs
        × Answers hs
            (add_all poll one_state empty hs).0
            (finished ∷ [])
            (wait_for_any poll one_state hs (finished ∷ [])))
wait_for_any_lem_example = wait_for_any_lem poll one_state (none ∷ some 0 ∷ []) (finished ∷ [])

abbrev VoidHeap : Type 0
VoidHeap = World (Unit {0}) ℕ ℕ ℕ

abbrev void_finished : VoidHeap
void_finished = record {
  objects = λ a. record {
    exception = none;
    done = true;
    callback = none;
    result = none;
    notified = 1;
    started = false;
    fn = none;
  };
  fresh = 1;
}

abbrev idle : ℕ → VoidHeap → VoidHeap
idle c w = w
