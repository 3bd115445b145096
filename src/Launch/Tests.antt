-- ===== src/Launch/Tests.antt =====
-- Runs of launches. A function is a number `f`; it returns `f + 1`, but throws 9 if it is 0.
use boost_task.Prelude.{ℕ, ◌+◌, ◌≡◌, refl, false, Option, none, some, [], ◌∷◌, ◌==◌, if◌then◌else◌}
use boost_task.Context
use boost_task.Context.{Context}
use boost_task.Future.{
  World, Outcome, value, raises, Result, ok, throws, fault, rethrown, blank, allocate,
}
use boost_task.Future.Handle
use boost_task.Launch.{Store, TaskObject, invoke}
use boost_task.Launch.TaskHandle.{interrupt}
use boost_task.Launch.Own.{own_thread, own_thread_lem}
use boost_task.Launch.NewThread.{new_thread, thread_runs}
use boost_task.Launch.NewThread.Reach.{task_of, callable_of, new_thread_lem}

abbrev Heap : Type 0
Heap = World ℕ ℕ ℕ ℕ

abbrev call : ℕ → Heap → Heap × Outcome ℕ ℕ
call f w = (w, if f == 0 then raises 9 else value (f + 1))

abbrev poll : ℕ → Heap → Heap
poll c w = w

abbrev start : Store ℕ ℕ ℕ ℕ
unfolding blank Context.construct
start = record {
  world = record { objects = λ a. blank none; fresh = 3 };
  contexts = λ a. Context.construct;
  fresh_context = 2;
}

invoke-empty : (invoke {R = ℕ} {E = ℕ} {C = ℕ} {F = ℕ} {Fn = ℕ} call start.world none).2 ≡ fault
unfolding invoke
invoke-empty = refl

-- Interrupting a launched task is seen by the task.
interrupt-seen :
    interrupt start (some (record { fut = none; ctx = 1 }))
    ≡ some (record start {
      contexts = λ b. if 1 == b then Context.interrupt Context.construct else Context.construct;
    })
unfolding interrupt start
interrupt-seen = refl

own_thread_lem_example :
    let result : Store ℕ ℕ ℕ ℕ × Result ℕ (Option TaskObject) = own_thread 5 call start 0 in
    (result.1 ≡ throws (rethrown 9))
    × (Handle.get poll result.0.world (some 3) [] ≡ throws (rethrown 5))
unfolding start allocate
own_thread_lem_example =
    own_thread_lem 5 call poll start 0 (allocate start.world none) (raises 9) [] refl refl

-- The function 6 in the thread 8, which runs at once.
new_thread_lem_example :
    (s' : Store ℕ ℕ ℕ ℕ) × (ended : Heap) × (new_thread {Fn = ℕ} false start 6 8
      ≡ some (record {
        store = s';
        thread = some (callable_of start 6);
        task = ok (some (task_of start));
      }))
    × (thread_runs 5 call (allocate start.world none) (callable_of start 6) ≡ some ended)
    × (Handle.get poll ended (some 3) [] ≡ ok 7)
    × (s'' : Store ℕ ℕ ℕ ℕ) × (interrupt s' (some (task_of start)) ≡ some s'')
    × ((s''.contexts 2).interrupted ≡ 8 ∷ [])
unfolding start allocate
new_thread_lem_example =
    new_thread_lem 5 call poll start 6 8 (allocate start.world none) (allocate start.world none) 7
      [] refl refl
