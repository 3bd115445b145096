-- ===== src/Future/Void.antt =====
-- include/boost/task/spin/future.hpp: the specialisations `future_object<void>`, `promise<void>` and
-- `task_object<void,F>`, which store no result.
use boost_task.Prelude.{ℕ, ◌≡◌, ap, ◌∙◌, true, Option, none, List, [], ◌∷◌}
use boost_task.Future
use boost_task.Future.{
  Object, World, Outcome, value, raises, Result, ok, throws, blocks, fault,
  promise_already_satisfied, put, mark_finished_internal, mark_exceptional_finish_internal,
}
use boost_task.Future.Promise
use boost_task.Future.Promise.{
  Promise, After, construct, Op, retrieve, give, fail, watch, renew, finish_with, get_future,
  set_exception, set_callback, destroy,
}
use boost_task.Future.Laws.{wait-done}
use boost_task.Future.Delivery.{put-same}
use boost_task.Future.Running.{answer_of}
use boost_task.Future.Inv.{Settled, step-Settled, finish_with-Settled}

module _ {E C F : Type 0} where
  unfoldable pub mark_finished_with_void : Object (Unit {0}) E C F → Object (Unit {0}) E C F
  unfolding mark_finished_internal
  mark_finished_with_void o = mark_finished_internal o

  unfoldable pub set_void : World (Unit {0}) E C F → Promise → After (Unit {0}) E C F (Unit {0})
  unfolding finish_with mark_finished_with_void
  set_void w p = finish_with w p mark_finished_with_void

  -- The calls of `promise<void>`: the others are those of `promise`.
  unfoldable pub step_void :
      E → Op (Unit {0}) E C → World (Unit {0}) E C F → Promise → World (Unit {0}) E C F × Promise
  unfolding set_void Promise.step
  step_void broken (give r) w p = let after = set_void w p in (after.world, after.promise)
  step_void broken retrieve w p = Promise.step broken retrieve w p
  step_void broken (fail e) w p = Promise.step broken (fail e) w p
  step_void broken (watch c) w p = Promise.step broken (watch c) w p
  step_void broken renew w p = Promise.step broken renew w p

  unfoldable pub run_void :
      E
      → List (Op (Unit {0}) E C)
      → World (Unit {0}) E C F
      → Promise
      → World (Unit {0}) E C F × Promise
  unfolding step_void
  run_void broken [] w p = (w, p)
  run_void broken (op ∷ ops) w p =
      let (w', p') = step_void broken op w p in run_void broken ops w' p'

  -- The end of `do_run`, on the object as the functor has left it.
  unfoldable pub deliver_void :
      World (Unit {0}) E C F → ℕ → Outcome (Unit {0}) E → World (Unit {0}) E C F
  unfolding mark_finished_with_void
  deliver_void w a (value r) = put w a (mark_finished_with_void (w.objects a))
  deliver_void w a (raises e) = put w a (mark_exceptional_finish_internal (w.objects a) e)

  step_void-Settled :
      {a : ℕ} {x : Option E} {r : Option (Unit {0})} (broken : E) (op : Op (Unit {0}) E C)
      (w : World (Unit {0}) E C F) (p : Promise)
      → Settled a x r w
      → Settled a x r (step_void broken op w p).0
  unfolding step_void set_void
  step_void-Settled broken (give r) w p s = finish_with-Settled p mark_finished_with_void s
  step_void-Settled broken retrieve w p s = step-Settled broken retrieve w p s
  step_void-Settled broken (fail e) w p s = step-Settled broken (fail e) w p s
  step_void-Settled broken (watch c) w p s = step-Settled broken (watch c) w p s
  step_void-Settled broken renew w p s = step-Settled broken renew w p s

  -- Once a shared state is done, with some exception or none, no sequence of calls on any promise<void>,
  -- destruction included, changes that it is done or its exception.
  void_done_for_good :
      {a : ℕ} {x : Option E} {r : Option (Unit {0})} (broken : E) (ops : List (Op (Unit {0}) E C))
      (w : World (Unit {0}) E C F) (p : Promise)
      → Settled a x r w
      → Settled a x r (run_void broken ops w p).0
  unfolding run_void
  void_done_for_good broken [] w p s = s
  void_done_for_good broken (op ∷ ops) w p s =
      let (w', p') = step_void broken op w p in
      void_done_for_good broken ops w' p' (step_void-Settled broken op w p s)

module _ {E C F : Type 0} (invoke : C → World (Unit {0}) E C F → World (Unit {0}) E C F) where
  get_void_end : Result E (World (Unit {0}) E C F) → Result E (Unit {0})
  get_void_end (ok w) = ok tt
  get_void_end (throws e) = throws e
  get_void_end blocks = blocks
  get_void_end fault = fault

  unfoldable pub get_void :
      World (Unit {0}) E C F → ℕ → List (World (Unit {0}) E C F) → Result E (Unit {0})
  unfolding get_void_end
  get_void w a later = get_void_end (Future.wait invoke w a true later)

  -- What a task without a result gives its future: where the functor left the task's exception alone,
  -- get returns if the functor returned, and rethrows what it threw, without sleeping.
  deliver_void_answers :
      (w : World (Unit {0}) E C F) (a : ℕ) (out : Outcome (Unit {0}) E)
      (later : List (World (Unit {0}) E C F))
      → (w.objects a).exception ≡ none
      → get_void (deliver_void w a out) a later ≡ answer_of out
  unfolding deliver_void get_void Future.rethrow_or mark_finished_with_void mark_finished_internal
      mark_exceptional_finish_internal
  deliver_void_answers w a (value r) later x =
      let o = mark_finished_with_void (w.objects a) in
      let there = put-same w a o in
      ap get_void_end (
        wait-done invoke (put w a o) a true later
          (ap (λ (o : Object (Unit {0}) E C F). o.done) there)
        ∙ ap (λ (e : Option E). Future.rethrow_or e (put w a o))
            (ap (λ (o : Object (Unit {0}) E C F). o.exception) there ∙ x))
  deliver_void_answers w a (raises e) later x =
      let o = mark_exceptional_finish_internal (w.objects a) e in
      let there = put-same w a o in
      ap get_void_end (
        wait-done invoke (put w a o) a true later
          (ap (λ (o : Object (Unit {0}) E C F). o.done) there)
        ∙ ap (λ (e : Option E). Future.rethrow_or e (put w a o))
            (ap (λ (o : Object (Unit {0}) E C F). o.exception) there))
