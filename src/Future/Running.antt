-- ===== src/Future/Running.antt =====
-- A packaged task, its run and its future.
use boost_task.Prelude.{
  ℕ, ◌≡◌, ◌⊎◌, refl, ap, ◌∙◌, Bool, true, false, none, some, List, if◌then◌else◌, Bool-cases, inl,
  inr,
}
use boost_task.Future.{
  Object, World, Outcome, value, raises, Result, ok, throws, rethrown, task_already_started, put,
  mark_finished_internal, mark_exceptional_finish_internal, mark_finished_with_result_internal,
}
use boost_task.Future.Handle
use boost_task.Future.Task.{PackagedTask, start, deliver, do_run, run, owner_destroyed, destroy}
use boost_task.Future.Laws.{get-done, get-failed}
use boost_task.Future.Delivery.{put-same}

-- What `get` makes of the way the functor ended.
abbrev pub answer_of : {R E : Type 0} → Outcome R E → Result E R
answer_of (value r) = ok r
answer_of (raises e) = throws (rethrown e)

module _ {R E C F : Type 0} (invoke : C → World R E C F → World R E C F) where
  deliver-answers :
      (w : World R E C F) (a : ℕ) (out : Outcome R E) (later : List (World R E C F))
      → (w.objects a).exception ≡ none
      → Handle.get invoke (deliver w a out) (some a) later ≡ answer_of out
  unfolding deliver Handle.get mark_finished_with_result_internal mark_exceptional_finish_internal
      mark_finished_internal
  deliver-answers w a (value r) later x =
      let o = mark_finished_with_result_internal (w.objects a) r in
      let there = put-same w a o in
      get-done invoke (put w a o) a later r (ap (λ (o : Object R E C F). o.done) there)
        (ap (λ (o : Object R E C F). o.exception) there ∙ x)
        (ap (λ (o : Object R E C F). o.result) there)
  deliver-answers w a (raises e) later x =
      let o = mark_exceptional_finish_internal (w.objects a) e in
      let there = put-same w a o in
      get-failed invoke (put w a o) a later e (ap (λ (o : Object R E C F). o.done) there)
        (ap (λ (o : Object R E C F). o.exception) there)

  deliver-started :
      (w : World R E C F) (a : ℕ) (out : Outcome R E)
      → ((deliver w a out).objects a).started ≡ (w.objects a).started
  unfolding deliver mark_finished_with_result_internal mark_exceptional_finish_internal
      mark_finished_internal
  deliver-started w a (value r) = ap (λ (o : Object R E C F). o.started) (put-same w a _)
  deliver-started w a (raises e) = ap (λ (o : Object R E C F). o.started) (put-same w a _)

  owner_destroyed-started :
      (broken : E) (w : World R E C F) (a : ℕ)
      → (w.objects a).started ≡ true
      → owner_destroyed broken w a ≡ w
  unfolding owner_destroyed
  owner_destroyed-started broken w a s =
      let o = record (w.objects a) { started = true } in
      ap (λ (b : Bool). if b then w else put w a (mark_exceptional_finish_internal o broken)) s

  owner_destroyed-waiting :
      (broken : E) (w : World R E C F) (a : ℕ)
      → (w.objects a).started ≡ false
      → owner_destroyed broken w a
        ≡ put w a
            (mark_exceptional_finish_internal (record (w.objects a) { started = true }) broken)
  unfolding owner_destroyed
  owner_destroyed-waiting broken w a s =
      let o = record (w.objects a) { started = true } in
      ap (λ (b : Bool). if b then w else put w a (mark_exceptional_finish_internal o broken)) s

  module _ (call : F → World R E C F → World R E C F × Outcome R E) where
    run-started :
        (w : World R E C F) (a : ℕ)
        → (w.objects a).started ≡ true
        → run call w a ≡ (w, throws task_already_started)
    unfolding run
    run-started w a s =
        ap
          (λ (b : Bool).
            if b
            then (w, throws task_already_started)
            else do_run call (start w a) a (w.objects a).fn)
          s

    run-waiting :
        (w : World R E C F) (a : ℕ) (f : F) (w' : World R E C F) (out : Outcome R E)
        → (w.objects a).started ≡ false
        → (w.objects a).fn ≡ some f
        → call f (start w a) ≡ (w', out)
        → run call w a ≡ (deliver w' a out, ok tt)
    unfolding run do_run
    run-waiting w a f w' out s at c =
        ap
          (λ (b : Bool).
            if b
            then (w, throws task_already_started)
            else do_run call (start w a) a (w.objects a).fn)
          s
        ∙ ap (do_run call (start w a) a) at
        ∙ ap (λ (r : World R E C F × Outcome R E). (deliver r.0 a r.1, ok tt)) c

    -- A task that has not started, and whose functor leaves the task's own exception and its mark as
    -- started alone, runs without an exception of its own. Then its future's `get` returns what the
    -- functor returned, or rethrows what it threw, without sleeping, and another run is refused and
    -- changes nothing.
    pub run_once :
        (w : World R E C F) (a : ℕ) (f : F) (w' : World R E C F) (out : Outcome R E)
        (later : List (World R E C F))
        → (w.objects a).started ≡ false
        → (w.objects a).fn ≡ some f
        → call f (start w a) ≡ (w', out)
        → (w'.objects a).exception ≡ none
        → (w'.objects a).started ≡ true
        → let first : World R E C F × Result E (Unit {0}) = run call w a in
          (first.1 ≡ ok tt)
          × (Handle.get invoke first.0 (some a) later ≡ answer_of out)
          × (run call first.0 a ≡ (first.0, throws task_already_started))
    run_once w a f w' out later s at c x s' =
        let first = run-waiting w a f w' out s at c in
        rw first (
          refl,
          deliver-answers w' a out later x,
          run-started (deliver w' a out) a (deliver-started w' a out ∙ s'),
        )

    -- The destructor of a packaged task that has a state: if the task was started it changes nothing;
    -- if not, the future's `get` rethrows `broken_promise` without sleeping and the task can no longer
    -- be run.
    destroyed_task_answers :
        (broken : E) (w : World R E C F) (t : PackagedTask) (a : ℕ) (later : List (World R E C F))
        → t.task ≡ some a
        → let after : World R E C F = destroy broken w t in
          (((w.objects a).started ≡ true) × (after ≡ w))
          ⊎ (((w.objects a).started ≡ false)
              × (Handle.get invoke after (some a) later ≡ throws (rethrown broken))
              × (run call after a ≡ (after, throws task_already_started)))
    unfolding destroy Handle.get mark_exceptional_finish_internal mark_finished_internal
    destroyed_task_answers broken w t a later at = rw at (elim (Bool-cases (w.objects a).started) [
      | inl s ↦ inl (s, owner_destroyed-started broken w a s)
      | inr s ↦
          let o =
            mark_exceptional_finish_internal (record (w.objects a) { started = true }) broken in
          let there = put-same w a o in
          let after = owner_destroyed-waiting broken w a s in
          inr (
            s,
            ap (λ (v : World R E C F). Handle.get invoke v (some a) later) after
                ∙ get-failed invoke (put w a o) a later broken
                    (ap (λ (o : Object R E C F). o.done) there)
                    (ap (λ (o : Object R E C F). o.exception) there),
            run-started _ a (
                ap (λ (v : World R E C F). (v.objects a).started) after
                ∙ ap (λ (o : Object R E C F). o.started) there),
          )
    ])
