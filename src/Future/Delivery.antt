-- ===== src/Future/Delivery.antt =====
-- A promise and the futures of its shared state.
use boost_task.Prelude.{
  ℕ, ◌≡◌, refl, ap, sym, ◌∙◌, Bool, true, false, Option, none, some, List, ◌==◌, if◌then◌else◌,
  Bool-cases, inl, inr, arith,
}
use boost_task.Future.{
  Object, World, ok, throws, rethrown, future_already_retrieved, promise_already_satisfied, put,
  blank, allocate, mark_finished_internal, mark_exceptional_finish_internal,
  mark_finished_with_result_internal,
}
use boost_task.Future.Handle
use boost_task.Future.Handle.{Handle}
use boost_task.Future.Promise.{
  Promise, After, construct, lazy_init, lazy_from, finish_with, get_future, set_value, destroy,
  destroy_at,
}
use boost_task.Future.Laws.{get-done, get-failed}

module _ {R E C F : Type 0} where
  pub put-same : (w : World R E C F) (a : ℕ) (o : Object R E C F) → (put w a o).objects a ≡ o
  unfolding put
  put-same w a o = let same : (a == a) ≡ true = ground arith in rw same refl

  -- `set_value` of a promise whose state is not done leaves it done, and the second one throws.
  pub set_value-open :
      (w : World R E C F) (a : ℕ) (obtained : Bool) (r : R)
      → (w.objects a).done ≡ false
      → set_value w (record { future = some a; future_obtained = obtained }) r ≡ record {
        world = put w a (mark_finished_with_result_internal (w.objects a) r);
        promise = record { future = some a; future_obtained = obtained };
        answer = ok tt;
      }
  unfolding set_value finish_with lazy_init lazy_from
  set_value-open w a obtained r still = rw still refl

  pub set_value-done :
      (w : World R E C F) (a : ℕ) (obtained : Bool) (r : R)
      → (w.objects a).done ≡ true
      → set_value w (record { future = some a; future_obtained = obtained }) r ≡ record {
        world = w;
        promise = record { future = some a; future_obtained = obtained };
        answer = throws promise_already_satisfied;
      }
  unfolding set_value finish_with lazy_init lazy_from
  set_value-done w a obtained r d = rw d refl

  allocate-blank : (w : World R E C F) (fn : Option F) → (allocate w fn).objects w.fresh ≡ blank fn
  unfolding allocate
  allocate-blank w fn = put-same w w.fresh (blank fn)

  pub blank_done : {o : Object R E C F} (fn : Option F) → o ≡ blank fn → o.done ≡ false
  unfolding blank
  blank_done fn same = ap (λ (o : Object R E C F). o.done) same

  pub blank_exception : {o : Object R E C F} (fn : Option F) → o ≡ blank fn → o.exception ≡ none
  unfolding blank
  blank_exception fn same = ap (λ (o : Object R E C F). o.exception) same

  destroy_at-done :
      (broken : E) (w : World R E C F) (a : ℕ)
      → (w.objects a).done ≡ true
      → destroy_at broken w (some a) ≡ w
  unfolding destroy_at
  destroy_at-done broken w a d =
      let o = mark_exceptional_finish_internal (w.objects a) broken in
      ap (λ (b : Bool). if b then w else put w a o) d

  destroy_at-open :
      (broken : E) (w : World R E C F) (a : ℕ)
      → (w.objects a).done ≡ false
      → destroy_at broken w (some a)
        ≡ put w a (mark_exceptional_finish_internal (w.objects a) broken)
  unfolding destroy_at
  destroy_at-open broken w a still =
      let o = mark_exceptional_finish_internal (w.objects a) broken in
      ap (λ (b : Bool). if b then w else put w a o) still

  module _ (invoke : C → World R E C F → World R E C F) where
    -- In any world: a new promise hands out a future once; when it is given a value the future's `get`
    -- returns that value without sleeping, and a second value is refused and changes nothing.
    pub delivers :
        (w : World R E C F) (r v : R) (later : List (World R E C F))
        → let one : After R E C F Handle = get_future w construct in
          let two = set_value one.world one.promise r in
          (one.answer ≡ ok (some w.fresh))
          × (get_future one.world one.promise).answer ≡ throws future_already_retrieved
          × (two.answer ≡ ok tt)
          × (Handle.get invoke two.world (some w.fresh) later ≡ ok r)
          × (set_value two.world two.promise v ≡ record {
            world = two.world;
            promise = two.promise;
            answer = throws promise_already_satisfied;
          })
    unfolding get_future lazy_init lazy_from construct Handle.get mark_finished_with_result_internal
        mark_finished_internal
    delivers w r v later =
        let first = allocate w none in
        let a = w.fresh in
        let new = allocate-blank w none in
        let two = put first a (mark_finished_with_result_internal (first.objects a) r) in
        let there = put-same first a (mark_finished_with_result_internal (first.objects a) r) in
        rw (set_value-open first a true r (blank_done none new)) (
          refl,
          refl,
          refl,
          get-done invoke two a later r (ap (λ (o : Object R E C F). o.done) there)
              (ap (λ (o : Object R E C F). o.exception) there ∙ blank_exception none new)
              (ap (λ (o : Object R E C F). o.result) there),
          set_value-done two a true v (ap (λ (o : Object R E C F). o.done) there),
        )

    -- When a promise with a state is destroyed, `get` of its future answers without sleeping: as before
    -- if the state was done, by rethrowing `broken_promise` if it was not.
    pub destroyed_promise_answers :
        (broken : E) (w : World R E C F) (p : Promise) (a : ℕ) (later : List (World R E C F))
        → p.future ≡ some a
        → Handle.get invoke (destroy broken w p) (some a) later ≡ (
            if (w.objects a).done
            then Handle.get invoke w (some a) later
            else throws (rethrown broken))
    unfolding destroy Handle.get mark_exceptional_finish_internal mark_finished_internal
    destroyed_promise_answers broken w p a later at =
        let answer = λ (w' : World R E C F). Handle.get invoke w' (some a) later in
        let choose = λ (b : Bool).
          (if b then Handle.get invoke w (some a) later else throws (rethrown broken)) in
        let here = ap (destroy_at broken w) at in
        elim (Bool-cases (w.objects a).done) [
          | inl d ↦ ap answer (here ∙ destroy_at-done broken w a d) ∙ sym (ap choose d)
          | inr still ↦
              let o = mark_exceptional_finish_internal (w.objects a) broken in
              let there = put-same w a o in
              ap answer (here ∙ destroy_at-open broken w a still)
              ∙ get-failed invoke (put w a o) a later broken
                  (ap (λ (o : Object R E C F). o.done) there)
                  (ap (λ (o : Object R E C F). o.exception) there)
              ∙ sym (ap choose still)
        ]
