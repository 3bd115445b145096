-- ===== src/Future/Abandoned.antt =====
-- A promise and the shared state that its move assignment leaves.
use boost_task.Prelude.{
  ℕ, ◌<◌, ◌≡◌, ◌≢◌, refl, ap, sym, ◌∙◌, false, Option, none, some, List, [], ◌∷◌, ◌==◌, if-cases,
  arith,
}
use boost_task.Future.{
  Object, World, put, allocate, mark_exceptional_finish_internal,
  mark_finished_with_result_internal,
}
use boost_task.Future.Handle.{Handle}
use boost_task.Future.Promise.{
  Promise, After, move_assign, lazy_init, lazy_from, finish_with, get_future, set_callback,
  destroy_at, Op, retrieve, give, fail, watch, renew, step, run,
}

module _ {R E C F : Type 0} where
  -- The state at `a` is not done, and the promise that has the address `f` is not its owner.
  record Left (a : ℕ) (w : World R E C F) (f : Option ℕ) : Type 0 where
    pub old : a < w.fresh
    pub still : (w.objects a).done ≡ false
    pub other : f ≢ some a

  module _ {a : ℕ} {w : World R E C F} where
    put-Left :
        (b : ℕ) (o : Object R E C F) (f : Option ℕ) → Left a w f → b ≢ a → Left a (put w b o) f
    unfolding put
    put-Left b o f s apart =
        let differ : (b == a) ≡ false = ground (arith, apart) in
        record { old = s.old; still = rw differ s.still; other = s.other }

    own : {f : Option ℕ} (b : ℕ) → Left a w f → f ≡ some b → b ≢ a
    own b s at = λ same. s.other (at ∙ ap (λ (c : ℕ). some c) same)

    -- The state that `lazy_init` answers is not the one left behind.
    lazy_from-Left :
        (p : Promise) (f : Option ℕ)
        → p.future ≡ f
        → Left a w f
        → let init : World R E C F × Promise × ℕ = lazy_from w p f in
          Left a init.0 init.1.future × (init.2 ≢ a)
    unfolding lazy_from put allocate
    lazy_from-Left p none at s =
        let apart : w.fresh ≢ a = λ same. omega (arith, s.old, same) in
        let differ : (w.fresh == a) ≡ false = ground (arith, s.old) in
        (
          record {
            old = omega (arith, s.old);
            still = rw differ s.still;
            other = λ same. apart (cc same);
          },
          apart,
        )
    lazy_from-Left p (some b) at s = (
      record { old = s.old; still = s.still; other = λ same. s.other (sym at ∙ same) },
      own b s refl,
    )

  module _ {a : ℕ} {w : World R E C F} where
    init-Left :
        (p : Promise)
        → Left a w p.future
        → let init : World R E C F × Promise × ℕ = lazy_init w p in
          Left a init.0 init.1.future × (init.2 ≢ a)
    unfolding lazy_init
    init-Left p s = lazy_from-Left p p.future refl s

    finish_with-Left :
        (p : Promise) (finish : Object R E C F → Object R E C F)
        → Left a w p.future
        → let after : After R E C F (Unit {0}) = finish_with w p finish in
          Left a after.world after.promise.future
    unfolding finish_with
    finish_with-Left p finish s =
        let init = lazy_init w p in
        let (s', apart) = init-Left p s in
        if-cases (λ (after : After R E C F (Unit {0})). Left a after.world after.promise.future)
          (init.0.objects init.2).done (λ d. s') (λ still. put-Left init.2 _ init.1.future s' apart)

    get_future-Left :
        (p : Promise)
        → Left a w p.future
        → let after : After R E C F Handle = get_future w p in
          Left a after.world after.promise.future
    unfolding get_future
    get_future-Left p s =
        let (s', apart) = init-Left p s in
        if-cases (λ (after : After R E C F Handle). Left a after.world after.promise.future)
          (lazy_init w p).1.future_obtained (λ d. s')
          (λ d. record { old = s'.old; still = s'.still; other = s'.other })

    set_callback-Left :
        (p : Promise) (c : C)
        → Left a w p.future
        → let after : World R E C F × Promise = set_callback w p c in Left a after.0 after.1.future
    unfolding set_callback
    set_callback-Left p c s =
        let init = lazy_init w p in
        let (s', apart) = init-Left p s in put-Left init.2 _ init.1.future s' apart

    destroy_at-Left : (broken : E) (f : Option ℕ) → Left a w f → Left a (destroy_at broken w f) none
    unfolding destroy_at
    destroy_at-Left broken none s = s
    destroy_at-Left broken (some b) s =
        let gone : Left a w none = record {
          old = s.old;
          still = s.still;
          other = λ same. cc same;
        } in
        if-cases (λ w'. Left a w' none) (w.objects b).done (λ d. gone)
          (λ still. put-Left b _ none gone (own b s refl))

  step-Left :
      {a : ℕ} (broken : E) (op : Op R E C) (w : World R E C F) (p : Promise)
      → Left a w p.future
      → let after : World R E C F × Promise = step broken op w p in Left a after.0 after.1.future
  unfolding step
  step-Left broken retrieve w p s = get_future-Left p s
  step-Left broken (give v) w p s =
      finish_with-Left p (λ o. mark_finished_with_result_internal o v) s
  step-Left broken (fail x) w p s = finish_with-Left p (λ o. mark_exceptional_finish_internal o x) s
  step-Left broken (watch c) w p s = set_callback-Left p c s
  step-Left broken renew w p s = destroy_at-Left broken p.future s

  run-Left :
      {a : ℕ} (broken : E) (ops : List (Op R E C)) (w : World R E C F) (p : Promise)
      → Left a w p.future
      → let after : World R E C F × Promise = run broken ops w p in Left a after.0 after.1.future
  unfolding run
  run-Left broken [] w p s = s
  run-Left broken (op ∷ ops) w p s =
      let (w', p') = step broken op w p in run-Left broken ops w' p' (step-Left broken op w p s)

  -- A promise with an unfinished state that is assigned from a promise with another state, or with
  -- none, leaves its old state unfinished for good: no calls on the promise, its destruction included,
  -- finish it.
  pub move_assign_abandons :
      (broken : E) (ops : List (Op R E C)) (w : World R E C F) (p rhs : Promise) (a : ℕ)
      → p.future ≡ some a
      → a < w.fresh
      → (w.objects a).done ≡ false
      → rhs.future ≢ some a
      → ((run broken ops w (move_assign p rhs).0).0.objects a).done ≡ false
  unfolding move_assign
  move_assign_abandons broken ops w p rhs a at old still other =
      let s : Left a w rhs.future = record { old = old; still = still; other = other } in
      (run-Left broken ops w rhs s).still
