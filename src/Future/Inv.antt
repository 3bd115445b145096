-- ===== src/Future/Inv.antt =====
-- A shared state that is done, under the calls on a promise.
use boost_task.Prelude.{
  ℕ, ◌<◌, ◌≡◌, ap, ◌∙◌, true, false, Option, none, some, List, [], ◌∷◌, ◌==◌, Bool-cases, if-cases,
  inl, inr, arith,
}
use boost_task.Future.{
  Object, World, put, allocate, mark_exceptional_finish_internal,
  mark_finished_with_result_internal, set_wait_callback,
}
use boost_task.Future.Promise.{
  Promise, After, lazy_init, lazy_from, finish_with, get_future, set_callback, destroy_at, Op,
  retrieve, give, fail, watch, renew, step, run,
}
use boost_task.Future.Handle.{Handle}

module _ {R E C F : Type 0} where
  -- The state at `a` is done, with this exception and this result.
  pub record Settled (a : ℕ) (e : Option E) (r : Option R) (w : World R E C F) : Type 0 where
    pub old : a < w.fresh
    pub done : (w.objects a).done ≡ true
    pub exception : (w.objects a).exception ≡ e
    pub result : (w.objects a).result ≡ r

  module _ {a : ℕ} {e : Option E} {r : Option R} {w : World R E C F} where
    put-Settled :
        (b : ℕ) (o : Object R E C F)
        → Settled a e r w
        → (b ≡ a → (o.done ≡ true) × (o.exception ≡ e) × (o.result ≡ r))
        → Settled a e r (put w b o)
    unfolding put
    put-Settled b o s h = elim (Bool-cases (b == a)) [
      | inl same ↦
          let (d, x, y) = h (ground arith) in
          record { old = s.old; done = rw same d; exception = rw same x; result = rw same y }
      | inr other ↦ record {
        old = s.old;
        done = rw other s.done;
        exception = rw other s.exception;
        result = rw other s.result;
      }
    ]

    -- A state that is not done is another one.
    put_open-Settled :
        (b : ℕ) (o : Object R E C F)
        → Settled a e r w
        → (w.objects b).done ≡ false
        → Settled a e r (put w b o)
    put_open-Settled b o s still = put-Settled b o s (λ same. absurd (clash same))
      where
        clash : b ≡ a → ⊥
        clash same = let d = ap (λ (c : ℕ). (w.objects c).done) same in cc (d, s.done, still)

    lazy_from-Settled :
        (p : Promise) (f : Option ℕ) → Settled a e r w → Settled a e r (lazy_from w p f).0
    unfolding lazy_from put allocate
    lazy_from-Settled p none s =
        let other : (w.fresh == a) ≡ false = ground (arith, s.old) in
        record {
          old = omega (arith, s.old);
          done = rw other s.done;
          exception = rw other s.exception;
          result = rw other s.result;
        }
    lazy_from-Settled p (some b) s = s

  module _ {a : ℕ} {e : Option E} {r : Option R} {w : World R E C F} where
    pub finish_with-Settled :
        (p : Promise) (finish : Object R E C F → Object R E C F)
        → Settled a e r w
        → Settled a e r (finish_with w p finish).world
    unfolding finish_with lazy_init
    finish_with-Settled p finish s =
        let s' = lazy_from-Settled p p.future s in
        let init = lazy_from w p p.future in
        if-cases (λ (after : After R E C F (Unit {0})). Settled a e r after.world)
          (init.0.objects init.2).done (λ d. s') (λ still. put_open-Settled init.2 _ s' still)

    get_future-Settled : (p : Promise) → Settled a e r w → Settled a e r (get_future w p).world
    unfolding get_future lazy_init
    get_future-Settled p s =
        let init = lazy_from w p p.future in
        if-cases (λ (after : After R E C F Handle). Settled a e r after.world)
          init.1.future_obtained (λ d. lazy_from-Settled p p.future s)
          (λ d. lazy_from-Settled p p.future s)

    set_callback-Settled :
        (p : Promise) (c : C) → Settled a e r w → Settled a e r (set_callback w p c).0
    unfolding set_callback lazy_init set_wait_callback
    set_callback-Settled p c s =
        let init = lazy_from w p p.future in
        let s' = lazy_from-Settled p p.future s in
        put-Settled init.2 _ s' (λ same. (
          ap (λ (b : ℕ). (init.0.objects b).done) same ∙ s'.done,
          ap (λ (b : ℕ). (init.0.objects b).exception) same ∙ s'.exception,
          ap (λ (b : ℕ). (init.0.objects b).result) same ∙ s'.result,
        ))

    destroy_at-Settled :
        (broken : E) (f : Option ℕ) → Settled a e r w → Settled a e r (destroy_at broken w f)
    unfolding destroy_at
    destroy_at-Settled broken none s = s
    destroy_at-Settled broken (some b) s =
        if-cases (Settled a e r) (w.objects b).done (λ d. s) (λ still. put_open-Settled b _ s still)

  pub step-Settled :
      {a : ℕ} {e : Option E} {r : Option R} (broken : E) (op : Op R E C) (w : World R E C F)
      (p : Promise)
      → Settled a e r w
      → Settled a e r (step broken op w p).0
  unfolding step
  step-Settled broken retrieve w p s = get_future-Settled p s
  step-Settled broken (give v) w p s =
      finish_with-Settled p (λ o. mark_finished_with_result_internal o v) s
  step-Settled broken (fail x) w p s =
      finish_with-Settled p (λ o. mark_exceptional_finish_internal o x) s
  step-Settled broken (watch c) w p s = set_callback-Settled p c s
  step-Settled broken renew w p s = destroy_at-Settled broken p.future s

  -- Once a shared state is done, no calls on any promise change its value or its exception.
  pub done_for_good :
      {a : ℕ} {e : Option E} {r : Option R} (broken : E) (ops : List (Op R E C)) (w : World R E C F)
      (p : Promise)
      → Settled a e r w
      → Settled a e r (run broken ops w p).0
  unfolding run
  done_for_good broken [] w p s = s
  done_for_good broken (op ∷ ops) w p s =
      let (w', p') = step broken op w p in
      done_for_good broken ops w' p' (step-Settled broken op w p s)
