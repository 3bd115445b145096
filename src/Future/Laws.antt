-- ===== src/Future/Laws.antt =====
-- What a promise, a packaged task and their futures do for one another.
use boost_task.Prelude.{ℕ, ◌≡◌, refl, ap, ◌∙◌, Bool, true, none, some, List, [], ◌∷◌, if◌then◌else◌}
use boost_task.Future
use boost_task.Future.{
  Object, World, Outcome, value, raises, Result, ok, throws, blocks, rethrown,
  future_already_retrieved, promise_already_satisfied, task_already_started, put, blank, allocate,
  has_value, has_exception, do_callback, wait_loop,
}

module _ {R E C F : Type 0} (invoke : C → World R E C F → World R E C F) where
  -- A finished state answers at once: no callback, no sleep.
  wait_loop-done :
      (w : World R E C F) (a : ℕ) (later : List (World R E C F))
      → (w.objects a).done ≡ true
      → wait_loop invoke w a later ≡ some w
  unfolding wait_loop
  wait_loop-done w a [] d = rw d refl
  wait_loop-done w a (w' ∷ later) d = rw d refl

  do_callback-done :
      (w : World R E C F) (a : ℕ) → (w.objects a).done ≡ true → do_callback invoke w a ≡ w
  unfolding do_callback
  do_callback-done w a d = rw d refl

  pub wait-done :
      (w : World R E C F) (a : ℕ) (rethrow : Bool) (later : List (World R E C F))
      → (w.objects a).done ≡ true
      → Future.wait invoke w a rethrow later
        ≡ (if rethrow then Future.rethrow_or (w.objects a).exception w else ok w)
  unfolding Future.wait Future.wait_end
  wait-done w a rethrow later d = rw (do_callback-done w a d) (rw (wait_loop-done w a later d) refl)

  pub get-done :
      (w : World R E C F) (a : ℕ) (later : List (World R E C F)) (r : R)
      → (w.objects a).done ≡ true
      → (w.objects a).exception ≡ none
      → (w.objects a).result ≡ some r
      → Future.get invoke w a later ≡ ok r
  unfolding Future.get Future.rethrow_or Future.get_end Future.deref
  get-done w a later r d x v =
      ap (Future.get_end invoke a) (wait-done w a true later d ∙ ap (λ e. Future.rethrow_or e w) x)
      ∙ ap Future.deref v

  pub get-failed :
      (w : World R E C F) (a : ℕ) (later : List (World R E C F)) (e : E)
      → (w.objects a).done ≡ true
      → (w.objects a).exception ≡ some e
      → Future.get invoke w a later ≡ throws (rethrown e)
  unfolding Future.get Future.rethrow_or Future.get_end
  get-failed w a later e d x =
      ap (Future.get_end invoke a) (wait-done w a true later d ∙ ap (λ e. Future.rethrow_or e w) x)
