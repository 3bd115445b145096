-- ===== src/Context/Delivery.antt =====
-- Which threads a request interrupts.
use boost_task.Prelude.{
  ℕ, ◌≡◌, refl, ap, sym, ◌∙◌, Bool, true, false, not, Option, none, some, List, [], ◌∷◌, ◌++◌,
  if◌then◌else◌,
}
use mathlib.Core.List.{append_assoc, append-nil}
use boost_task.Context.{
  Context, construct, interrupt_thread, reset, interrupt, Op, attach, request, after_reset, run,
}

-- Which threads the calls interrupt, in order, from no request and the thread that is attached.
abbrev pub attached : List Op → List ℕ
attached [] = []
attached (attach t ∷ ops) = t ∷ attached ops
attached (request ∷ ops) = attached ops

abbrev pub of_thread : Option ℕ → List ℕ
of_thread none = []
of_thread (some t) = t ∷ []

abbrev pub due : Option ℕ → List Op → List ℕ
due thrd [] = []
due thrd (attach t ∷ ops) = due (some t) ops
due thrd (request ∷ ops) = of_thread thrd ++ attached ops

-- With a request each thread that is attached is interrupted.
run-requested :
    (ops : List Op) (c : Context)
    → c.requested ≡ true
    → (run c ops).interrupted ≡ c.interrupted ++ attached ops
unfolding run reset interrupt after_reset interrupt_thread
run-requested [] c r = sym (append-nil c.interrupted)
run-requested (attach t ∷ ops) c r =
    let c' = record c { thrd = some t } in
    let c'' = record c' { interrupted = c.interrupted ++ (t ∷ []) } in
    ap (λ (b : Bool). (run (if b then c'' else c') ops).interrupted) r
    ∙ run-requested ops c'' r
    ∙ append_assoc c.interrupted (t ∷ []) (attached ops)
run-requested (request ∷ ops) c r =
    let c' = interrupt_thread (record c { requested = true }) c.thrd in
    ap (λ (b : Bool). (run (if not b then c' else c) ops).interrupted) r ∙ run-requested ops c r

-- The first request interrupts the thread that is attached.
interrupt-first :
    (c : Context) (o : Option ℕ)
    → let c' : Context = interrupt_thread (record c { requested = true }) o in
      (c'.requested ≡ true) × (c'.interrupted ≡ c.interrupted ++ of_thread o)
unfolding interrupt_thread
interrupt-first c none = (refl, sym (append-nil c.interrupted))
interrupt-first c (some t) = (refl, refl)

run-due :
    (ops : List Op) (c : Context)
    → c.requested ≡ false
    → (run c ops).interrupted ≡ c.interrupted ++ due c.thrd ops
unfolding run reset interrupt after_reset
run-due [] c r = sym (append-nil c.interrupted)
run-due (attach t ∷ ops) c r =
    let c' = record c { thrd = some t } in
    ap (λ (b : Bool). (run (if b then interrupt_thread c' (some t) else c') ops).interrupted) r
    ∙ run-due ops c' r
run-due (request ∷ ops) c r =
    let c' = interrupt_thread (record c { requested = true }) c.thrd in
    let (requested, same) = interrupt-first c c.thrd in
    ap (λ (b : Bool). (run (if not b then c' else c) ops).interrupted) r
    ∙ run-requested ops c' requested
    ∙ ap (λ (ts : List ℕ). ts ++ attached ops) same
    ∙ append_assoc c.interrupted (of_thread c.thrd) (attached ops)

-- Of a new context, whatever calls of interrupt and reset follow: the threads interrupted are, in order,
-- the one attached when the first request came, if there was one, and each that is attached after it;
-- without a request there are none. A second request interrupts nobody.
pub request_delivered : (ops : List Op) → (run construct ops).interrupted ≡ due none ops
unfolding construct
request_delivered ops = run-due ops construct refl
