-- ===== src/Events/Rounds.antt =====
-- The sets of an auto-reset event and the waits that they let through.
use boost_task.Prelude.{
  ℕ, ◌+◌, ◌≤◌, ◌≡◌, refl, Bool, true, false, List, [], ◌∷◌, if◌then◌else◌, arith,
}
use boost_task.Events.AutoReset.{
  Waiters, Event, signals, tries, construct, set, try_wait, initial, step, run,
}

-- A word that is SET is one wait that can still succeed.
abbrev pub one_if : Bool → ℕ
one_if true = 1
one_if false = 0

step-bound :
    (n : ℕ) (w : Waiters) (e : Event)
    → w.passed + one_if w.state ≤ w.sets + n
    → (step w e).passed + one_if (step w e).state ≤ (step w e).sets + n
unfolding step set try_wait
step-bound n w signals h = most w.state h
  where
    most : (b : Bool) → w.passed + one_if b ≤ w.sets + n → w.passed + 1 ≤ w.sets + 1 + n
    most true h = omega (arith, h)
    most false h = omega (arith, h)
step-bound n w tries h = taken w.state h
  where
    taken :
        (b : Bool)
        → w.passed + one_if b ≤ w.sets + n
        → let r : Bool × Bool = try_wait b in
          (if r.0 then w.passed + 1 else w.passed) + one_if r.1 ≤ w.sets + n
    taken true h = omega (arith, h)
    taken false h = omega (arith, h)

run-bound :
    (n : ℕ) (w : Waiters) (es : List Event)
    → w.passed + one_if w.state ≤ w.sets + n
    → (run w es).passed + one_if (run w es).state ≤ (run w es).sets + n
unfolding run
run-bound n w [] h = h
run-bound n w (e ∷ es) h = run-bound n (step w e) es (step-bound n w e h)

-- Whatever sets and waits of any threads are made of a new auto-reset event, in whatever order: the waits
-- that succeeded, and one more if the event is set, are not more than the sets, with the one that the
-- event may start with; and after a set the next round of a wait succeeds and leaves the event reset.
pub one_for_each_set :
    (isset : Bool) (es : List Event)
    → let w : Waiters = run (initial isset) es in
      let w' : Waiters = step (step w signals) tries in
      (w.passed + one_if w.state ≤ w.sets + one_if isset)
      × (w'.passed ≡ w.passed + 1)
      × (w'.state ≡ false)
unfolding initial construct step
one_for_each_set isset es = (run-bound (one_if isset) (initial isset) es (first isset), refl, refl)
  where
    first : (b : Bool) → 0 + one_if (if b then true else false) ≤ 0 + one_if b
    first true = omega arith
    first false = omega arith
