-- ===== src/Condition/Lost.antt =====
-- A waiter that is interrupted in its wait.
use boost_task.Prelude.{◌≡◌, refl, ap, ◌∙◌, Bool, true, List, [], ◌∷◌}
use boost_task.Condition.{
  Condition, construct, Event, enters, notifies, retries, wakes, expires, unlocks, interrupts, step,
  run,
}

-- A wait begins and is interrupted in its loop, then there is a notification.
abbrev pub interrupted_wait : Bool → Bool → List Event
interrupted_wait timed all = enters timed ∷ interrupts 0 ∷ notifies all ∷ []

step-stuck :
    (timed all : Bool) (e : Event)
    → let c : Condition = run construct (interrupted_wait timed all) in step c e ≡ c
unfolding run step construct
step-stuck timed all (enters timed') = refl
step-stuck timed all (notifies all') = refl
step-stuck timed all (retries i) = refl
step-stuck timed all (wakes i) = refl
step-stuck timed all (expires i) = refl
step-stuck timed all (unlocks i) = refl
step-stuck timed all (interrupts i) = refl

run-stuck :
    (timed all : Bool) (es : List Event)
    → let c : Condition = run construct (interrupted_wait timed all) in run c es ≡ c
unfolding run
run-stuck timed all [] = refl
run-stuck timed all (e ∷ es) =
    let c = run construct (interrupted_wait timed all) in
    ap (λ (d : Condition). run d es) (step-stuck timed all e) ∙ run-stuck timed all es

-- After a wait with or without a time limit that is interrupted in its loop, the only one on a new condition,
-- and one notification of either kind: the mutex is locked though nobody is asleep or about to unlock
-- it, and no sequence of events, of whatever threads, changes that: no later wait gets in, and no
-- notification gets through.
pub interrupted_waiter_blocks :
    (timed all : Bool) (es : List Event)
    → let c : Condition = run construct (interrupted_wait timed all) in
      (c.enter_locked ≡ true)
      × (c.waiters ≡ 1)
      × (c.asleep ≡ [])
      × (c.leaving ≡ [])
      × (run c es ≡ c)
unfolding run step construct
interrupted_waiter_blocks timed all es = (refl, refl, refl, refl, run-stuck timed all es)
