-- ===== src/Events/Tests.antt =====
-- Runs of the events.
use boost_task.Prelude.{
  ◌+◌, ◌-◌, ◌^◌, ◌≤◌, ◌≡◌, refl, true, false, some, List, [], ◌∷◌, ◌++◌, arith,
}
use boost_task.Events.AutoReset
use boost_task.Events.AutoReset.{Waiters, Event, signals, tries}
use boost_task.Events.Rounds.{one_if, one_for_each_set}
use boost_task.Events.ManualReset
use boost_task.Events.ManualReset.{
  Manual, sets, resets, begin_set, set_exchange, set_count, begin_reset,
}
use boost_task.Events.Release.{come_to_wait}
use boost_task.Events.CountDown
use boost_task.Events.CountDown.{Counter}
use boost_task.Events.Overshoot.{all_test, all_lower, all_set, one_set_too_many}

abbrev script : List Event
script = tries ∷ tries ∷ signals ∷ signals ∷ tries ∷ []

run-script : (AutoReset.run (AutoReset.initial true) script).passed ≡ 2
unfolding AutoReset.run AutoReset.initial
run-script = refl

wait-third : AutoReset.wait (false ∷ false ∷ true ∷ []) ≡ some false
unfolding AutoReset.wait
wait-third = refl

timed_wait-late : CountDown.timed_wait false ((2, false) ∷ (1, true) ∷ []) ≡ some false
unfolding CountDown.timed_wait
timed_wait-late = refl

one_for_each_set_example :
    let w : Waiters = AutoReset.run (AutoReset.initial true) script in
    let w' : Waiters = AutoReset.step (AutoReset.step w signals) tries in
    (w.passed + one_if w.state ≤ w.sets + 1) × (w'.passed ≡ w.passed + 1) × (w'.state ≡ false)
one_for_each_set_example = one_for_each_set true script

one_set_too_many_example :
    let c : Counter = CountDown.run (CountDown.construct 1) (all_test 2 ++ all_lower 2) in
    ((CountDown.run (CountDown.construct 1) (all_set 5)).current ≡ 1 - 5)
    × (c.current ≡ 2 ^ 64 - 1)
    × (CountDown.is_set c ≡ false)
one_set_too_many_example = one_set_too_many 0 5 (omega arith)

-- A set with two waiters keeps the mutex, so that a reset that follows does not get it.
abbrev handed : List ManualReset.Event
handed =
    come_to_wait 2
    ++ (sets begin_set ∷ sets set_exchange ∷ sets set_count ∷ resets begin_reset ∷ [])

run-handed :
    let m : Manual = ManualReset.run (ManualReset.construct false) handed in
    (m.state ≡ true) × (m.waiters ≡ 2) × (m.locked ≡ true) × (m.found ≡ 2)
unfolding ManualReset.run ManualReset.construct
run-handed = (refl, refl, refl, refl)
