-- ===== src/Condition/Safety.antt =====
-- What the spin condition promises where nobody is interrupted inside it.
use boost_task.Prelude.{ℕ, ◌≡◌, refl, sym, Bool, true, false, List, [], ◌∷◌, if◌then◌else◌, length}
use mathlib.Core.Path.{subst}
use boost_task.Prelude.Picks.{pick, pick-Picked}
use boost_task.Condition.{
  notify_one, notify_all, Condition, construct, retry_picked, retry, wake, time_out, unlock, Event,
  enters, notifies, retries, wakes, expires, unlocks, interrupts, step, run,
}
use boost_task.Condition.Inv.{
  IsOrder, Phase, free, InPhase, IsSound, enter-IsSound, notify-IsSound, wake_picked-IsSound,
  time_out_picked-IsSound, unlock_picked-IsSound,
}

-- Nobody is interrupted.
unfoldable pub IsCalm : List Event → Type 0
IsCalm [] = Unit {0}
IsCalm (enters timed ∷ es) = IsCalm es
IsCalm (notifies all ∷ es) = IsCalm es
IsCalm (retries i ∷ es) = IsCalm es
IsCalm (wakes i ∷ es) = IsCalm es
IsCalm (expires i ∷ es) = IsCalm es
IsCalm (unlocks i ∷ es) = IsCalm es
IsCalm (interrupts i ∷ es) = ⊥

IsOrder-all : (all : Bool) → IsOrder (if all then notify_all else notify_one)
unfolding IsOrder
IsOrder-all true = tt
IsOrder-all false = tt

retry-IsSound : (c : Condition) (i : ℕ) → IsSound c → IsSound (retry c i)
unfolding retry retry_picked
retry-IsSound c i (count, nobody, p, phase) =
    subst (λ s. IsSound (retry_picked c (pick s i))) (sym nobody) (count, nobody, p, phase)

run-IsSound : (c : Condition) (es : List Event) → IsCalm es → IsSound c → IsSound (run c es)
unfolding run step IsCalm wake time_out unlock
run-IsSound c [] calm sound = sound
run-IsSound c (enters timed ∷ es) calm sound =
    run-IsSound (step c (enters timed)) es calm (enter-IsSound c timed sound)
run-IsSound c (notifies all ∷ es) calm sound =
    run-IsSound (step c (notifies all)) es calm
      (notify-IsSound c (if all then notify_all else notify_one) (IsOrder-all all) sound)
run-IsSound c (retries i ∷ es) calm sound =
    run-IsSound (step c (retries i)) es calm (retry-IsSound c i sound)
run-IsSound c (wakes i ∷ es) calm sound =
    run-IsSound (step c (wakes i)) es calm
      (wake_picked-IsSound c (pick c.asleep i) (pick-Picked c.asleep i) sound)
run-IsSound c (expires i ∷ es) calm sound =
    run-IsSound (step c (expires i)) es calm
      (time_out_picked-IsSound c (pick c.asleep i) (pick-Picked c.asleep i) sound)
run-IsSound c (unlocks i ∷ es) calm sound =
    run-IsSound (step c (unlocks i)) es calm
      (unlock_picked-IsSound c (pick c.leaving i) (pick-Picked c.leaving i) sound)
run-IsSound c (interrupts i ∷ es) calm sound = absurd calm

-- Whatever threads wait, notify, wake and run out of time on a new condition, in whatever order, with nobody
-- interrupted: the count is that of the sleepers, no notifier has to try its exchange again, and one
-- of these holds. The condition is quiet and its mutex unlocked; or a command is set, the mutex is
-- locked, and there is a sleeper to take the command; or the mutex is locked, and exactly one thread is
-- about to unlock it.
pub command_has_taker :
    (es : List Event)
    → IsCalm es
    → let c : Condition = run construct es in
      (c.waiters ≡ length c.asleep) × (c.spinning ≡ []) × (p : Phase) × InPhase c p
unfolding construct InPhase
command_has_taker es calm = run-IsSound construct es calm (refl, refl, free, (refl, refl, refl))
