-- ===== src/Condition/Inv.antt =====
-- The states of the spin condition, where nobody is interrupted.
use boost_task.Prelude.{
  ℕ, suc, ◌-◌, ◌≡◌, ◌≢◌, refl, sym, ◌∙◌, Bool, true, false, not, true≢false, Option, none, some,
  List, [], ◌==◌, if-cases, length, arith,
}
use mathlib.Core.Path.{subst}
use boost_task.Prelude.Picks.{Picked}
use boost_task.Condition.{
  Command, sleeping, notify_one, notify_all, Condition, enter, set_command, notify, wake_by,
  wake_picked, time_out_by, time_out_picked, unlock_picked,
}

unfoldable pub IsOrder : Command → Type 0
IsOrder sleeping = ⊥
IsOrder notify_one = Unit {0}
IsOrder notify_all = Unit {0}

-- Free, with the mutex unlocked; under a command, which some waiter is there to take; or with one thread
-- that is about to unlock the mutex.
pub data Phase : Type 0 where
  free : Phase
  ordered : Phase
  handed : Phase

unfoldable pub InPhase : Condition → Phase → Type 0
unfolding IsOrder
InPhase c free = (c.cmd ≡ sleeping) × (c.enter_locked ≡ false) × (length c.leaving ≡ 0)
InPhase c ordered =
    IsOrder c.cmd
    × (c.enter_locked ≡ true)
    × (length c.leaving ≡ 0)
    × (n : ℕ) × (length c.asleep ≡ suc n)
InPhase c handed = (c.cmd ≡ sleeping) × (c.enter_locked ≡ true) × (length c.leaving ≡ 1)

-- The count is that of the sleepers, and no notifier has to try twice.
abbrev pub IsSound : Condition → Type 0
IsSound c = (c.waiters ≡ length c.asleep) × (c.spinning ≡ []) × (p : Phase) × InPhase c p

cmd_order : (k : Command) → IsOrder k → k ≢ sleeping
unfolding IsOrder
cmd_order sleeping order = absurd order
cmd_order notify_one order = λ e. cc e
cmd_order notify_all order = λ e. cc e

locked-free : (c : Condition) (p : Phase) → InPhase c p → c.enter_locked ≡ false → InPhase c free
unfolding InPhase
locked-free c free phase f = phase
locked-free c ordered (order, locked, left, n, asleep) f = absurd (true≢false (sym locked ∙ f))
locked-free c handed (quiet, locked, left) f = absurd (true≢false (sym locked ∙ f))

pub enter-IsSound : (c : Condition) (timed : Bool) → IsSound c → IsSound (enter c timed)
unfolding enter InPhase
enter-IsSound c timed (count, nobody, p, phase) =
    if-cases IsSound c.enter_locked (λ t. (count, nobody, p, phase))
      (λ f.
        let (quiet, unlocked, left) = locked-free c p phase f in
        (omega (arith, count), nobody, free, (quiet, unlocked, left)))

pub notify-IsSound :
    (c : Condition) (command : Command) → IsOrder command → IsSound c → IsSound (notify c command)
unfolding notify set_command InPhase
notify-IsSound c command order (count, nobody, p, phase) =
    if-cases IsSound c.enter_locked (λ t. (count, nobody, p, phase))
      (λ f.
        let (quiet, unlocked, left) = locked-free c p phase f in
        if-cases IsSound (c.waiters == 0) (λ t. (count, nobody, p, phase))
          (λ some_waiters.
            let asleep : length c.asleep ≡ suc (length c.asleep - 1) =
              ground (arith, count, some_waiters) in
            subst (λ k. IsSound (set_command (record c { enter_locked = true }) command k))
              (sym quiet)
              (count, nobody, ordered, (order, refl, left, length c.asleep - 1, asleep))))

wake_by-IsSound :
    (c : Condition) (k : Command) (timed : Bool) (rest : List Bool)
    → c.cmd ≡ k
    → IsOrder k
    → c.waiters ≡ suc (length rest)
    → c.spinning ≡ []
    → c.enter_locked ≡ true
    → length c.leaving ≡ 0
    → IsSound (wake_by c k timed rest)
unfolding wake_by InPhase IsOrder
wake_by-IsSound c sleeping timed rest e order count nobody locked left = absurd order
wake_by-IsSound c notify_one timed rest e order count nobody locked left =
    (omega (arith, count), nobody, handed, (refl, locked, omega (arith, left)))
wake_by-IsSound c notify_all timed rest e order count nobody locked left =
    if-cases IsSound (c.waiters == 1)
      (λ t. (omega (arith, count), nobody, handed, (refl, locked, omega (arith, left))))
      (λ f.
        let more : length rest ≡ suc (length rest - 1) = ground (arith, count, f) in
        let fewer : c.waiters - 1 ≡ length rest = omega (arith, count) in
        (fewer, nobody, ordered, (subst IsOrder (sym e) tt, locked, left, length rest - 1, more)))

pub wake_picked-IsSound :
    (c : Condition) (o : Option (Bool × List Bool))
    → Picked c.asleep o
    → IsSound c
    → IsSound (wake_picked c o)
unfolding wake_picked Picked InPhase wake_by
wake_picked-IsSound c none picked sound = sound
wake_picked-IsSound c (some (timed, rest)) picked (count, nobody, free, (quiet, unlocked, left)) =
    subst (λ k. IsSound (wake_by c k timed rest)) (sym quiet)
      (count, nobody, free, (quiet, unlocked, left))
wake_picked-IsSound c (some (timed, rest)) picked (count, nobody, handed, (quiet, locked, left)) =
    subst (λ k. IsSound (wake_by c k timed rest)) (sym quiet)
      (count, nobody, handed, (quiet, locked, left))
wake_picked-IsSound c (some (timed, rest)) picked
      (count, nobody, ordered, (order, locked, left, n, asleep)) =
    wake_by-IsSound c c.cmd timed rest refl order (count ∙ picked) nobody locked left

time_out_by-order :
    (c : Condition) (k : Command) (timed : Bool) (rest : List Bool)
    → IsOrder k
    → time_out_by c k timed rest ≡ c
unfolding time_out_by IsOrder
time_out_by-order c sleeping timed rest order = absurd order
time_out_by-order c notify_one timed rest order = refl
time_out_by-order c notify_all timed rest order = refl

time_out_quiet :
    (c : Condition) (timed : Bool) (rest : List Bool)
    → length c.asleep ≡ suc (length rest)
    → c.cmd ≡ sleeping
    → IsSound c
    → IsSound (time_out_by c sleeping timed rest)
unfolding time_out_by InPhase
time_out_quiet c timed rest picked quiet (count, nobody, p, phase) =
    if-cases IsSound (not timed) (λ t. (count, nobody, p, phase))
      (λ limited.
        if-cases IsSound c.enter_locked (λ t. (count, nobody, p, phase))
          (λ f.
            let (quiet', unlocked, left) = locked-free c p phase f in
            (omega (arith, count, picked), nobody, handed, (quiet, refl, omega (arith, left)))))

pub time_out_picked-IsSound :
    (c : Condition) (o : Option (Bool × List Bool))
    → Picked c.asleep o
    → IsSound c
    → IsSound (time_out_picked c o)
unfolding time_out_picked Picked InPhase
time_out_picked-IsSound c none picked sound = sound
time_out_picked-IsSound c (some (timed, rest)) picked
      (count, nobody, free, (quiet, unlocked, left)) =
    subst (λ k. IsSound (time_out_by c k timed rest)) (sym quiet)
      (time_out_quiet c timed rest picked quiet (count, nobody, free, (quiet, unlocked, left)))
time_out_picked-IsSound c (some (timed, rest)) picked
      (count, nobody, handed, (quiet, locked, left)) =
    subst (λ k. IsSound (time_out_by c k timed rest)) (sym quiet)
      (time_out_quiet c timed rest picked quiet (count, nobody, handed, (quiet, locked, left)))
time_out_picked-IsSound c (some (timed, rest)) picked
      (count, nobody, ordered, (order, locked, left, n, asleep)) =
    subst IsSound (sym (time_out_by-order c c.cmd timed rest order))
      (count, nobody, ordered, (order, locked, left, n, asleep))

pub unlock_picked-IsSound :
    (c : Condition) (o : Option (Bool × List Bool))
    → Picked c.leaving o
    → IsSound c
    → IsSound (unlock_picked c o)
unfolding unlock_picked Picked InPhase
unlock_picked-IsSound c none picked sound = sound
unlock_picked-IsSound c (some (timed, rest)) picked (count, nobody, free, (quiet, unlocked, left)) =
    absurd (omega (arith, picked, left))
unlock_picked-IsSound c (some (timed, rest)) picked (count, nobody, handed, (quiet, locked, left)) =
    (count, nobody, free, (quiet, refl, omega (arith, picked, left)))
unlock_picked-IsSound c (some (timed, rest)) picked
      (count, nobody, ordered, (order, locked, left, n, asleep)) =
    absurd (omega (arith, picked, left))
