-- ===== src/BoundedPrioQueue/Preserved.antt =====
-- The invariant of the bounded priority queue under its events.
use boost_task.Prelude.{
  ℕ, suc, ◌-◌, ◌<◌, ◌≤◌, ◌≡◌, refl, Bool, true, false, not, ◌||◌, Option, none, some, List, [], ◌∷◌,
  ◌==◌, leb, if-cases, length, length-append, arith,
}
use mathlib.Core.Path.{subst}
use boost_task.BoundedPrioQueue.{
  Heap, PrioQueue, Producer, size, empty, full, producers_activate, reject, finish_put, await_room,
  put, notify_picked, notify_one, notify_all, notify_room, try_take, deactivate, resume_picked,
  resume, expire, time_out_picked, time_out, Event, enter, take, close, wake, retry, expiry, step,
  run,
}
use boost_task.Prelude.Picks.{pick, Picked, pick-Picked}
use boost_task.BoundedPrioQueue.Inv.{
  Fits, Fits-more, Fits-fewer, Fits-push, Fits-sleep, Fits-nobody, Fits-pop_level, Fits-pop_high,
  Fits-closed, not-true, not-false, IsSound, Owing,
}

-- The predicate of the wait, read back.
activated-room :
    (active : Bool) (n hwm : ℕ) → (not active || not (leb hwm n)) ≡ true → active ≡ true → n < hwm
activated-room active n hwm c a = ground arith

pub inactivated-running :
    (active : Bool) (n hwm : ℕ) → (not active || not (leb hwm n)) ≡ false → active ≡ true
inactivated-running active n hwm c = ground arith

inactivated-full : (active : Bool) (n hwm : ℕ) → (not active || not (leb hwm n)) ≡ false → hwm ≤ n
inactivated-full active n hwm c = ground arith

not_full : (hwm n : ℕ) → leb hwm n ≡ false → n < hwm
not_full hwm n c = ground arith

module _ {V Q : Type 0} (heap : Heap V Q) where
  finish_put-IsSound :
      (q : PrioQueue V Q) (va : V)
      → Owing heap q
      → (q.active ≡ true → heap.size q.queue < q.hwm)
      → IsSound heap (finish_put heap q va)
  unfolding IsSound Owing finish_put reject
  finish_put-IsSound q va f room =
      if-cases (IsSound heap) (not q.active) (λ c. Fits-closed f (not-true q.active c))
        (λ o. rw (heap.size-push q.queue va) (Fits-push f (room (not-false q.active o))))

  await_room-IsSound :
      (q : PrioQueue V Q) (p : Producer V) → Owing heap q → IsSound heap (await_room heap q p)
  unfolding IsSound Owing await_room producers_activate full size
  await_room-IsSound q p f =
      let n = heap.size q.queue in
      let append = length-append q.asleep (p ∷ []) in
      if-cases (IsSound heap) (producers_activate heap q)
        (λ c. finish_put-IsSound q p.1 f (activated-room q.active n q.hwm c))
        (λ c.
          Fits-sleep _ f (inactivated-running q.active n q.hwm c)
            (inactivated-full q.active n q.hwm c))

  Owing-weak : (q : PrioQueue V Q) → IsSound heap q → Owing heap q
  unfolding IsSound Owing
  Owing-weak q f = Fits-more f

  put-IsSound : (q : PrioQueue V Q) (p : Producer V) → IsSound heap q → IsSound heap (put heap q p)
  unfolding put full size
  put-IsSound q p f =
      if-cases (IsSound heap) (full heap q) (λ c. await_room-IsSound q p (Owing-weak q f))
        (λ c. finish_put-IsSound q p.1 (Owing-weak q f) (λ a. not_full q.hwm (heap.size q.queue) c))

  notify_picked-IsSound :
      (q : PrioQueue V Q) (o : Option (Producer V × List (Producer V)))
      → Picked q.asleep o
      → Owing heap q
      → (o ≡ none → IsSound heap q)
      → IsSound heap (notify_picked heap q o)
  unfolding IsSound Owing Picked notify_picked
  notify_picked-IsSound q none t f g = g refl
  notify_picked-IsSound q (some (p, rest)) t f g =
      Fits-fewer (length rest) _ f (omega (arith, t))
        (omega (arith, length-append q.ready (p ∷ [])))

  notify_one-IsSound :
      (q : PrioQueue V Q) (i : ℕ)
      → Owing heap q
      → (length q.asleep ≡ 0 → IsSound heap q)
      → IsSound heap (notify_one heap q i)
  unfolding notify_one Picked
  notify_one-IsSound q i f g =
      notify_picked-IsSound q (pick q.asleep i) (pick-Picked q.asleep i) f (λ e. g (nobody e))
    where
      nobody : pick q.asleep i ≡ none → length q.asleep ≡ 0
      nobody e = subst (Picked q.asleep) e (pick-Picked q.asleep i)

  -- The notification after a value less.
  notify_room-IsSound :
      (q : PrioQueue V Q) (n i : ℕ)
      → Fits q.active (suc n) q.hwm q.lwm (length q.asleep) (length q.ready)
      → heap.size q.queue ≡ n
      → IsSound heap (notify_room heap q i)
  unfolding notify_room notify_all size IsSound Owing
  notify_room-IsSound q n i f same =
      let m = heap.size q.queue in
      let g : Fits q.active (suc m) q.hwm q.lwm (length q.asleep) (length q.ready) = rw same f in
      if-cases (IsSound heap) (leb m q.lwm)
        (λ low.
          if-cases (IsSound heap) (q.lwm == q.hwm)
            (λ e.
              notify_one-IsSound q i (Fits-pop_level g (ground arith))
                (λ z. Fits-nobody m q.active _ _ g z (omega arith)))
            (λ e. Fits-nobody m q.active 0 _ g refl (omega arith)))
        (λ high. Fits-pop_high g (ground arith))

  try_take-IsSound :
      (q : PrioQueue V Q) (i : ℕ) → IsSound heap q → IsSound heap (try_take heap q i).1
  unfolding try_take empty size IsSound
  try_take-IsSound q i f =
      let m = heap.size q.queue in
      if-cases (λ (r : Option V × PrioQueue V Q). IsSound heap r.1) (m == 0) (λ e. f)
        (λ e.
          let some_left : m ≡ suc (m - 1) = ground arith in
          notify_room-IsSound (record q { queue = heap.pop q.queue }) (m - 1) i
            (subst (λ k. Fits q.active k q.hwm q.lwm (length q.asleep) (length q.ready)) some_left
              f)
            (heap.size-pop q.queue (m - 1) some_left))

  deactivate-IsSound : (q : PrioQueue V Q) → IsSound heap q → IsSound heap (deactivate heap q)
  unfolding deactivate notify_all IsSound
  deactivate-IsSound q f = Fits-nobody (heap.size q.queue) false 0 _ f refl (omega arith)

  resume-IsSound : (q : PrioQueue V Q) (i : ℕ) → IsSound heap q → IsSound heap (resume heap q i)
  unfolding resume resume_picked Picked IsSound Owing
  resume-IsSound q i f = picked (pick q.ready i) (pick-Picked q.ready i)
    where
      picked :
          (o : Option (Producer V × List (Producer V)))
          → Picked q.ready o
          → IsSound heap (resume_picked heap q o)
      picked none t = f
      picked (some (p, rest)) t =
          await_room-IsSound (record q { ready = rest }) p
            (subst (Fits q.active (heap.size q.queue) q.hwm q.lwm (length q.asleep)) t f)

  time_out-IsSound : (q : PrioQueue V Q) (i : ℕ) → IsSound heap q → IsSound heap (time_out heap q i)
  unfolding time_out time_out_picked expire reject producers_activate full size Picked IsSound Owing
  time_out-IsSound q i f = picked (pick q.asleep i) (pick-Picked q.asleep i)
    where
      picked :
          (o : Option (Producer V × List (Producer V)))
          → Picked q.asleep o
          → IsSound heap (time_out_picked heap q o)
      picked none t = f
      picked (some ((timed, va), rest)) t =
          let n = heap.size q.queue in
          let fewer =
            Fits-fewer (length rest) (length q.ready) f (omega (arith, t)) (omega arith) in
          if-cases (IsSound heap) timed
            (λ _.
              if-cases (IsSound heap) (producers_activate heap q)
                (λ c.
                  finish_put-IsSound (record q { asleep = rest }) va (Fits-more fewer)
                    (activated-room q.active n q.hwm c))
                (λ c. fewer))
            (λ _. f)

  step-IsSound : (q : PrioQueue V Q) (e : Event V) → IsSound heap q → IsSound heap (step heap q e)
  unfolding step
  step-IsSound q (enter p) f = put-IsSound q p f
  step-IsSound q (take i) f = try_take-IsSound q i f
  step-IsSound q close f = deactivate-IsSound q f
  step-IsSound q (wake i) f = notify_one-IsSound q i (Owing-weak q f) (λ z. f)
  step-IsSound q (retry i) f = resume-IsSound q i f
  step-IsSound q (expiry i) f = time_out-IsSound q i f

  pub run-IsSound :
      (q : PrioQueue V Q) (es : List (Event V)) → IsSound heap q → IsSound heap (run heap q es)
  unfolding run
  run-IsSound q [] f = f
  run-IsSound q (e ∷ es) f = run-IsSound (step heap q e) es (step-IsSound q e f)
