-- ===== src/Pool/Worker.antt =====
-- include/boost/task/detail/worker.hpp: `worker_function`, the loop of a worker, one turn at a time.
use boost_task.Prelude.{
  ℕ, zero, suc, Bool, true, not, ◌&&◌, ◌||◌, Option, none, some, List, [], ◌∷◌, ◌==◌, if◌then◌else◌,
}
use boost_task.Prelude.Int.{pos}
use boost_task.Semaphore.{Sysv, Call, returns, asleep, invalid_argument, system_error}
use boost_task.FastSemaphore
use boost_task.FastSemaphore.{Fast}
use boost_task.Queue.{Queue}
use boost_task.Wsq
use boost_task.Wsq.{Wsq}
use boost_task.Pool.{Pool}
use boost_task.Pool.Steal.{put_ring, try_steal_other_work}

-- A turn of the loop: the worker's function returns; the work that it found has run, and what is left of
-- it is in the worker's ring (with the work as it was found); or it found none and waits on the semaphore.
pub data Turn (V P : Type 0) : Type 0 where
  left : P → Turn V P
  worked : V → Call P → Turn V P
  idled : Call P → Turn V P

-- What a turn takes from outside: the random index, the answers of the try-locks, and the work run on the
-- pool, with what is left of it and whether it is complete.
pub record Outside (V P : Type 0) : Type 0 where
  pub rnd : ℕ
  pub locks : ℕ → Bool
  pub run : V → P → P × V × Bool

module _ (os : Sysv) {V : Type 0} {is_vacant : V → Bool} (queue : Queue V is_vacant)
    (vacant : V) where
  abbrev P : Type 0
  P = Pool os queue vacant

  -- `shutdown__`: the worker's own flag follows the pool's.
  unfoldable pub shutdown_seen : ℕ → P → Bool × P
  shutdown_seen i p =
      let seen : Bool = p.worker_shtdwn i || p.shtdwn in
      (seen, record p { worker_shtdwn = λ j. if i == j then seen else p.worker_shtdwn j })

  -- `shutdown_`
  unfoldable pub shutdown : ℕ → P → Bool × P
  unfolding shutdown_seen
  shutdown i p =
      let (seen, p') = shutdown_seen i p in (seen && queue.empty p'.queue || p'.shtdwn_now, p')

  unfoldable pub take_local : ℕ → P → V → Bool × V × P
  take_local i p w =
      let (taken, out, ring) = Wsq.try_take vacant (p.rings i) w in
      (taken, out, record p { rings = put_ring p.rings i ring })

  unfoldable pub take_global : P → V → Bool × V × P
  take_global p w =
      let (taken, out, q) = queue.try_take p.queue w in (taken, out, record p { queue = q })

  unfoldable pub steal_other : Outside V P → ℕ → P → V → Bool × V × P
  unfolding try_steal_other_work
  steal_other o i p w =
      let (taken, out, rings) = try_steal_other_work vacant p.size i o.rnd o.locks p.rings w in
      (taken, out, record p { rings = rings })

  -- The worker's own ring, then the queue, then the rings of the others.
  unfoldable pub find : Outside V P → ℕ → P → Bool × V × P
  unfolding take_local take_global steal_other
  find o i p =
      let own = take_local i p vacant in
      let global = take_global own.2 own.1 in
      if own.0 then own else if global.0 then global else steal_other o i global.2 global.1

  pub with_fsem : P → Call (Fast os) → Call P
  with_fsem p (returns f) = returns (record p { fsem = f })
  with_fsem p (asleep f) = asleep (record p { fsem = f })
  with_fsem p (invalid_argument f) = invalid_argument (record p { fsem = f })
  with_fsem p (system_error f) = system_error (record p { fsem = f })

  -- `wsq_.put( w)`
  unfoldable pub put_local : ℕ → P → V → Call P
  unfolding with_fsem
  put_local i p w =
      let p' : P = record p { rings = put_ring p.rings i (Wsq.insert vacant (p.rings i) w) } in
      with_fsem p' (FastSemaphore.post os p'.fsem (pos 1))

  -- `active.run()`, and the work back in the ring if it is not complete.
  unfoldable pub run_work : Outside V P → ℕ → V → P → Turn V P
  unfolding put_local
  run_work o i w p =
      let (p', w', complete) = o.run w p in
      worked w (if not complete then put_local i p' w' else returns p')

  unfoldable pub turn : Outside V P → ℕ → P → Turn V P
  unfolding shutdown find run_work with_fsem
  turn o i p =
      let (stop, p') = shutdown i p in
      let (found, w, p'') = find o i p' in
      if stop
      then left (record p' { ended = λ j. if i == j then true else p'.ended j })
      else if found
      then run_work o i w p''
      else idled (with_fsem p'' (FastSemaphore.wait os p''.fsem))

  pub after_turn : (P → List V × Option P) → Turn V P → List V × Option P
  after_turn rest (left p) = ([], some p)
  after_turn rest (worked w (returns p)) = let (ran, end) = rest p in (w ∷ ran, end)
  after_turn rest (worked w (asleep p)) = (w ∷ [], none)
  after_turn rest (worked w (invalid_argument p)) = (w ∷ [], none)
  after_turn rest (worked w (system_error p)) = (w ∷ [], none)
  after_turn rest (idled (returns p)) = rest p
  after_turn rest (idled (asleep p)) = ([], none)
  after_turn rest (idled (invalid_argument p)) = ([], none)
  after_turn rest (idled (system_error p)) = ([], none)

  -- The loop, for as many turns as the first argument says, each with what it takes from outside, by the
  -- turns left: the work that was run, and the pool where the worker's function has returned.
  unfoldable pub loop : ℕ → (ℕ → Outside V P) → ℕ → P → List V × Option P
  unfolding turn after_turn
  loop zero o i p = ([], none)
  loop (suc turns) o i p = after_turn (loop turns o i) (turn (o turns) i p)
