-- ===== src/Pool/Drain.antt =====
-- A worker of a pool that shuts down.
use boost_task.Prelude.{
  ℕ, zero, suc, ◌≡◌, refl, ap, ap₂, ◌∙◌, Bool, true, false, not, ◌&&◌, ◌||◌, Option, some, List, [],
  ◌∷◌, length, if◌then◌else◌, ◌==◌, arith,
}
use boost_task.Semaphore.{Sysv, returns}
use boost_task.FastSemaphore
use boost_task.FastSemaphore.{Fast}
use boost_task.Queue.{Queue}
use boost_task.Wsq.Inv.{IsValid, try_take_none}
use boost_task.Pool.{Ring, Pool}
use boost_task.Pool.Steal.{put_ring}
use boost_task.Pool.Search.{put_ring-same}
use boost_task.Pool.Worker
use boost_task.Pool.Worker.{
  Turn, left, worked, idled, Outside, shutdown_seen, take_local, take_global, steal_other, find,
  run_work, put_local, with_fsem, turn, after_turn, loop,
}

stop_not : (seen e now : Bool) → e ≡ false → now ≡ false → (seen && e || now) ≡ false
stop_not true e now h n = ap (λ (b : Bool). b || now) h ∙ n
stop_not false e now h n = n

stop_now : (a s e now : Bool) → s ≡ true → e ≡ true → ((a || s) && e || now) ≡ true
stop_now true s e now h t = ap (λ (b : Bool). b || now) t
stop_now false s e now h t = ap (λ (b : Bool). b && e || now) h ∙ ap (λ (b : Bool). b || now) t

module _ (os : Sysv) {V : Type 0} {is_vacant : V → Bool} (queue : Queue V is_vacant)
    (vacant : V) where
  abbrev P : Type 0
  P = Pool os queue vacant

  -- The own ring of a worker is in order and holds nothing.
  abbrev pub NoneLocal : ℕ → P → Type 0
  NoneLocal i p = (k : ℕ) × IsValid k (p.rings i) × ((p.rings i).head_idx ≡ (p.rings i).tail_idx)

  -- Work that is complete when it has run and leaves the pool as it is.
  abbrev pub RunsOnly : Outside V P → Type 0
  RunsOnly o = (w : V) (p : P) → o.run w p ≡ (p, w, true)

  -- None of the list is an empty callable.
  unfoldable pub AllWork : List V → Type 0
  AllWork [] = Unit {0}
  AllWork (x ∷ xs) = (is_vacant x ≡ false) × AllWork xs

  take_local-none :
      (i : ℕ) (p : P) → NoneLocal i p → take_local os queue vacant i p vacant ≡ (false, vacant, p)
  unfolding take_local
  take_local-none i p (k, v, same) =
      let e = try_take_none vacant vacant v same in
      ap (λ (r : Bool × V × Ring V). (r.0, r.1, record p { rings = put_ring p.rings i r.2 })) e
      ∙ ap (λ (rs : ℕ → Ring V). (false, vacant, record p { rings = rs }))
          (put_ring-same p.rings i (p.rings i) refl)

  find-global :
      (o : Outside V P) (i : ℕ) (p : P) (x : V) (q : queue.Q)
      → NoneLocal i p
      → queue.try_take p.queue vacant ≡ (true, x, q)
      → find os queue vacant o i p ≡ (true, x, record p { queue = q })
  unfolding find take_global
  find-global o i p x q local e =
      ap
        (λ (own : Bool × V × P).
          let global = take_global os queue vacant own.2 own.1 in
          if own.0
          then own
          else if global.0
          then global
          else steal_other os queue vacant o i global.2 global.1)
        (take_local-none i p local)
      ∙ ap
          (λ (r : Bool × V × queue.Q).
            let global : Bool × V × P = (r.0, r.1, record p { queue = r.2 }) in
            if global.0 then global else steal_other os queue vacant o i global.2 global.1)
          e

  run_work-only :
      (o : Outside V P) (i : ℕ) (w : V) (p : P)
      → RunsOnly o
      → run_work os queue vacant o i w p ≡ worked w (returns p)
  unfolding run_work
  run_work-only o i w p only =
      ap
        (λ (r : P × V × Bool).
          worked w (if not r.2 then put_local os queue vacant i r.0 r.1 else returns r.0))
        (only w p)

  -- The state of the pool that a worker sees in its turn.
  seen_by : ℕ → P → P
  unfolding shutdown_seen
  seen_by i p = (shutdown_seen os queue vacant i p).1

  turn-takes :
      (o : Outside V P) (i : ℕ) (p : P) (x : V) (xs : List V) (q : queue.Q)
      → RunsOnly o
      → NoneLocal i p
      → p.shtdwn_now ≡ false
      → queue.Holds p.queue (x ∷ xs)
      → queue.try_take p.queue vacant ≡ (true, x, q)
      → turn os queue vacant o i p ≡ worked x (returns (record (seen_by i p) { queue = q }))
  unfolding turn Worker.shutdown shutdown_seen seen_by
  turn-takes o i p x xs q only local now holds e =
      let p' = seen_by i p in
      ap₂
        (λ (stop : Bool) (r : Bool × V × P).
          if stop
          then left (record p' { ended = λ j. if i == j then true else p'.ended j })
          else if r.0
          then run_work os queue vacant o i r.1 r.2
          else idled (with_fsem os queue vacant r.2 (FastSemaphore.wait os r.2.fsem)))
        (stop_not (p.worker_shtdwn i || p.shtdwn) (queue.empty p.queue) p.shtdwn_now
          (queue.empty_cons p.queue x xs holds) now)
        (find-global o i p' x q local e)
      ∙ run_work-only o i x (record p' { queue = q }) only

  -- Where the pool shuts down and its queue is empty, the turn of a worker ends its function.
  turn-ends :
      (o : Outside V P) (i : ℕ) (p : P)
      → p.shtdwn ≡ true
      → queue.Holds p.queue []
      → turn os queue vacant o i p
        ≡ left (record (seen_by i p) { ended = λ j. if i == j then true else p.ended j })
  unfolding turn Worker.shutdown shutdown_seen seen_by
  turn-ends o i p shut holds =
      let p' = seen_by i p in
      let (found, w, p'') = find os queue vacant o i p' in
      ap
        (λ (stop : Bool).
          if stop
          then left (record p' { ended = λ j. if i == j then true else p'.ended j })
          else if found
          then run_work os queue vacant o i w p''
          else idled (with_fsem os queue vacant p'' (FastSemaphore.wait os p''.fsem)))
        (stop_now (p.worker_shtdwn i) p.shtdwn (queue.empty p.queue) p.shtdwn_now shut
          (queue.empty_nil p.queue holds))

  -- Where the pool shuts down without haste, its queue holds `xs`, none of them empty, the worker's own ring
  -- is empty, and all work is complete when it has run and leaves the pool as it is: the worker runs exactly `xs`, in order, and returns within
  -- one turn more, with the queue empty.
  pub drain :
      (o : ℕ → Outside V P) (i : ℕ) (p : P) (xs : List V)
      → ((n : ℕ) → RunsOnly (o n))
      → NoneLocal i p
      → p.shtdwn ≡ true
      → p.shtdwn_now ≡ false
      → queue.Holds p.queue xs
      → AllWork xs
      → (p' : P) × (loop os queue vacant (suc (length xs)) o i p ≡ (xs, some p'))
        × queue.Holds p'.queue []
        × (p'.ended i ≡ true)
  unfolding loop seen_by shutdown_seen AllWork
  drain o i p [] only local shut now holds work =
      let p' : P = record (seen_by i p) { ended = λ j. if i == j then true else p.ended j } in
      let here : (i == i) ≡ true = ground arith in
      (
        p',
        ap (after_turn os queue vacant (loop os queue vacant zero o i))
            (turn-ends (o zero) i p shut holds),
        holds,
        ap (λ (b : Bool). if b then true else p.ended i) here,
      )
  drain o i p (x ∷ xs) only local shut now holds (some_work, work) =
      let (q, e, holds', same) = queue.take_front p.queue x xs vacant holds some_work in
      let p'' : P = record (seen_by i p) { queue = q } in
      let (end, ran, nothing, ended) = drain o i p'' xs only local shut now holds' work in
      (
        end,
        ap (after_turn os queue vacant (loop os queue vacant (suc (length xs)) o i)) (
              turn-takes (o (suc (length xs))) i p x xs q (only (suc (length xs))) local now holds
                e)
            ∙ ap (λ (r : List V × Option P). (x ∷ r.0, r.1)) ran,
        nothing,
        ended,
      )

  -- Where the pool shuts down and the queue is empty, a worker's function returns in its first turn without
  -- running anything, and leaves the worker's own ring as it is, whatever it holds.
  leaves_its_ring :
      (o : ℕ → Outside V P) (turns i : ℕ) (p : P)
      → p.shtdwn ≡ true
      → queue.Holds p.queue []
      → (p' : P) × (loop os queue vacant (suc turns) o i p ≡ ([], some p'))
        × (p'.rings ≡ p.rings)
        × (p'.ended i ≡ true)
  unfolding loop seen_by shutdown_seen
  leaves_its_ring o turns i p shut holds =
      let p' : P = record (seen_by i p) { ended = λ j. if i == j then true else p.ended j } in
      let here : (i == i) ≡ true = ground arith in
      (
        p',
        ap (after_turn os queue vacant (loop os queue vacant turns o i))
            (turn-ends (o turns) i p shut holds),
        refl,
        ap (λ (b : Bool). if b then true else p.ended i) here,
      )
