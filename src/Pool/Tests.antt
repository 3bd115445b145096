-- ===== src/Pool/Tests.antt =====
-- Runs of a pool of three workers over the unbounded queue, with numbers for work and 0 the empty callable.
use boost_task.Prelude.{
  ℕ, ◌≡◌, refl, Bool, true, false, some, [], ◌∷◌, ◌==◌, arith, if-cases, if◌then◌else◌, ◌<◌,
}
use boost_task.Semaphore.Counting.{counting}
use boost_task.Semaphore.{returns}
use boost_task.FastSemaphore
use boost_task.Queue.{Queue}
use boost_task.UnboundedFifo.Calls.{unbounded_fifo, blank_queue}
use boost_task.Prelude.Int.{pos}
use boost_task.Wsq
use boost_task.Wsq.Inv.{IsValid, construct-IsValid}
use boost_task.Pool.{Ring, Pool, task_rejected, submit, shutdown}
use boost_task.Pool.Steal.{try_steal_other_work}
use boost_task.Pool.Search.{Outcome, steals_from_another, never_past_itself}
use boost_task.Pool.Shutdown.{shuts, submits, state_of, step, run, closed_pool}
use boost_task.Pool.Worker.{Outside, loop}
use boost_task.Pool.Drain.{AllWork, drain}
use boost_task.Pool.Delivery.{accepted_then_run}

abbrev work_queue : Queue ℕ (λ n. n == 0)
work_queue = unbounded_fifo 0 (λ n. n == 0)

abbrev P : Type 0
P = Pool counting work_queue 0

abbrev first_queue : (q : work_queue.Q) × work_queue.Holds q [] × (work_queue.active q ≡ true)
first_queue = blank_queue 0 (λ n. n == 0) true

-- The queue with the work 7.
abbrev queued :
    (q : work_queue.Q) × (work_queue.put first_queue.0 7 ≡ some q)
    × work_queue.Holds q (7 ∷ [])
    × (work_queue.active q ≡ true)
queued = work_queue.put_active first_queue.0 [] 7 first_queue.1 first_queue.2

abbrev start : work_queue.Q → P
start q = record {
  active = true;
  queue = q;
  fsem = record { spin_count = 0; sem_count = pos 0; sem_active = true; sem = 0 };
  size = 3;
  rings = λ i. Wsq.construct 0 tt;
  shtdwn = false;
  shtdwn_now = false;
  worker_shtdwn = λ i. false;
  ended = λ i. false;
  interrupted = λ i. false;
}

abbrev stopping : P
stopping = record (start queued.0) { shtdwn = true }

abbrev only : ℕ → Outside ℕ P
only n = record { rnd = 1; locks = λ i. true; run = λ w p. (p, w, true) }

none_local :
    (k : ℕ) × IsValid k (Wsq.construct {T = ℕ} {S = Unit {0}} 0 tt)
    × ((Wsq.construct {T = ℕ} {S = Unit {0}} 0 tt).head_idx
        ≡ (Wsq.construct {T = ℕ} {S = Unit {0}} 0 tt).tail_idx)
unfolding Wsq.construct
none_local = (5, construct-IsValid 0 tt, refl)

closed_pool_example :
    let q : P = step counting work_queue 0 (start first_queue.0) (shuts false) in
    (q.active ≡ false)
    × (submit counting work_queue 0 q 5 ≡ task_rejected q)
    × (run counting work_queue 0 q (submits 4 ∷ shuts true ∷ []) ≡ q)
closed_pool_example =
    closed_pool counting work_queue 0 (start first_queue.0) false 5 (submits 4 ∷ shuts true ∷ [])

drain_example :
    (p' : P) × (loop counting work_queue 0 2 only 1 stopping ≡ (7 ∷ [], some p'))
    × work_queue.Holds p'.queue []
    × (p'.ended 1 ≡ true)
unfolding AllWork
drain_example =
    drain counting work_queue 0 only 1 stopping (7 ∷ []) (λ n w p. refl) none_local refl refl
      queued.2 (refl, tt)

-- The semaphore after the post of a submit, and after its deactivation.
abbrev posted : FastSemaphore.Fast counting
posted = record { spin_count = 0; sem_count = pos 1; sem_active = true; sem = 0 }

abbrev stop_call : FastSemaphore.Fast counting
stop_call = record { spin_count = 0; sem_count = pos 2; sem_active = false; sem = 0 }

posts : FastSemaphore.post counting (start first_queue.0).fsem (pos 1) ≡ returns posted
unfolding FastSemaphore.post
posts = refl

deactivates : FastSemaphore.deactivate counting posted ≡ returns stop_call
unfolding FastSemaphore.deactivate
deactivates = refl

accepted_then_run_example :
    let p1 : P = state_of counting work_queue 0 (submit counting work_queue 0 (start queued.0) 9) in
    let p2 : P = state_of counting work_queue 0 (shutdown counting work_queue 0 false p1) in
    (p' : P) × (loop counting work_queue 0 3 only 1 p2 ≡ (7 ∷ 9 ∷ [], some p'))
    × work_queue.Holds p'.queue []
    × (p'.ended 1 ≡ true)
unfolding AllWork
accepted_then_run_example =
    accepted_then_run counting work_queue 0 only 1 (start queued.0) (7 ∷ []) 9 posted stop_call
      (λ n w p. refl) none_local refl refl queued.2 queued.3 (refl, (refl, tt)) posts deactivates

-- Worker 2 has the work 6, 5 in its ring.
abbrev filled : ℕ → Ring ℕ
filled i =
    if i == 2 then Wsq.insert 0 (Wsq.insert 0 (Wsq.construct 0 tt) 6) 5 else Wsq.construct 0 tt

steals-front : (try_steal_other_work 0 3 1 2 (λ i. true) filled 0).1 ≡ 6
unfolding try_steal_other_work Wsq.construct Wsq.insert Wsq.try_steal Wsq.has_room Wsq.store
steals-front = refl

steals-none : (try_steal_other_work 0 3 1 0 (λ i. true) filled 0).0 ≡ false
unfolding try_steal_other_work Wsq.construct Wsq.insert Wsq.try_steal Wsq.has_room Wsq.store
steals-none = refl

filled-IsValid : (j : ℕ) → (k : ℕ) × IsValid {T = ℕ} {S = Unit {0}} k (filled j)
unfolding Wsq.construct Wsq.insert Wsq.has_room Wsq.store
filled-IsValid j =
    if-cases (λ (r : Ring ℕ). (k : ℕ) × IsValid k r) (j == 2) (λ c. (5, omega arith))
      (λ c. (5, construct-IsValid 0 tt))

steals_from_another_example :
    Outcome 0 3 1 filled 0 (try_steal_other_work 0 3 1 2 (λ i. true) filled 0)
steals_from_another_example =
    steals_from_another 0 3 1 2 (λ i. true) filled 0 filled-IsValid (omega arith)

never_past_itself_example :
    let r : Bool × ℕ × (ℕ → Ring ℕ) = try_steal_other_work 0 3 1 0 (λ i. true) filled 0 in
    ((k : ℕ) → 1 < k → r.2 k ≡ filled k)
    × (try_steal_other_work 0 3 1 1 (λ i. true) filled 0 ≡ (false, 0, filled))
never_past_itself_example =
    never_past_itself 0 3 1 0 (λ i. true) filled 0 (omega arith) (omega arith)
