-- ===== src/Pool/Attributes/Tests.antt =====
-- A pool of two workers over a priority queue, with numbers for work and 0 the empty callable.
use boost_task.Prelude.{ℕ, ◌≡◌, refl, true, some, List, [], ◌∷◌, ◌++◌, ltb}
use mathlib.Core.List.{Permᴰ}
use boost_task.Prelude.Int.{pos}
use boost_task.Semaphore.Counting.{counting}
use boost_task.FastSemaphore
use boost_task.FastSemaphore.{Fast}
use boost_task.UnboundedPrioQueue
use boost_task.UnboundedPrioQueue.{PrioQueue, Value}
use boost_task.UnboundedPrioQueue.Greatest.{V, greatest, job, vacant}
use boost_task.UnboundedPrioQueue.Order.{IsDescending}
use boost_task.Pool.{done}
use boost_task.Pool.Attributes.{Pool, construct, submits, takes}
use boost_task.Pool.Attributes.Priority.{taken_by_priority}

abbrev P : Type 0
P = Pool counting vacant greatest

abbrev fsem : Fast counting
fsem = record { spin_count = 0; sem_count = pos 0; sem_active = true; sem = 0 }

-- After some posts.
abbrev after : ℕ → Fast counting
after n = record { spin_count = 0; sem_count = pos n; sem_active = true; sem = 0 }

abbrev fresh : P
fresh = construct counting vacant greatest 2 0 fsem

abbrev jobs : List V
jobs = job 5 1 ∷ job 6 3 ∷ job 7 2 ∷ []

taken_by_priority_example :
    (p' : P) × (submits counting vacant greatest fresh jobs ≡ some (done p'))
    × let q : PrioQueue ℕ ℕ (List V) = (takes counting vacant greatest p' (0 ∷ 0 ∷ [])).queue in
      (out : List V) × (q.taken ≡ out) × IsDescending ltb out × Permᴰ jobs (out ++ q.queue)
unfolding construct UnboundedPrioQueue.construct FastSemaphore.post
taken_by_priority_example =
    taken_by_priority counting vacant greatest fresh jobs (0 ∷ 0 ∷ []) (refl, refl) refl
      (refl, (refl, (refl, tt))) ((after 1, refl, (after 2, refl, (after 3, refl, tt))))
