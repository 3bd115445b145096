-- ===== src/UnboundedPrioQueue/Tests.antt =====
-- Runs of the unbounded priority queue over numbers, 0 the empty callable.
use boost_task.Prelude.{ℕ, ◌≡◌, refl, false, List, [], ◌∷◌, ◌++◌, length}
use mathlib.Core.List.{Permᴰ}
use boost_task.UnboundedPrioQueue.{PrioQueue, Call, puts, takes, closes, construct, run}
use boost_task.UnboundedPrioQueue.Order.{nothing_lost}
use boost_task.UnboundedPrioQueue.Greatest.{V, greatest, job, vacant}

abbrev script : List (Call ℕ ℕ)
script = puts (job 5 1) ∷ puts (job 6 3) ∷ puts (job 7 2) ∷ takes 0 ∷ closes ∷ puts (job 8 9) ∷ []

run-script :
    let q : PrioQueue ℕ ℕ (List V) = run vacant greatest (construct vacant greatest) script in
    (q.taken ≡ job 6 3 ∷ []) × (q.posts ≡ 3) × (q.active ≡ false)
unfolding run construct
run-script = (refl, refl, refl)

nothing_lost_example :
    let q : PrioQueue ℕ ℕ (List V) = run vacant greatest (construct vacant greatest) script in
    Permᴰ q.accepted (q.taken ++ q.queue) × (q.posts ≡ length q.accepted)
nothing_lost_example = nothing_lost vacant greatest script
