-- ===== src/UnboundedFifo/Tests.antt =====
-- Runs of the unbounded queue with numbers, 0 the empty callable.
use boost_task.Prelude.{ℕ, ◌≡◌, refl, true, false, some, List, [], ◌∷◌, ◌++◌, ◌==◌}
use boost_task.Nodes.{Chain, write_next, update, write_va}
use boost_task.UnboundedFifo.{
  Fifo, Event, enter, link, look, pop, close, construct, run, put, try_take,
}
use boost_task.UnboundedFifo.Safety.{first_in_first_out}

-- Two puts, the second after the queue is closed and so refused, around a take.
abbrev script : List (Event ℕ)
script = enter 4 ∷ link ∷ look 0 ∷ enter 5 ∷ pop ∷ link ∷ close ∷ enter 6 ∷ link ∷ []

run-script :
    let q : Fifo ℕ = run 0 (construct 0 true) script in
    (q.accepted ≡ 4 ∷ 5 ∷ []) × (q.taken ≡ 4 ∷ []) × (q.rejected ≡ 6 ∷ []) × (q.owed ≡ 2)
unfolding run construct write_next update write_va
run-script = (refl, refl, refl, refl)

-- An empty callable is taken out, and the call answers false.
try_take-vacant : (try_take 0 (λ n. n == 0) (put 0 (construct 0 false) 0) 7).0 ≡ false
unfolding try_take put construct write_next update write_va
try_take-vacant = refl

first_in_first_out_example :
    let q : Fifo ℕ = run 0 (construct 0 true) script in
    ((xs : List ℕ) × Chain q.mem q.head q.tail xs × (q.accepted ≡ q.taken ++ xs))
    × ((ca : ℕ) → q.consumer ≡ some ca → (n : ℕ) × ((q.mem q.head).next ≡ some n))
first_in_first_out_example = first_in_first_out 0 true script
