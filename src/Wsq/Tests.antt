-- ===== src/Wsq/Tests.antt =====
-- The theorems on the work-stealing queue at concrete inputs. A callable is a number, 0 the empty one.
use boost_task.Prelude.{
  ℕ, ◌≡◌, refl, true, false, List, [], ◌∷◌, ◌++◌, none, some, replicate, arith,
}
use boost_task.Prelude.Int.{pos}
use boost_task.Semaphore.{returns}
use boost_task.Semaphore.Counting.{counting}
use boost_task.FastSemaphore.{Fast}
use boost_task.Wsq.{Wsq, construct, has_room, store, insert, put, run}
use boost_task.Wsq.Inv.{IsValid, contents, construct-IsValid}
use boost_task.Wsq.Deque
use boost_task.Wsq.Deque.{Op, take, steal}
use boost_task.Wsq.Refine.{run_refines, put_refines}
use boost_task.Wsq.Shared.{
  Event, puts, takes, looks, swaps, relocks, steals, checks, grabs, Shared, at_rest, history, final,
  ops_of, replies_of,
}
use boost_task.Wsq.Shared.Inv.{settled}
use boost_task.Wsq.Shared.Linear.{overlapping_calls}
use boost_task.Wsq.Race.{steal_begin, steal_end, put_during_steal}

abbrev script : List (Op ℕ)
script =
    Op.put 4 ∷ Op.put 5 ∷ Op.put 6 ∷ take 0 ∷ steal true 0 ∷ steal false 0 ∷ take 0 ∷ take 0 ∷ []

abbrev ring : Wsq ℕ ℕ
ring = construct 0 0

run_refines_example :
    run 0 ring script
    ≡ none
      ∷ none
      ∷ none
      ∷ some (true, 6)
      ∷ some (true, 4)
      ∷ some (false, 0)
      ∷ some (true, 5)
      ∷ some (false, 0)
      ∷ []
unfolding Deque.run Deque.take_back Deque.take_front construct
run_refines_example = run_refines 0 script {w = ring} (construct-IsValid 0 0) (omega arith)

abbrev idle : Fast counting
idle = record { spin_count = 0; sem_count = pos 0; sem_active = true; sem = 0 }

-- A ring of 32 slots, all in use from index 3 on; 9 is the front.
abbrev crowded : Wsq ℕ (Fast counting)
crowded = record {
  array = 1 ∷ 1 ∷ 1 ∷ 9 ∷ replicate 28 1;
  capacity = 32;
  mask = 31;
  head_idx = 3;
  tail_idx = 35;
  fsem = idle;
}

crowded-IsValid : IsValid 5 crowded
crowded-IsValid = omega arith

put_refines_example :
    (w' : Wsq ℕ (Fast counting)) × (put counting 0 crowded 8 ≡ returns w')
    × (k' : ℕ) × IsValid k' w'
    × (contents 0 w' ≡ (9 ∷ replicate 31 1) ++ (8 ∷ []))
    × (w'.fsem ≡ record idle { sem_count = pos 1 })
put_refines_example = put_refines counting 0 8 0 crowded-IsValid (omega arith) refl (omega arith)

put_during_steal_example :
    let (taken, out, w') = steal_end 0 (insert 0 (steal_begin crowded) 8) 3 0 in
    (taken ≡ true) × (out ≡ 8) × (contents 0 w' ≡ replicate 31 1 ++ (0 ∷ []))
put_during_steal_example =
    put_during_steal 0 8 0 9 (replicate 31 1) crowded-IsValid refl (omega arith) refl

-- Two are put; a thief has raised the head index when the owner lowers the tail index, so the owner does
-- without the lock for the second, and asks for the lock for the first, which the thief gets.
abbrev contest : List (Event ℕ)
contest =
    puts 4
    ∷ puts 5
    ∷ steals 0
    ∷ takes 0
    ∷ looks
    ∷ steals 0
    ∷ checks
    ∷ swaps
    ∷ takes 0
    ∷ looks
    ∷ relocks
    ∷ grabs
    ∷ relocks
    ∷ []

history-contest :
    replies_of (history 0 (at_rest ring) contest)
    ≡ none ∷ none ∷ some (false, 0) ∷ some (true, 5) ∷ some (true, 4) ∷ some (false, 0) ∷ []
unfolding history construct has_room insert store
history-contest = refl

overlapping_calls_example :
    let log = history 0 (at_rest ring) contest in
    let s : Shared ℕ ℕ = final 0 (at_rest ring) contest in
    (Deque.run [] (ops_of log) ≡ replies_of log)
    × (contents 0 (settled s.ring s.owner s.thief) ≡ Deque.after [] (ops_of log))
unfolding construct
overlapping_calls_example =
    overlapping_calls 0 {w = ring} contest (construct-IsValid 0 0) (omega arith) (omega arith)
