-- ===== src/BoundedFifo/Tests.antt =====
-- The theorems on the bounded queue at concrete inputs. A callable is a number, 0 the empty one.
use boost_task.Prelude.{
  ℕ, ◌+◌, ◌≡◌, ◌≤◌, ◌<◌, ◌≢◌, none, some, refl, Bool, false, List, [], ◌∷◌, ◌++◌, ◌==◌, length,
  arith,
}
use boost_task.BoundedFifo.{
  Fifo, Put, Producer, Consumer, Act, begin_put, producer_goes, begin_take, consumer_goes, run,
  construct,
}
use boost_task.BoundedFifo.Inv.{added, removed}
use boost_task.BoundedFifo.Safety.{reached, reach_safe, closed_for_good}
use boost_task.BoundedFifo.Calls.{put_alone, put_lem}

abbrev is_zero : ℕ → Bool
is_zero n = n == 0

abbrev call : ℕ → Put ℕ
call n = record { va = n; timed = false }

-- A put of 5 that runs alone, then a take up to its swap and a second put up to its link.
abbrev busy : List (Act ℕ)
busy =
    put_alone 0 is_zero (call 5)
    ++ (begin_take 0
        ∷ consumer_goes
        ∷ begin_put (call 6)
        ∷ producer_goes
        ∷ producer_goes
        ∷ consumer_goes
        ∷ [])

reach_safe_example :
    let q = reached 0 is_zero 4 2 busy in
    (xs : List ℕ) × (q.accepted ≡ q.taken ++ xs)
    × (q.count ≤ 4)
    × (q.count + added q.producer ≡ length xs + removed q.consumer)
    × (q.consumer ≢ Consumer.crashed)
reach_safe_example = reach_safe 0 is_zero 4 2 busy (omega arith)

-- In a queue for one element a producer finds it full and is about to test again, while a consumer has unlinked
-- that element.
abbrev missed : List (Act ℕ)
missed =
    put_alone 0 is_zero (call 5)
    ++ (begin_take 0
        ∷ consumer_goes
        ∷ begin_put (call 6)
        ∷ producer_goes
        ∷ producer_goes
        ∷ consumer_goes
        ∷ consumer_goes
        ∷ [])

put_lem_example :
    let q' = run 0 is_zero (put_alone 0 is_zero (call 5)) (construct 0 4 2) in
    (q'.producer ≡ Producer.free)
    × (q'.mem 0 ≡ record { va = 5; next = some 1 })
    × (q'.tail ≡ 1)
    × (q'.mem 1 ≡ record { va = 0; next = none })
    × ((a : ℕ) → a < 1 → a ≢ 0 → q'.mem a ≡ (construct 0 4 2).mem a)
    × (q'.head ≡ 0)
    × (q'.accepted ≡ 5 ∷ [])
    × (q'.rejected ≡ [])
    × (q'.count ≡ 1)
    × (q'.owed ≡ 1)
unfolding construct
put_lem_example =
    put_lem 0 is_zero (construct 0 4 2) (call 5) refl refl (omega arith) (omega arith) (omega arith)

abbrev shut : Fifo ℕ
shut = record (construct 0 4 2) { active = false; accepted = [] }

closed_for_good_example :
    ((run 0 is_zero (put_alone 0 is_zero (call 5)) shut).active ≡ false)
    × ((run 0 is_zero (put_alone 0 is_zero (call 5)) shut).accepted ≡ [])
unfolding construct
closed_for_good_example = closed_for_good 0 is_zero (put_alone 0 is_zero (call 5)) shut refl refl
