-- ===== src/Pool/Steal.antt =====
-- include/boost/task/detail/worker.hpp: `try_steal_other_work_`, the search of a worker through the rings
-- of the others.
use boost_task.Prelude.{ℕ, zero, suc, ◌+◌, Bool, true, false, leb, ◌==◌, if◌then◌else◌}
use boost_task.Wsq
use boost_task.Wsq.{Wsq}
use boost_task.Pool.{Ring}

unfoldable pub put_ring : {V : Type 0} → (ℕ → Ring V) → ℕ → Ring V → ℕ → Ring V
put_ring rings i r j = if i == j then r else rings j

-- `if ( ++idx >= pool_.wg_.size() ) idx = 0`
unfoldable pub next_index : ℕ → ℕ → ℕ
next_index size idx = if leb size (idx + 1) then 0 else idx + 1

module _ {V : Type 0} (vacant : V) (size self : ℕ) where
  -- The loop with the rounds left; `locks` has the answers of the try-locks, by the rounds left. A
  -- worker that meets itself goes to the next round with the index as it is.
  unfoldable pub steal_loop : ℕ → ℕ → (ℕ → Bool) → (ℕ → Ring V) → V → Bool × V × (ℕ → Ring V)
  unfolding put_ring next_index
  steal_loop zero idx locks rings w = (false, w, rings)
  steal_loop (suc rounds) idx locks rings w =
      let stay = steal_loop rounds idx locks rings w in
      let (taken, out, ring) = Wsq.try_steal vacant (locks rounds) (rings idx) w in
      let rings' = put_ring rings idx ring in
      let rest = steal_loop rounds (next_index size idx) locks rings' out in
      if idx == self then stay else if taken then (true, out, rings') else rest

  -- `rnd` is the answer of the random index.
  unfoldable pub try_steal_other_work : ℕ → (ℕ → Bool) → (ℕ → Ring V) → V → Bool × V × (ℕ → Ring V)
  unfolding steal_loop
  try_steal_other_work rnd = steal_loop size rnd
