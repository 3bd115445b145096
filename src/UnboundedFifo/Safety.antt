-- ===== src/UnboundedFifo/Safety.antt =====
-- What the unbounded queue promises in every interleaving of its calls.
use boost_task.Prelude.{ℕ, ◌≡◌, refl, Bool, some, List, [], ◌∷◌, ◌++◌}
use boost_task.Nodes.{Chain}
use boost_task.UnboundedFifo.{Fifo, Event, construct, run}
use boost_task.UnboundedFifo.Inv.{IsSound, run-IsSound, construct-Holds}

module _ {T : Type 0} (vacant : T) where
  -- A consumer past its test does not meet a null link.
  linked :
      (q : Fifo T) (ca : T)
      → IsSound q
      → q.consumer ≡ some ca
      → (n : ℕ) × ((q.mem q.head).next ≡ some n)
  linked q ca ([], s) e = absurd (s.ahead ca e refl)
  linked q ca (x ∷ xs, s) e = let (n, up, v, l, c) = s.chain in (n, l)

  -- Whatever calls of put, try_take and deactivate overlap on a new queue, and in whatever order: the
  -- values of the puts that returned are the values taken followed by those on the chain from head to
  -- tail, in the same order, and no taker that found the queue not empty meets a null link.
  pub first_in_first_out :
      (has_fsem : Bool) (es : List (Event T))
      → let q : Fifo T = run vacant (construct vacant has_fsem) es in
        ((xs : List T) × Chain q.mem q.head q.tail xs × (q.accepted ≡ q.taken ++ xs))
        × ((ca : T) → q.consumer ≡ some ca → (n : ℕ) × ((q.mem q.head).next ≡ some n))
  first_in_first_out has_fsem es =
      let q = run vacant (construct vacant has_fsem) es in
      let (xs, s) =
        run-IsSound vacant (construct vacant has_fsem) es ([], construct-Holds vacant has_fsem) in
      ((xs, s.chain, s.history), λ ca e. linked q ca (xs, s) e)
