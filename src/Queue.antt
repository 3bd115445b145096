-- ===== src/Queue.antt =====
-- What a pool asks of its queue (`pool_.queue_` in include/boost/task/detail/pool_base.hpp and worker.hpp),
-- with the order of a FIFO; UnboundedFifo/Calls has the value for include/boost/task/unbounded_fifo.hpp.
use boost_task.Prelude.{◌≡◌, Bool, true, false, Option, none, some, List, [], ◌∷◌, ◌++◌}

-- `put` answers `none` where it throws task_rejected. `try_take` has the caller's variable, before and
-- after. `Holds q xs` says that the queue `q` is in order and holds `xs`.
pub record Queue (V : Type 0) (is_vacant : V → Bool) : Type 1 where
  pub Q : Type 0
  pub put : Q → V → Option Q
  pub try_take : Q → V → Bool × V × Q
  pub empty : Q → Bool
  pub active : Q → Bool
  pub deactivate : Q → Q
  pub Holds : Q → List V → Type 0
  pub put_active :
      (q : Q) (xs : List V) (v : V)
      → Holds q xs
      → active q ≡ true
      → (q' : Q) × (put q v ≡ some q') × Holds q' (xs ++ (v ∷ [])) × (active q' ≡ true)
  pub put_closed : (q : Q) (xs : List V) (v : V) → Holds q xs → active q ≡ false → put q v ≡ none
  pub take_front :
      (q : Q) (x : V) (xs : List V) (v : V)
      → Holds q (x ∷ xs)
      → is_vacant x ≡ false
      → (q' : Q) × (try_take q v ≡ (true, x, q')) × Holds q' xs × (active q' ≡ active q)
  pub take_none : (q : Q) (v : V) → Holds q [] → try_take q v ≡ (false, v, q)
  pub empty_nil : (q : Q) → Holds q [] → empty q ≡ true
  pub empty_cons : (q : Q) (x : V) (xs : List V) → Holds q (x ∷ xs) → empty q ≡ false
  pub deactivate_lem :
      (q : Q) (xs : List V) → Holds q xs → Holds (deactivate q) xs × (active (deactivate q) ≡ false)
