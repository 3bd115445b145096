-- ===== src/UnboundedFifo.antt =====
-- include/boost/task/unbounded_fifo.hpp: `unbounded_fifo_base`, a list of nodes with a lock for each end.
-- `put` holds the tail's lock and `try_take` the head's, so an event is what one of them does between
-- two accesses that the other may see. A node's address is given to it where it is linked.
mod Inv
pub mod Safety
pub mod Calls
pub mod Pointer
mod Tests
use boost_task.Prelude.{
  ℕ, zero, suc, ◌+◌, ◌≡◌, Bool, true, false, not, Option, none, some, List, [], ◌∷◌, ◌++◌, ◌==◌,
  if◌then◌else◌,
}
use boost_task.Nodes.{Node, Memory, write_va, write_next, update}

-- `producer` holds the tail's lock past its check, with its value; `consumer` holds the head's past its
-- test for emptiness, with what its variable held. `owed` counts the posts that are due on `fsem_`;
-- `accepted`, `taken` and `rejected` record the calls.
pub record Fifo (T : Type 0) : Type 0 where
  pub mem : Memory T
  pub fresh : ℕ
  pub active : Bool
  pub head : ℕ
  pub tail : ℕ
  pub has_fsem : Bool
  pub producer : Option T
  pub consumer : Option T
  pub owed : ℕ
  pub accepted : List T
  pub taken : List T
  pub rejected : List T

-- `enter va` and `link` are the two parts of `put`, `look ca` and `pop` those of `try_take` with the
-- caller's variable `ca`.
pub data Event (T : Type 0) : Type 0 where
  enter : T → Event T
  link : Event T
  look : T → Event T
  pop : Event T
  close : Event T

module _ {T : Type 0} (vacant : T) where
  unfoldable pub blank : Node T
  blank = record { va = vacant; next = none }

  unfoldable pub construct : Bool → Fifo T
  unfolding blank
  construct has_fsem = record {
    mem = λ a. blank;
    fresh = 1;
    active = true;
    head = 0;
    tail = 0;
    has_fsem = has_fsem;
    producer = none;
    consumer = none;
    owed = 0;
    accepted = [];
    taken = [];
    rejected = [];
  }

  unfoldable pub empty : Fifo T → Bool
  empty q = q.head == q.tail

  -- `put` with the lock, at its check.
  unfoldable pub check : Fifo T → T → Fifo T
  check q va =
      if not q.active
      then record q { rejected = q.rejected ++ (va ∷ []) }
      else record q { producer = some va }

  -- The three writes, the end of the lock, and the post.
  unfoldable pub append : Fifo T → T → Fifo T
  unfolding blank
  append q va = record q {
    mem = write_next (write_va (update q.mem q.fresh blank) q.tail va) q.tail q.fresh;
    fresh = suc q.fresh;
    tail = q.fresh;
    producer = none;
    owed = if q.has_fsem then q.owed + 1 else q.owed;
    accepted = q.accepted ++ (va ∷ []);
  }

  unfoldable pub enter_when : Fifo T → Option T → T → Fifo T
  unfolding check
  enter_when q none va = check q va
  enter_when q (some other) va = q

  unfoldable pub link_when : Fifo T → Option T → Fifo T
  unfolding append
  link_when q none = q
  link_when q (some va) = append q va

  -- `empty_()` takes the tail's lock, so it waits for a producer.
  unfoldable pub look_when : Fifo T → Option T → Option T → T → Fifo T
  unfolding empty
  look_when q none none ca = if empty q then q else record q { consumer = some ca }
  look_when q (some va) consumer ca = q
  look_when q none (some other) ca = q

  -- `va.swap( head_->va); head_ = old_head->next`; a null next would be the fault of `none`.
  unfoldable pub pop_next : Fifo T → T → Option ℕ → Fifo T
  pop_next q ca none = record q { consumer = none }
  pop_next q ca (some n) = record q {
    mem = write_va q.mem q.head ca;
    head = n;
    consumer = none;
    taken = q.taken ++ ((q.mem q.head).va ∷ []);
  }

  unfoldable pub pop_when : Fifo T → Option T → Fifo T
  unfolding pop_next
  pop_when q none = q
  pop_when q (some ca) = pop_next q ca (q.mem q.head).next

  unfoldable pub close_when : Fifo T → Option T → Fifo T
  close_when q none = record q { active = false }
  close_when q (some ca) = q

  -- An event whose lock is held is a try that changes nothing.
  unfoldable pub step : Fifo T → Event T → Fifo T
  unfolding enter_when link_when look_when pop_when close_when
  step q (enter va) = enter_when q q.producer va
  step q link = link_when q q.producer
  step q (look ca) = look_when q q.producer q.consumer ca
  step q pop = pop_when q q.consumer
  step q close = close_when q q.consumer

  unfoldable pub run : Fifo T → List (Event T) → Fifo T
  unfolding step
  run q [] = q
  run q (e ∷ es) = run (step q e) es

  -- Whole calls, each alone. `put` answers whether it returned or threw.
  unfoldable pub put : Fifo T → T → Fifo T
  unfolding run
  put q va = run q (enter va ∷ link ∷ [])

  unfoldable pub try_take_from : (T → Bool) → Fifo T → Option T → T → Bool × T × Fifo T
  unfolding pop_when
  try_take_from is_vacant q none ca = (false, ca, q)
  try_take_from is_vacant q (some held) ca =
      let va = (q.mem q.head).va in (not (is_vacant va), va, pop_when q (some held))

  -- `return ! va.empty()`
  unfoldable pub try_take : (T → Bool) → Fifo T → T → Bool × T × Fifo T
  unfolding step try_take_from
  try_take is_vacant q ca =
      let looked : Fifo T = step q (look ca) in try_take_from is_vacant looked looked.consumer ca
