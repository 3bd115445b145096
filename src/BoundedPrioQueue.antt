-- ===== src/BoundedPrioQueue.antt =====
-- include/boost/task/bounded_prio_queue.hpp: `bounded_prio_queue_base`, a priority queue with two
-- watermarks. All calls hold `mtx_` except while they wait on `not_full_cond_`, so an event is a call up
-- to its wait, or what a woken producer does. The standard priority_queue is the parameter `Heap`.
mod Inv
mod Preserved
mod Safety
pub mod Pointer
mod Tests
use boost_task.Prelude.{
  ℕ, zero, suc, ◌+◌, ◌≡◌, Bool, true, false, not, ◌&&◌, ◌||◌, Option, none, some, List, [], ◌∷◌,
  ◌++◌, ◌==◌, leb, ltb, if◌then◌else◌,
}
use boost_task.Prelude.Picks.{pick}

-- std::priority_queue: what the code calls, and how the size follows these calls.
pub record Heap (V Q : Type 0) : Type 0 where
  pub new : Q
  pub size : Q → ℕ
  pub push : Q → V → Q
  pub top : Q → V
  pub pop : Q → Q
  pub size-new : size new ≡ 0
  pub size-push : (q : Q) (v : V) → size (push q v) ≡ suc (size q)
  pub size-pop : (q : Q) (n : ℕ) → size q ≡ suc n → size (pop q) ≡ n

-- A producer inside `put`: whether it has a time limit, and its value.
abbrev pub Producer : Type 0 → Type 0
Producer V = Bool × V

-- `asleep` are the producers in the condition, `ready` those that left it and have not got the lock yet;
-- `posts` counts the calls of `fsem_->post`, `rejected` has the values of the calls that threw.
pub record PrioQueue (V Q : Type 0) : Type 0 where
  pub active : Bool
  pub queue : Q
  pub hwm : ℕ
  pub lwm : ℕ
  pub has_fsem : Bool
  pub asleep : List (Producer V)
  pub ready : List (Producer V)
  pub posts : ℕ
  pub rejected : List V

module _ {V Q : Type 0} (heap : Heap V Q) where
  unfoldable pub initial : ℕ → ℕ → Bool → PrioQueue V Q
  initial hwm lwm has_fsem = record {
    active = true;
    queue = heap.new;
    hwm = hwm;
    lwm = lwm;
    has_fsem = has_fsem;
    asleep = [];
    ready = [];
    posts = 0;
    rejected = [];
  }

  -- `none` is the exception `invalid_watermark`.
  unfoldable pub construct : ℕ → ℕ → Bool → Option (PrioQueue V Q)
  unfolding initial
  construct hwm lwm has_fsem = if ltb hwm lwm then none else some (initial hwm lwm has_fsem)

  unfoldable pub size : PrioQueue V Q → ℕ
  size q = heap.size q.queue

  unfoldable pub empty : PrioQueue V Q → Bool
  unfolding size
  empty q = size q == 0

  unfoldable pub full : PrioQueue V Q → Bool
  unfolding size
  full q = leb q.hwm (size q)

  unfoldable pub producers_activate : PrioQueue V Q → Bool
  unfolding full
  producers_activate q = not q.active || not (full q)

  unfoldable pub reject : PrioQueue V Q → V → PrioQueue V Q
  reject q va = record q { rejected = q.rejected ++ (va ∷ []) }

  -- `put_` after its wait
  unfoldable pub finish_put : PrioQueue V Q → V → PrioQueue V Q
  unfolding reject
  finish_put q va = if not q.active then reject q va else record q {
    queue = heap.push q.queue va;
    posts = if q.has_fsem then q.posts + 1 else q.posts;
  }

  -- The loop of the wait, at the test of its predicate.
  unfoldable pub await_room : PrioQueue V Q → Producer V → PrioQueue V Q
  unfolding producers_activate finish_put
  await_room q p =
      if producers_activate q then finish_put q p.1 else record q { asleep = q.asleep ++ (p ∷ []) }

  -- `put_`, from its beginning
  unfoldable pub put : PrioQueue V Q → Producer V → PrioQueue V Q
  unfolding await_room full finish_put
  put q p = if full q then await_room q p else finish_put q p.1

  notify_picked : PrioQueue V Q → Option (Producer V × List (Producer V)) → PrioQueue V Q
  notify_picked q none = q
  notify_picked q (some (p, rest)) = record q { asleep = rest; ready = q.ready ++ (p ∷ []) }

  unfoldable pub notify_one : PrioQueue V Q → ℕ → PrioQueue V Q
  unfolding notify_picked
  notify_one q i = notify_picked q (pick q.asleep i)

  unfoldable pub notify_all : PrioQueue V Q → PrioQueue V Q
  notify_all q = record q { asleep = []; ready = q.ready ++ q.asleep }

  -- The notification of `try_take_`
  unfoldable pub notify_room : PrioQueue V Q → ℕ → PrioQueue V Q
  unfolding size notify_one notify_all
  notify_room q i =
      if leb (size q) q.lwm then if q.lwm == q.hwm then notify_one q i else notify_all q else q

  -- `try_take_`: `i` is whom the condition chooses for `notify_one`.
  unfoldable pub try_take : PrioQueue V Q → ℕ → Option V × PrioQueue V Q
  unfolding empty notify_room
  try_take q i =
      if empty q
      then (none, q)
      else (some (heap.top q.queue), notify_room (record q { queue = heap.pop q.queue }) i)

  unfoldable pub deactivate : PrioQueue V Q → PrioQueue V Q
  unfolding notify_all
  deactivate q = notify_all (record q { active = false })

  resume_picked : PrioQueue V Q → Option (Producer V × List (Producer V)) → PrioQueue V Q
  unfolding await_room
  resume_picked q none = q
  resume_picked q (some (p, rest)) = await_room (record q { ready = rest }) p

  -- A producer that has left the condition gets the lock and tests the predicate again.
  unfoldable pub resume : PrioQueue V Q → ℕ → PrioQueue V Q
  unfolding resume_picked
  resume q i = resume_picked q (pick q.ready i)

  -- A timed wait that runs out answers the predicate.
  expire : PrioQueue V Q → Producer V → List (Producer V) → PrioQueue V Q
  unfolding producers_activate finish_put reject
  expire q (timed, va) rest =
      if timed
      then (if producers_activate q
          then finish_put (record q { asleep = rest }) va
          else reject (record q { asleep = rest }) va)
      else q

  time_out_picked : PrioQueue V Q → Option (Producer V × List (Producer V)) → PrioQueue V Q
  unfolding expire
  time_out_picked q none = q
  time_out_picked q (some (p, rest)) = expire q p rest

  unfoldable pub time_out : PrioQueue V Q → ℕ → PrioQueue V Q
  unfolding time_out_picked
  time_out q i = time_out_picked q (pick q.asleep i)

-- `wake` is a spurious wake-up.
pub data Event (V : Type 0) : Type 0 where
  enter : Producer V → Event V
  take : ℕ → Event V
  close : Event V
  wake : ℕ → Event V
  retry : ℕ → Event V
  expiry : ℕ → Event V

module _ {V Q : Type 0} (heap : Heap V Q) where
  unfoldable pub step : PrioQueue V Q → Event V → PrioQueue V Q
  unfolding put try_take deactivate notify_one resume time_out
  step q (enter p) = put heap q p
  step q (take i) = (try_take heap q i).1
  step q close = deactivate heap q
  step q (wake i) = notify_one heap q i
  step q (retry i) = resume heap q i
  step q (expiry i) = time_out heap q i

  unfoldable pub run : PrioQueue V Q → List (Event V) → PrioQueue V Q
  unfolding step
  run q [] = q
  run q (e ∷ es) = run (step q e) es
