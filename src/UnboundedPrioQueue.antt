-- ===== src/UnboundedPrioQueue.antt =====
-- include/boost/task/unbounded_prio_queue.hpp: `unbounded_prio_queue_base`. Every call that changes it holds
-- `mtx_` to its end, so a call is one step. The standard priority_queue is the parameter `PriorityQueue`.
mod Inv
pub mod Order
pub mod Greatest
pub mod Pointer
mod Tests
use boost_task.Prelude.{
  ℕ, zero, suc, ◌+◌, ◌≡◌, Bool, true, false, not, Option, none, some, List, [], ◌∷◌, ◌++◌,
  if◌then◌else◌,
}
use mathlib.Core.List.{Permᴰ}

pub record Value (T Attr : Type 0) : Type 0 where
  pub ca : T
  pub attr : Attr

-- None of the list comes before `x` where `less` orders the attributes.
unfoldable pub NoneAbove :
    {T Attr : Type 0} → (Attr → Attr → Bool) → Attr → List (Value T Attr) → Type 0
NoneAbove less x [] = Unit {0}
NoneAbove less x (v ∷ vs) = (less x v.attr ≡ false) × NoneAbove less x vs

-- std::priority_queue under the order `less`: the calls of it, and what they do to the values that it
-- has.
pub record PriorityQueue (T Attr Q : Type 0) (less : Attr → Attr → Bool) : Type 0 where
  pub new : Q
  pub is_empty : Q → Bool
  pub push : Q → Value T Attr → Q
  pub top : Q → Value T Attr
  pub pop : Q → Q
  pub items : Q → List (Value T Attr)
  pub items-new : items new ≡ []
  pub items-push : (q : Q) (v : Value T Attr) → Permᴰ (items (push q v)) (v ∷ items q)
  pub items-pop : (q : Q) → is_empty q ≡ false → Permᴰ (items q) (top q ∷ items (pop q))
  pub top-NoneAbove : (q : Q) → is_empty q ≡ false → NoneAbove less (top q).attr (items q)

-- `posts` counts the calls of `fsem_.post`; `accepted` and `taken` record the calls.
pub record PrioQueue (T Attr Q : Type 0) : Type 0 where
  pub active : Bool
  pub queue : Q
  pub posts : ℕ
  pub accepted : List (Value T Attr)
  pub taken : List (Value T Attr)

pub data Call (T Attr : Type 0) : Type 0 where
  puts : Value T Attr → Call T Attr
  takes : T → Call T Attr
  closes : Call T Attr

module _ {T Attr Q : Type 0} {less : Attr → Attr → Bool} (is_vacant : T → Bool)
    (heap : PriorityQueue T Attr Q less) where
  -- `value_type`; `none` is its failed assertion.
  unfoldable pub value : T → Attr → Option (Value T Attr)
  value ca attr = if not (is_vacant ca) then some (record { ca = ca; attr = attr }) else none

  unfoldable pub construct : PrioQueue T Attr Q
  construct = record { active = true; queue = heap.new; posts = 0; accepted = []; taken = [] }

  unfoldable pub empty : PrioQueue T Attr Q → Bool
  empty q = heap.is_empty q.queue

  unfoldable pub deactivate : PrioQueue T Attr Q → PrioQueue T Attr Q
  deactivate q = record q { active = false }

  -- `none` is task_rejected.
  unfoldable pub put : PrioQueue T Attr Q → Value T Attr → Option (PrioQueue T Attr Q)
  put q va =
      if not q.active
      then none
      else some (record q {
        queue = heap.push q.queue va;
        posts = q.posts + 1;
        accepted = va ∷ q.accepted;
      })

  -- With the caller's variable, before and after.
  unfoldable pub try_take : PrioQueue T Attr Q → T → Bool × T × PrioQueue T Attr Q
  unfolding empty
  try_take q ca =
      let tmp : Value T Attr = heap.top q.queue in
      if empty q then (false, ca, q) else (
        not (is_vacant tmp.ca),
        tmp.ca,
        record q { queue = heap.pop q.queue; taken = q.taken ++ (tmp ∷ []) },
      )

  after_put : PrioQueue T Attr Q → Option (PrioQueue T Attr Q) → PrioQueue T Attr Q
  after_put q none = q
  after_put q (some q') = q'

  unfoldable pub step : PrioQueue T Attr Q → Call T Attr → PrioQueue T Attr Q
  unfolding put try_take deactivate after_put
  step q (puts va) = after_put q (put q va)
  step q (takes ca) = (try_take q ca).2
  step q closes = deactivate q

  unfoldable pub run : PrioQueue T Attr Q → List (Call T Attr) → PrioQueue T Attr Q
  unfolding step
  run q [] = q
  run q (c ∷ cs) = run (step q c) cs
