-- ===== src/BoundedFifo.antt =====
-- include/boost/task/bounded_fifo.hpp: the bounded queue of a pool, a linked list with a lock at each end.
-- One step is one access to shared data. Of the threads that want a lock only the holder shows:
-- `producer` is where the holder of `tail_mtx_` stands in `put`, `consumer` where the holder of
-- `head_mtx_` stands in `try_take` or `deactivate`.
pub mod Inv
pub mod Produced
pub mod Consumed
pub mod Steps
pub mod Safety
pub mod Calls
pub mod Lost
pub mod Pointer
mod Tests
use boost_task.Prelude.{
  ℕ, zero, suc, ◌+◌, ◌-◌, ◌^◌, ◌%◌, ◌≡◌, Bool, true, false, not, ◌&&◌, Option, none, some, List, [],
  ◌∷◌, ◌++◌, leb, ◌==◌, if◌then◌else◌,
}
use boost_task.Nodes.{Node, Memory, update, write_va, write_next}

-- `std::size_t`
abbrev pub size_t : ℕ → ℕ
size_t n = n % 2 ^ 64

-- A call of `put`; with `timed` it is the overload with a time limit.
pub record Put (T : Type 0) : Type 0 where
  pub va : T
  pub timed : Bool

-- The point that the holder of `tail_mtx_` is about to execute.
pub data Producer (T : Type 0) : Type 0 where
  free : Producer T
  entered : Put T → Producer T  -- `if ( full_() )`
  looping : Put T → Producer T  -- `while ( active_() ...`
  testing : Put T → Producer T  -- `... && full_() )`
  dozing : Put T → Producer T  -- `not_full_cond_.wait( lk)`
  checking : Put T → Producer T  -- `if ( ! active_() )`
  linking : Put T → Producer T  -- `tail_->va = va`
  chaining : T → ℕ → Producer T  -- `tail_->next = new_node`
  moving : T → ℕ → Producer T  -- `tail_ = new_node`
  counting : Producer T  -- `count_.fetch_add( 1)`

-- The same for `head_mtx_`, with the caller's variable. `popping` has what the swap left in the node too.
pub data Consumer (T : Type 0) : Type 0 where
  free : Consumer T
  entered : T → Consumer T  -- `if ( empty_() ) return false`
  holding : T → Consumer T  -- `va.swap( head_->va)`
  popping : T → T → Consumer T  -- `head_ = old_head->next`
  subtracting : T → Consumer T  -- `count_.fetch_sub( 1)`
  notifying : T → Consumer T  -- from `bool valid` on
  deactivating : Consumer T  -- `deactivate_()`
  alarming : Consumer T  -- `not_full_cond_.notify_all()` of `deactivate`
  crashed : Consumer T  -- `old_head->next` was null

-- The members of `bounded_fifo_base`, the condition's two lists (asleep; woken and in want of the lock),
-- the calls of `fsem_->post()` that are still to come, and the history: values linked, values taken
-- out of a node, and values of calls that threw task_rejected.
pub record Fifo (T : Type 0) : Type 0 where
  pub mem : Memory T
  pub fresh : ℕ
  pub active : Bool
  pub count : ℕ
  pub head : ℕ
  pub tail : ℕ
  pub hwm : ℕ
  pub lwm : ℕ
  pub producer : Producer T
  pub consumer : Consumer T
  pub asleep : List (Put T)
  pub woken : List (Put T)
  pub owed : ℕ
  pub accepted : List T
  pub taken : List T
  pub rejected : List T

-- What happens next: a call begins, a lock holder goes on, a woken producer gets the lock back, a sleeper
-- is woken for no reason, the sleepers are served in another order, a time limit runs out, a post.
pub data Act (T : Type 0) : Type 0 where
  begin_put : Put T → Act T
  producer_goes : Act T
  begin_take : T → Act T
  begin_deactivate : Act T
  consumer_goes : Act T
  relock : Act T
  wake_up : Act T
  reorder : Act T
  time_out : Act T
  post : Act T

module _ {T : Type 0} where
  full : Fifo T → Bool
  full q = leb q.hwm q.count

  -- `notify_all` and `notify_one`
  notify_all : Fifo T → Fifo T
  notify_all q = record q { asleep = []; woken = q.woken ++ q.asleep }

  pub notify_first : Fifo T → List (Put T) → Fifo T
  notify_first q [] = q
  notify_first q (p ∷ ps) = record q { asleep = ps; woken = q.woken ++ (p ∷ []) }

  notify_one : Fifo T → Fifo T
  unfolding notify_first
  notify_one q = notify_first q q.asleep

  reject : Fifo T → T → Fifo T
  reject q va = record q { producer = Producer.free; rejected = va ∷ q.rejected }

  pub relock_first : Fifo T → List (Put T) → Fifo T
  relock_first q [] = q
  relock_first q (p ∷ ps) = record q { producer = Producer.looping p; woken = ps }

  pub reorder_first : Fifo T → List (Put T) → Fifo T
  reorder_first q [] = q
  reorder_first q (p ∷ ps) = record q { asleep = ps ++ (p ∷ []) }

  -- The call throws once it has the lock again.
  pub time_out_first : Fifo T → List (Put T) → Fifo T
  time_out_first q [] = q
  time_out_first q (p ∷ ps) =
      if p.timed then record q { asleep = ps; rejected = p.va ∷ q.rejected } else q

  -- `get_tail_` takes `tail_mtx_`, so `empty_` waits until no producer has it.
  pub producer_is_free : Producer T → Bool
  producer_is_free Producer.free = true
  producer_is_free _ = false

  pop_head : Fifo T → T → Option ℕ → Fifo T
  pop_head q out none = record q { consumer = Consumer.crashed }
  pop_head q out (some n) = record q { head = n; consumer = Consumer.subtracting out }

  pub consumer_is_free : Consumer T → Bool
  consumer_is_free Consumer.free = true
  consumer_is_free _ = false

module _ {T : Type 0} (vacant : T) where
  -- `new node`
  blank : Node T
  blank = record { va = vacant; next = none }

  unfoldable pub construct : ℕ → ℕ → Fifo T
  unfolding blank
  construct hwm lwm = record {
    mem = λ _. blank;
    fresh = 1;
    active = true;
    count = 0;
    head = 0;
    tail = 0;
    hwm = hwm;
    lwm = lwm;
    producer = Producer.free;
    consumer = Consumer.free;
    asleep = [];
    woken = [];
    owed = 0;
    accepted = [];
    taken = [];
    rejected = [];
  }

  -- The holder of `tail_mtx_` goes on in `put`. The new node gets its address where it is linked; until
  -- then no other thread can see it.
  unfoldable pub producer_step : Fifo T → Producer T → Fifo T
  unfolding full reject blank
  producer_step q free = q
  producer_step q (entered p) = record q {
    producer = if full q then Producer.looping p else Producer.checking p;
  }
  producer_step q (looping p) = record q {
    producer = if q.active then Producer.testing p else Producer.checking p;
  }
  producer_step q (testing p) = record q {
    producer = if full q then Producer.dozing p else Producer.checking p;
  }
  producer_step q (dozing p) = record q { producer = Producer.free; asleep = q.asleep ++ (p ∷ []) }
  producer_step q (checking p) =
      if not q.active then reject q p.va else record q { producer = Producer.linking p }
  producer_step q (linking p) = record q {
    mem = write_va (update q.mem q.fresh blank) q.tail p.va;
    fresh = suc q.fresh;
    producer = Producer.chaining p.va q.fresh;
  }
  producer_step q (chaining va new_node) = record q {
    mem = write_next q.mem q.tail new_node;
    producer = Producer.moving va new_node;
  }
  producer_step q (moving va new_node) = record q {
    tail = new_node;
    producer = Producer.counting;
    accepted = q.accepted ++ (va ∷ []);
  }
  producer_step q counting = record q {
    count = size_t (q.count + 1);
    producer = Producer.free;
    owed = q.owed + 1;
  }

module _ {T : Type 0} (is_empty : T → Bool) where
  -- The holder of `head_mtx_` goes on in `try_take` or `deactivate`.
  unfoldable pub consumer_step : Fifo T → Consumer T → Fifo T
  unfolding producer_is_free pop_head notify_one notify_all
  consumer_step q free = q
  consumer_step q (entered va) =
      if producer_is_free q.producer
      then record q { consumer = if q.head == q.tail then Consumer.free else Consumer.holding va }
      else q
  consumer_step q (holding va) =
      let out : T = (q.mem q.head).va in
      record q {
        mem = write_va q.mem q.head va;
        consumer = Consumer.popping out va;
        taken = q.taken ++ (out ∷ []);
      }
  consumer_step q (popping out old) = pop_head q out (q.mem q.head).next
  consumer_step q (subtracting out) = record q {
    count = size_t (q.count + 2 ^ 64 - 1);
    consumer = Consumer.notifying out;
  }
  consumer_step q (notifying out) =
      let q' : Fifo T = record q { consumer = Consumer.free } in
      if not (is_empty out) && leb q.count q.lwm
      then if q.lwm == q.hwm then notify_one q' else notify_all q'
      else q'
  consumer_step q deactivating = record q { active = false; consumer = Consumer.alarming }
  consumer_step q alarming = notify_all (record q { consumer = Consumer.free })
  consumer_step q crashed = q

module _ {T : Type 0} (vacant : T) (is_empty : T → Bool) where
  -- One event; one that cannot happen changes nothing.
  unfoldable pub step : Act T → Fifo T → Fifo T
  unfolding producer_is_free consumer_is_free relock_first reorder_first time_out_first notify_one
  step (begin_put p) q =
      if producer_is_free q.producer then record q { producer = Producer.entered p } else q
  step producer_goes q = producer_step vacant q q.producer
  step (begin_take va) q =
      if consumer_is_free q.consumer then record q { consumer = Consumer.entered va } else q
  step begin_deactivate q =
      if consumer_is_free q.consumer then record q { consumer = Consumer.deactivating } else q
  step consumer_goes q = consumer_step is_empty q q.consumer
  step relock q = if producer_is_free q.producer then relock_first q q.woken else q
  step wake_up q = notify_one q
  step reorder q = reorder_first q q.asleep
  step time_out q = if producer_is_free q.producer then time_out_first q q.asleep else q
  step post q = record q { owed = q.owed - 1 }

  unfoldable pub run : List (Act T) → Fifo T → Fifo T
  run [] q = q
  run (a ∷ acts) q = run acts (step a q)
