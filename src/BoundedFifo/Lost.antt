-- ===== src/BoundedFifo/Lost.antt =====
-- A notification of the bounded queue that comes before the producer it is for sleeps.
use boost_task.Prelude.{ℕ, ◌+◌, ◌-◌, ◌^◌, ◌≡◌, Bool, List, [], ◌∷◌, ◌++◌}
use boost_task.BoundedFifo.{
  Fifo, Put, Producer, Consumer, Act, begin_put, producer_goes, begin_take, consumer_goes, size_t,
  begin_deactivate, wake_up,
}

module _ {T : Type 0} (vacant : T) (is_empty : T → Bool) where
  -- No call begins, and the condition wakes nobody for no reason.
  abbrev pub IsQuiet : Act T → Type 0
  IsQuiet (begin_put p) = ⊥
  IsQuiet (begin_take va) = ⊥
  IsQuiet begin_deactivate = ⊥
  IsQuiet wake_up = ⊥
  IsQuiet _ = Unit {0}

  abbrev pub AllQuiet : List (Act T) → Type 0
  AllQuiet [] = Unit {0}
  AllQuiet (a ∷ acts) = IsQuiet a × AllQuiet acts

  -- One producer sleeps, nobody is about to wake it, both locks are free, and the queue has the count `n`.
  pub record Stranded (p : Put T) (n hwm : ℕ) (q : Fifo T) : Type 0 where
    pub producer : q.producer ≡ Producer.free
    pub consumer : q.consumer ≡ Consumer.free
    pub asleep : q.asleep ≡ p ∷ []
    pub woken : q.woken ≡ []
    pub count : q.count ≡ n
    pub limit : q.hwm ≡ hwm

  -- The producer finds the queue full, the consumer counts down and notifies nobody, the producer sleeps.
  abbrev pub missing : List (Act T)
  missing = producer_goes ∷ consumer_goes ∷ consumer_goes ∷ producer_goes ∷ []

  -- What the four steps leave.
  abbrev slept : Fifo T → Put T → Fifo T
  slept q p = record q {
    producer = Producer.free;
    consumer = Consumer.free;
    count = size_t (q.count + 2 ^ 64 - 1);
    asleep = q.asleep ++ (p ∷ []);
  }
