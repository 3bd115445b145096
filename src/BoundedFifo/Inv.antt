-- ===== src/BoundedFifo/Inv.antt =====
-- What holds in every state of the bounded queue, whoever holds its locks. `xs` are the values that
-- were linked and not yet taken, oldest first.
use boost_task.Prelude.{
  ℕ, ◌+◌, ◌^◌, ◌<◌, ◌≤◌, ◌≡◌, refl, true, some, List, [], ◌∷◌, ◌++◌, length, arith,
}
use boost_task.Nodes.{Chain}
use boost_task.BoundedFifo.{
  Fifo, Producer, Consumer, checking, linking, chaining, moving, counting, holding, popping,
  subtracting, crashed, construct,
}

module _ {T : Type 0} where
  -- A node that the consumer has emptied and not yet unlinked.
  abbrev pub dead : Consumer T → List T
  dead (popping out old) = old ∷ []
  dead _ = []

  -- Linked and not counted; taken and still counted.
  abbrev pub added : Producer T → ℕ
  added counting = 1
  added _ = 0

  abbrev pub removed : Consumer T → ℕ
  removed (popping out old) = 1
  removed (subtracting out) = 1
  removed _ = 0

  -- What the lock holder knows from its earlier steps.
  abbrev pub ProducerKnows : Fifo T → Producer T → Type 0
  ProducerKnows q (checking p) = q.active ≡ true → q.count < q.hwm
  ProducerKnows q (linking p) = q.count < q.hwm
  ProducerKnows q (chaining va n) =
      (q.count < q.hwm) × (q.tail < n) × (n < q.fresh) × ((q.mem q.tail).va ≡ va)
  ProducerKnows q (moving va n) =
      (q.count < q.hwm)
      × (q.tail < n)
      × (n < q.fresh)
      × ((q.mem q.tail).va ≡ va)
      × ((q.mem q.tail).next ≡ some n)
  ProducerKnows q counting = q.count < q.hwm
  ProducerKnows q _ = Unit

  abbrev pub ConsumerKnows : ℕ → Consumer T → Type 0
  ConsumerKnows count (holding va) = 1 ≤ count
  ConsumerKnows count (popping out old) = 1 ≤ count
  ConsumerKnows count (subtracting out) = 1 ≤ count
  ConsumerKnows count crashed = ⊥
  ConsumerKnows count _ = Unit

  pub record InvAt (xs : List T) (q : Fifo T) (p : Producer T) (c : Consumer T) : Type 0 where
    pub chain : Chain q.mem q.head q.tail (dead c ++ xs)
    pub below : q.tail < q.fresh
    pub produced : ProducerKnows q p
    pub consumed : ConsumerKnows q.count c
    pub counted : q.count + added p ≡ length xs + removed c
    pub bounded : q.count ≤ q.hwm
    pub word : q.hwm < 2 ^ 64
    pub history : q.accepted ≡ q.taken ++ xs

  abbrev pub Inv : List T → Fifo T → Type 0
  Inv xs q = InvAt xs q q.producer q.consumer

  -- Some values, with the invariant.
  abbrev pub Held : Fifo T → Type 0
  Held q = (xs : List T) × Inv xs q

pub construct-Inv :
    {T : Type 0} (vacant : T) (hwm lwm : ℕ) → hwm < 2 ^ 64 → Inv [] (construct vacant hwm lwm)
unfolding construct
construct-Inv vacant hwm lwm small = record {
  chain = refl;
  below = omega arith;
  produced = tt;
  consumed = tt;
  counted = omega arith;
  bounded = omega arith;
  word = small;
  history = refl;
}
