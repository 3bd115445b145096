-- ===== src/BoundedFifo/Consumed.antt =====
-- A step of the holder of `head_mtx_` keeps the invariant.
use boost_task.Prelude.{
  ℕ, ◌+◌, ◌-◌, ◌^◌, ◌≤◌, ◌≡◌, ◌≢◌, refl, ap, sym, ◌∙◌, Bool, true, false, not, ◌&&◌, List, [], ◌∷◌,
  ◌++◌, length, leb, ◌==◌, if-cases, arith,
}
use mathlib.Core.List.{append_assoc}
use mathlib.Core.Path.{subst}
use boost_task.Nodes.{Node, Memory, Chain, write_va, update_ne, Chain-le, Chain-swap}
use boost_task.BoundedFifo.{
  Fifo, Put, Producer, Consumer, free, entered, holding, popping, subtracting, notifying,
  deactivating, alarming, crashed, consumer_step, producer_is_free, size_t, notify_first,
}
use boost_task.BoundedFifo.Inv.{dead, added, removed, ConsumerKnows, ProducerKnows, InvAt, Held}

module _ {T : Type 0} where
  -- What the producer knows outlives a step that changes neither its end of the list nor raises the count.
  pub ProducerKnows-keep :
      (q q' : Fifo T)
      → q'.count ≤ q.count
      → q'.hwm ≡ q.hwm
      → q'.tail ≡ q.tail
      → q'.fresh ≡ q.fresh
      → q'.mem q'.tail ≡ q.mem q.tail
      → (q'.active ≡ true → q.active ≡ true)
      → (p : Producer T) → ProducerKnows q p
      → ProducerKnows q' p
  ProducerKnows-keep q q' n h t f m on (Producer.checking p) k = λ a. omega (arith, k (on a))
  ProducerKnows-keep q q' n h t f m on (Producer.linking p) k = omega arith
  ProducerKnows-keep q q' n h t f m on (Producer.chaining va a) k =
      (omega arith, omega arith, omega arith, ap (λ (x : Node T). x.va) m ∙ k.3)
  ProducerKnows-keep q q' n h t f m on (Producer.moving va a) k = (
    omega arith,
    omega arith,
    omega arith,
    ap (λ (x : Node T). x.va) m ∙ k.3,
    ap (λ (x : Node T). x.next) m ∙ k.4,
  )
  ProducerKnows-keep q q' n h t f m on Producer.counting k = omega arith
  ProducerKnows-keep q q' n h t f m on _ k = tt

  pub producer_free : (p : Producer T) → producer_is_free p ≡ true → p ≡ Producer.free
  unfolding producer_is_free
  producer_free Producer.free e = refl
  producer_free _ e = absurd (cc)

  -- Waking sleepers changes nothing that the invariant reads.
  pub Held-asleep :
      {q : Fifo T} (asleep woken : List (Put T))
      → Held q
      → Held (record q { asleep = asleep; woken = woken })
  Held-asleep {q} asleep woken (xs, v) =
      let q' : Fifo T = record q { asleep = asleep; woken = woken } in
      (
        xs,
        record {
          chain = v.chain;
          below = v.below;
          produced =
              ProducerKnows-keep q q' (omega arith) refl refl refl refl (λ a. a) q.producer
                v.produced;
          consumed = v.consumed;
          counted = v.counted;
          bounded = v.bounded;
          word = v.word;
          history = v.history;
        },
      )

  pub notify_first-Held : (q : Fifo T) (ps : List (Put T)) → Held q → Held (notify_first q ps)
  unfolding notify_first
  notify_first-Held q [] v = v
  notify_first-Held q (p ∷ ps) v = Held-asleep ps _ v

  nonempty : (m : Memory T) (h t : ℕ) (xs : List T) → Chain m h t xs → h ≢ t → 1 ≤ length xs
  nonempty m h t [] c apart = absurd (apart c)
  nonempty m h t (x ∷ xs) c apart = omega arith

  -- The swap of `try_take`: the oldest value leaves the queue, its node stays at the front.
  step-holding :
      (is_empty : T → Bool) (xs : List T) {q : Fifo T} (va : T)
      → InvAt xs q q.producer (holding va)
      → Held (consumer_step is_empty q (holding va))
  step-holding is_empty [] va v = absurd (omega (arith, v.counted, v.consumed))
  step-holding is_empty (x ∷ xs) {q} va v =
      unfold consumer_step in
      let (n, up, holds, links, rest) = v.chain in
      let out : T = (q.mem q.head).va in
      let q' : Fifo T = record q {
        mem = write_va q.mem q.head va;
        consumer = popping out va;
        taken = q.taken ++ (out ∷ []);
      } in
      let apart : q.head ≢ q.tail = omega (arith, Chain-le q.mem n q.tail xs rest) in
      (
        xs,
        record {
          chain = Chain-swap q.mem q.head q.tail x va xs v.chain;
          below = v.below;
          produced =
              ProducerKnows-keep q q' (omega arith) refl refl refl
                (unfold write_va in update_ne q.mem q.head q.tail _ apart) (λ a. a) q.producer
                v.produced;
          consumed = v.consumed;
          counted = omega (arith, v.counted);
          bounded = v.bounded;
          word = v.word;
          history = rw holds (v.history ∙ sym (append_assoc q.taken (x ∷ []) xs));
        },
      )

module _ {T : Type 0} (is_empty : T → Bool) where
  abbrev After : Fifo T → Consumer T → Type 0
  After q c = Held (consumer_step is_empty q c)

  module _ {xs : List T} {q : Fifo T} where
    -- A step that changes only where the consumer stands.
    pub pass :
        {c : Consumer T} (c' : Consumer T)
        → InvAt xs q q.producer c
        → dead c ≡ dead c'
        → removed c ≡ removed c'
        → ConsumerKnows q.count c'
        → Held (record q { consumer = c' })
    pass c' v same gone k =
        let q' : Fifo T = record q { consumer = c' } in
        (
          xs,
          record {
            chain = subst (λ ys. Chain q.mem q.head q.tail (ys ++ xs)) same v.chain;
            below = v.below;
            produced =
                ProducerKnows-keep q q' (omega arith) refl refl refl refl (λ a. a) q.producer
                  v.produced;
            consumed = k;
            counted = omega (arith, v.counted);
            bounded = v.bounded;
            word = v.word;
            history = v.history;
          },
        )

    step-entered :
        (va : T)
        → InvAt xs q q.producer (entered va)
        → q.consumer ≡ entered va
        → After q (entered va)
    unfolding consumer_step
    step-entered va v e =
        if-cases Held (producer_is_free q.producer)
          (λ unlocked.
            if-cases (λ c'. Held (record q { consumer = c' })) (q.head == q.tail)
              (λ none. pass free v refl refl tt)
              (λ more. pass (holding va) v refl refl (
                omega (
                  arith,
                  v.counted,
                  ap added (producer_free q.producer unlocked),
                  nonempty q.mem q.head q.tail xs v.chain (ground arith),
                ))))
          (λ locked. (xs, subst (λ c. InvAt xs q q.producer c) (sym e) v))

    step-popping :
        (out old : T) → InvAt xs q q.producer (popping out old) → After q (popping out old)
    unfolding consumer_step
    step-popping out old v =
        let (n, up, holds, links, rest) = v.chain in
        let q' : Fifo T = record q { head = n; consumer = subtracting out } in
        rw links (
          xs,
          record {
            chain = rest;
            below = v.below;
            produced =
                ProducerKnows-keep q q' (omega arith) refl refl refl refl (λ a. a) q.producer
                  v.produced;
            consumed = v.consumed;
            counted = v.counted;
            bounded = v.bounded;
            word = v.word;
            history = v.history;
          },
        )

    step-subtracting :
        (out : T) → InvAt xs q q.producer (subtracting out) → After q (subtracting out)
    unfolding consumer_step
    step-subtracting out v =
        let less : size_t (q.count + 2 ^ 64 - 1) + 1 ≡ q.count =
          omega (arith, v.consumed, v.bounded, v.word) in
        let q' : Fifo T = record q {
          count = size_t (q.count + 2 ^ 64 - 1);
          consumer = notifying out;
        } in
        (
          xs,
          record {
            chain = v.chain;
            below = v.below;
            produced =
                ProducerKnows-keep q q' (omega arith) refl refl refl refl (λ a. a) q.producer
                  v.produced;
            consumed = tt;
            counted = omega (arith, v.counted);
            bounded = omega (arith, v.bounded);
            word = v.word;
            history = v.history;
          },
        )

    step-notifying : (out : T) → InvAt xs q q.producer (notifying out) → After q (notifying out)
    unfolding consumer_step
    step-notifying out v =
        let idle = pass free v refl refl tt in
        if-cases Held (not (is_empty out) && leb q.count q.lwm)
          (λ e.
            if-cases Held (q.lwm == q.hwm) (λ e. notify_first-Held _ q.asleep idle)
              (λ e. Held-asleep [] _ idle))
          (λ e. idle)

    step-deactivating : InvAt xs q q.producer deactivating → After q deactivating
    unfolding consumer_step
    step-deactivating v =
        let q' : Fifo T = record q { active = false; consumer = alarming } in
        (
          xs,
          record {
            chain = v.chain;
            below = v.below;
            produced =
                ProducerKnows-keep q q' (omega arith) refl refl refl refl (λ a. cc) q.producer
                  v.produced;
            consumed = tt;
            counted = v.counted;
            bounded = v.bounded;
            word = v.word;
            history = v.history;
          },
        )

    step-alarming : InvAt xs q q.producer alarming → After q alarming
    unfolding consumer_step
    step-alarming v = Held-asleep [] _ (pass free v refl refl tt)

    pub consumer_step-Held : (c : Consumer T) → InvAt xs q q.producer c → q.consumer ≡ c → After q c
    consumer_step-Held free v e =
        unfold consumer_step in (xs, subst (λ c. InvAt xs q q.producer c) (sym e) v)
    consumer_step-Held (entered va) v e = step-entered va v e
    consumer_step-Held (holding va) v e = step-holding is_empty xs va v
    consumer_step-Held (popping out old) v e = step-popping out old v
    consumer_step-Held (subtracting out) v e = step-subtracting out v
    consumer_step-Held (notifying out) v e = step-notifying out v
    consumer_step-Held deactivating v e = step-deactivating v
    consumer_step-Held alarming v e = step-alarming v
    consumer_step-Held crashed v e = absurd v.consumed
