-- ===== src/BoundedFifo/Produced.antt =====
-- A step of the holder of `tail_mtx_` keeps the invariant.
use boost_task.Prelude.{
  ℕ, ◌+◌, ◌≤◌, ◌≡◌, refl, ap, sym, ◌∙◌, not, List, [], ◌∷◌, ◌++◌, length-append, leb, Bool-cases,
  if-cases, inl, inr, arith,
}
use mathlib.Core.List.{append_assoc}
use mathlib.Core.Path.{subst}
use boost_task.Nodes.{Node, write_va, write_next, update_self, Chain-update_above, Chain-append}
use boost_task.BoundedFifo.{
  Fifo, Put, Producer, Consumer, free, entered, looping, testing, dozing, checking, linking,
  chaining, moving, counting, holding, popping, subtracting, crashed, producer_step, size_t,
}
use boost_task.BoundedFifo.Inv.{dead, added, ConsumerKnows, ProducerKnows, InvAt, Held}

module _ {T : Type 0} where
  pub ConsumerKnows-mono :
      {a b : ℕ} → a ≤ b → (c : Consumer T) → ConsumerKnows a c → ConsumerKnows b c
  ConsumerKnows-mono h (holding va) k = omega arith
  ConsumerKnows-mono h (popping out old) k = omega arith
  ConsumerKnows-mono h (subtracting out) k = omega arith
  ConsumerKnows-mono h crashed k = k
  ConsumerKnows-mono h _ k = tt

module _ {T : Type 0} (vacant : T) where
  -- The state that a step leaves, with the invariant for some values.
  abbrev After : Fifo T → Producer T → Type 0
  After q p = Held (producer_step vacant q p)

  module _ {xs : List T} {q : Fifo T} where
    -- A step that changes only where the producer stands.
    pass :
        {p : Producer T} (p' : Producer T)
        → InvAt xs q p q.consumer
        → added p ≡ added p'
        → ProducerKnows (record q { producer = p' }) p'
        → Held (record q { producer = p' })
    pass p' v same k = (
      xs,
      record {
        chain = v.chain;
        below = v.below;
        produced = k;
        consumed = v.consumed;
        counted = omega (arith, v.counted);
        bounded = v.bounded;
        word = v.word;
        history = v.history;
      },
    )

    step-entered : (p : Put T) → InvAt xs q (entered p) q.consumer → After q (entered p)
    unfolding producer_step
    step-entered p v = elim (Bool-cases (leb q.hwm q.count)) [
      | inl e ↦ rw e (pass (looping p) v refl tt)
      | inr e ↦ rw e (pass (checking p) v refl (λ on. ground arith))
    ]

    step-looping : (p : Put T) → InvAt xs q (looping p) q.consumer → After q (looping p)
    unfolding producer_step
    step-looping p v =
        if-cases (λ p'. Held (record q { producer = p' })) q.active
          (λ e. pass (testing p) v refl tt) (λ e. pass (checking p) v refl (λ on. cc))

    step-testing : (p : Put T) → InvAt xs q (testing p) q.consumer → After q (testing p)
    unfolding producer_step
    step-testing p v = elim (Bool-cases (leb q.hwm q.count)) [
      | inl e ↦ rw e (pass (dozing p) v refl tt)
      | inr e ↦ rw e (pass (checking p) v refl (λ on. ground arith))
    ]

    step-checking : (p : Put T) → InvAt xs q (checking p) q.consumer → After q (checking p)
    unfolding producer_step
    step-checking p v =
        if-cases Held (not q.active)
          (λ e. (
            xs,
            record {
              chain = v.chain;
              below = v.below;
              produced = tt;
              consumed = v.consumed;
              counted = v.counted;
              bounded = v.bounded;
              word = v.word;
              history = v.history;
            },
          ))
          (λ e. pass (linking p) v refl (v.produced (ground arith)))

    step-linking : (p : Put T) → InvAt xs q (linking p) q.consumer → After q (linking p)
    unfolding producer_step write_va
    step-linking p v = (
      xs,
      record {
        chain = Chain-update_above _ q.head q.tail q.tail _ (dead q.consumer ++ xs) (omega arith) (
            Chain-update_above q.mem q.head q.tail q.fresh _ (dead q.consumer ++ xs)
              (omega (arith, v.below)) v.chain);
        below = omega (arith, v.below);
        produced =
            (v.produced, v.below, omega arith, ap (λ (n : Node T). n.va) (update_self _ q.tail _));
        consumed = v.consumed;
        counted = v.counted;
        bounded = v.bounded;
        word = v.word;
        history = v.history;
      },
    )

    step-chaining :
        (va : T) (n : ℕ) → InvAt xs q (chaining va n) q.consumer → After q (chaining va n)
    unfolding producer_step write_next
    step-chaining va n v =
        let (room, up, old, holds) = v.produced in
        (
          xs,
          record {
            chain =
                Chain-update_above q.mem q.head q.tail q.tail _ (dead q.consumer ++ xs)
                  (omega arith) v.chain;
            below = v.below;
            produced = (
              room,
              up,
              old,
              ap (λ (k : Node T). k.va) (update_self q.mem q.tail _) ∙ holds,
              ap (λ (k : Node T). k.next) (update_self q.mem q.tail _),
            );
            consumed = v.consumed;
            counted = v.counted;
            bounded = v.bounded;
            word = v.word;
            history = v.history;
          },
        )

    -- The value joins the queue.
    step-moving : (va : T) (n : ℕ) → InvAt xs q (moving va n) q.consumer → After q (moving va n)
    unfolding producer_step
    step-moving va n v =
        let (room, up, old, holds, links) = v.produced in
        (
          xs ++ (va ∷ []),
          record {
            chain = rw (← append_assoc) (
                Chain-append q.mem q.head q.tail n va (dead q.consumer ++ xs) up holds links
                  v.chain);
            below = old;
            produced = room;
            consumed = v.consumed;
            counted = omega (arith, v.counted, length-append xs (va ∷ []));
            bounded = v.bounded;
            word = v.word;
            history = rw (v.history, append_assoc);
          },
        )

    step-counting : InvAt xs q counting q.consumer → After q counting
    unfolding producer_step
    step-counting v =
        let fits : size_t (q.count + 1) ≡ q.count + 1 = omega (arith, v.produced, v.word) in
        (
          xs,
          record {
            chain = v.chain;
            below = v.below;
            produced = tt;
            consumed = ConsumerKnows-mono (omega arith) q.consumer v.consumed;
            counted = omega (arith, v.counted);
            bounded = omega (arith, v.produced);
            word = v.word;
            history = v.history;
          },
        )

    step-dozing : (p : Put T) → InvAt xs q (dozing p) q.consumer → After q (dozing p)
    unfolding producer_step
    step-dozing p v = (
      xs,
      record {
        chain = v.chain;
        below = v.below;
        produced = tt;
        consumed = v.consumed;
        counted = v.counted;
        bounded = v.bounded;
        word = v.word;
        history = v.history;
      },
    )

    pub producer_step-Held : (p : Producer T) → InvAt xs q p q.consumer → q.producer ≡ p → After q p
    producer_step-Held free v e =
        unfold producer_step in (xs, subst (λ p. InvAt xs q p q.consumer) (sym e) v)
    producer_step-Held (entered p) v e = step-entered p v
    producer_step-Held (looping p) v e = step-looping p v
    producer_step-Held (testing p) v e = step-testing p v
    producer_step-Held (dozing p) v e = step-dozing p v
    producer_step-Held (checking p) v e = step-checking p v
    producer_step-Held (linking p) v e = step-linking p v
    producer_step-Held (chaining va n) v e = step-chaining va n v
    producer_step-Held (moving va n) v e = step-moving va n v
    producer_step-Held counting v e = step-counting v
