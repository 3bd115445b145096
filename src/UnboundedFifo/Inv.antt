-- ===== src/UnboundedFifo/Inv.antt =====
-- The chain of nodes between head and tail, and the record of the calls.
use boost_task.Prelude.{
  ℕ, ◌<◌, ◌≡◌, ◌≢◌, refl, ap, sym, ◌∙◌, Bool, false, not, Option, none, some, List, [], ◌∷◌, ◌++◌,
  ◌==◌, if-cases, arith,
}
use mathlib.Core.List.{append_assoc}
use mathlib.Core.Path.{subst}
use boost_task.Nodes.{
  Node, write_va, write_next, update, update_self, Chain, Chain-update_above, Chain-update_below,
  Chain-append,
}
use boost_task.UnboundedFifo.{
  Fifo, Event, enter, link, look, pop, close, blank, construct, empty, check, append, enter_when,
  link_when, look_when, pop_next, pop_when, close_when, step, run,
}

module _ {T : Type 0} where
  -- `xs` are the values between head and tail. A consumer past its test has one before it.
  pub record Holds (q : Fifo T) (xs : List T) : Type 0 where
    pub chain : Chain q.mem q.head q.tail xs
    pub new : q.tail < q.fresh
    pub history : q.accepted ≡ q.taken ++ xs
    pub ahead : (ca : T) → q.consumer ≡ some ca → xs ≢ []

  abbrev pub IsSound : Fifo T → Type 0
  IsSound q = (xs : List T) × Holds q xs

module _ {T : Type 0} (vacant : T) where
  pub append-Holds :
      (q : Fifo T) (va : T) (xs : List T)
      → Holds q xs
      → Holds (append vacant q va) (xs ++ (va ∷ []))
  unfolding append write_va write_next
  append-Holds q va xs s =
      let m1 = update q.mem q.fresh (blank vacant) in
      let m2 = update m1 q.tail (record (m1 q.tail) { va = va }) in
      let m3 = update m2 q.tail (record (m2 q.tail) { next = some q.fresh }) in
      let at2 = update_self m1 q.tail (record (m1 q.tail) { va = va }) in
      let at3 = update_self m2 q.tail (record (m2 q.tail) { next = some q.fresh }) in
      record {
        chain =
            Chain-append m3 q.head q.tail q.fresh va xs s.new
              (ap (λ (n : Node T). n.va) at3 ∙ ap (λ (n : Node T). n.va) at2)
              (ap (λ (n : Node T). n.next) at3)
              (Chain-update_above m2 q.head q.tail q.tail _ xs (omega arith) (
                Chain-update_above m1 q.head q.tail q.tail _ xs (omega arith) (
                  Chain-update_above q.mem q.head q.tail q.fresh _ xs (omega (arith, s.new))
                    s.chain)));
        new = omega arith;
        history = rw s.history (append_assoc q.taken xs (va ∷ []));
        ahead = λ ca e. not_empty xs va;
      }
    where
      not_empty : (xs : List T) (va : T) → xs ++ (va ∷ []) ≢ []
      not_empty [] va e = absurd (cc e)
      not_empty (x ∷ xs) va e = absurd (cc e)

  -- The head's value goes, and its successor is the head.
  pub pop_next-Holds :
      (q : Fifo T) (ca x : T) (xs : List T)
      → Holds q (x ∷ xs)
      → (n : ℕ) × ((q.mem q.head).next ≡ some n)
        × Holds (pop_next vacant q ca (some n)) xs
        × ((q.mem q.head).va ≡ x)
  unfolding pop_next write_va
  pop_next-Holds q ca x xs s =
      let (n, up, v, l, c) = s.chain in
      (
        n,
        l,
        record {
          chain = Chain-update_below q.mem n q.tail q.head _ xs up c;
          new = s.new;
          history = s.history ∙ rw v (sym (append_assoc q.taken (x ∷ []) xs));
          ahead = λ ca' e'. absurd (cc e');
        },
        v,
      )

  pop_next-IsSound :
      (q : Fifo T) (ca : T) (xs : List T)
      → xs ≢ []
      → Holds q xs
      → IsSound (pop_next vacant q ca (q.mem q.head).next)
  pop_next-IsSound q ca [] full s = absurd (full refl)
  pop_next-IsSound q ca (x ∷ xs) full s =
      let (n, l, h, v) = pop_next-Holds q ca x xs s in
      subst (λ (o : Option ℕ). IsSound (pop_next vacant q ca o)) (sym l) (xs, h)

  -- The fields that `Holds` reads are as they were, but perhaps for the consumer.
  same-Holds :
      (q : Fifo T) (xs : List T) (active : Bool) (producer consumer : Option T) (rejected : List T)
      → Holds q xs
      → ((ca : T) → consumer ≡ some ca → xs ≢ [])
      → IsSound (record q {
        active = active;
        producer = producer;
        consumer = consumer;
        rejected = rejected;
      })
  same-Holds q xs active producer consumer rejected s h =
      (xs, record { chain = s.chain; new = s.new; history = s.history; ahead = h })

  enter_when-IsSound :
      (q : Fifo T) (o : Option T) (va : T) → IsSound q → IsSound (enter_when vacant q o va)
  unfolding enter_when check
  enter_when-IsSound q none va (xs, s) =
      if-cases IsSound (not q.active)
        (λ c. same-Holds q xs q.active q.producer q.consumer _ s s.ahead)
        (λ c. same-Holds q xs q.active (some va) q.consumer q.rejected s s.ahead)
  enter_when-IsSound q (some other) va s = s

  link_when-IsSound : (q : Fifo T) (o : Option T) → IsSound q → IsSound (link_when vacant q o)
  unfolding link_when
  link_when-IsSound q none s = s
  link_when-IsSound q (some va) (xs, s) = (xs ++ (va ∷ []), append-Holds q va xs s)

  look_when-IsSound :
      (q : Fifo T) (o c : Option T) (ca : T) → IsSound q → IsSound (look_when vacant q o c ca)
  unfolding look_when empty
  look_when-IsSound q none none ca (xs, s) =
      if-cases IsSound (q.head == q.tail) (λ e. (xs, s))
        (λ e.
          same-Holds q xs q.active q.producer (some ca) q.rejected s
            (λ ca' e'. nonempty xs s.chain e))
    where
      nonempty : (xs : List T) → Chain q.mem q.head q.tail xs → (q.head == q.tail) ≡ false → xs ≢ []
      nonempty [] c e h = absurd (ground arith)
      nonempty (x ∷ xs) c e h = absurd (cc h)
  look_when-IsSound q (some va) c ca s = s
  look_when-IsSound q none (some other) ca s = s

  pop_when-IsSound :
      (q : Fifo T) (o : Option T) → q.consumer ≡ o → IsSound q → IsSound (pop_when vacant q o)
  unfolding pop_when
  pop_when-IsSound q none e s = s
  pop_when-IsSound q (some ca) e (xs, s) = pop_next-IsSound q ca xs (s.ahead ca e) s

  close_when-IsSound : (q : Fifo T) (o : Option T) → IsSound q → IsSound (close_when vacant q o)
  unfolding close_when
  close_when-IsSound q none (xs, s) =
      same-Holds q xs false q.producer q.consumer q.rejected s s.ahead
  close_when-IsSound q (some ca) s = s

  -- An event keeps the queue sound.
  step-IsSound : (q : Fifo T) (e : Event T) → IsSound q → IsSound (step vacant q e)
  unfolding step
  step-IsSound q (enter va) s = enter_when-IsSound q q.producer va s
  step-IsSound q link s = link_when-IsSound q q.producer s
  step-IsSound q (look ca) s = look_when-IsSound q q.producer q.consumer ca s
  step-IsSound q pop s = pop_when-IsSound q q.consumer refl s
  step-IsSound q close s = close_when-IsSound q q.consumer s

  pub run-IsSound : (q : Fifo T) (es : List (Event T)) → IsSound q → IsSound (run vacant q es)
  unfolding run
  run-IsSound q [] s = s
  run-IsSound q (e ∷ es) s = run-IsSound (step vacant q e) es (step-IsSound q e s)

  pub construct-Holds : (has_fsem : Bool) → Holds (construct vacant has_fsem) []
  unfolding construct
  construct-Holds has_fsem = record {
    chain = refl;
    new = omega arith;
    history = refl;
    ahead = λ ca e. absurd (cc e);
  }
