-- ===== src/UnboundedFifo/Calls.antt =====
-- Calls of the unbounded queue that nobody interrupts, as a value of the interface of Queue.antt.
use boost_task.Prelude.{
  ℕ, ◌≡◌, ◌≢◌, refl, ap, sym, ◌∙◌, Bool, true, false, not, Option, none, some, List, [], ◌∷◌, ◌++◌,
  ◌==◌, if◌then◌else◌, arith,
}
use mathlib.Core.Path.{subst}
use boost_task.Nodes.{Chain-le}
use boost_task.Queue.{Queue}
use boost_task.UnboundedFifo.{
  Fifo, look, close, construct, empty, check, append, enter_when, link_when, look_when, pop_next,
  pop_when, close_when, step, run, put, try_take, try_take_from,
}
use boost_task.UnboundedFifo.Inv.{Holds, append-Holds, pop_next-Holds, construct-Holds}

module _ {T : Type 0} (vacant : T) where
  -- Nobody is inside a call.
  pub record Idle (q : Fifo T) (xs : List T) : Type 0 where
    pub holds : Holds q xs
    pub no_producer : q.producer ≡ none
    pub no_consumer : q.consumer ≡ none

  -- `none` where the call throws.
  unfoldable pub put_call : Fifo T → T → Option (Fifo T)
  put_call q va = if q.active then some (put vacant q va) else none

  put-active :
      (q : Fifo T) (va : T)
      → q.producer ≡ none
      → q.active ≡ true
      → put vacant q va ≡ append vacant (record q { producer = some va }) va
  unfolding put run step enter_when link_when check
  put-active q va p a =
      let refused = record q { rejected = q.rejected ++ (va ∷ []) } in
      let entered = record q { producer = some va } in
      ap (λ (o : Option T). let w = enter_when vacant q o va in link_when vacant w w.producer) p
      ∙ ap
          (λ (b : Bool).
            let w = (if not b then refused else entered) in link_when vacant w w.producer)
          a

  look_lem :
      (q : Fifo T) (ca : T)
      → q.producer ≡ none
      → q.consumer ≡ none
      → step vacant q (look ca) ≡ (if empty vacant q then q else record q { consumer = some ca })
  unfolding step look_when
  look_lem q ca p c =
      ap (λ (o : Option T). look_when vacant q o q.consumer ca) p
      ∙ ap (λ (o : Option T). look_when vacant q none o ca) c

  not_empty : (q : Fifo T) (x : T) (xs : List T) → Holds q (x ∷ xs) → (q.head == q.tail) ≡ false
  not_empty q x xs h =
      let (m, up, v, l, chain) = h.chain in ground (arith, Chain-le q.mem m q.tail xs chain)

  put_call-active :
      (q : Fifo T) (xs : List T) (va : T)
      → Idle q xs
      → q.active ≡ true
      → (q' : Fifo T) × (put_call q va ≡ some q') × Idle q' (xs ++ (va ∷ [])) × (q'.active ≡ true)
  unfolding put_call append
  put_call-active q xs va s a =
      let h = s.holds in
      let entered = record q { producer = some va } in
      let h' : Holds entered xs = record {
        chain = h.chain;
        new = h.new;
        history = h.history;
        ahead = h.ahead;
      } in
      (
        append vacant entered va,
        ap (λ (b : Bool). if b then some (put vacant q va) else none) a
            ∙ ap (λ (w : Fifo T). some w) (put-active q va s.no_producer a),
        record {
          holds = append-Holds vacant entered va xs h';
          no_producer = refl;
          no_consumer = s.no_consumer;
        },
        a,
      )

  deactivate-Idle :
      (q : Fifo T) (xs : List T)
      → Idle q xs
      → let q' : Fifo T = step vacant q close in Idle q' xs × (q'.active ≡ false)
  unfolding step close_when
  deactivate-Idle q xs s =
      let h = s.holds in
      let closed : record q { active = false } ≡ close_when vacant q q.consumer =
        sym (ap (close_when vacant q) s.no_consumer) in
      subst (λ (w : Fifo T). Idle w xs × (w.active ≡ false)) closed
        (
          record {
            holds = record { chain = h.chain; new = h.new; history = h.history; ahead = h.ahead };
            no_producer = s.no_producer;
            no_consumer = s.no_consumer;
          },
          refl,
        )

  module _ (is_vacant : T → Bool) where
    take-front :
        (q : Fifo T) (x : T) (xs : List T) (ca : T)
        → Idle q (x ∷ xs)
        → is_vacant x ≡ false
        → (q' : Fifo T) × (try_take vacant is_vacant q ca ≡ (true, x, q'))
          × Idle q' xs
          × (q'.active ≡ q.active)
    unfolding try_take try_take_from pop_when pop_next empty
    take-front q x xs ca s full =
        let h = s.holds in
        let held = record q { consumer = some ca } in
        let h' : Holds held (x ∷ xs) = record {
          chain = h.chain;
          new = h.new;
          history = h.history;
          ahead = λ ca' e. cons≢nil;
        } in
        let (n, l, rest, v) = pop_next-Holds vacant held ca x xs h' in
        let differ = not_empty q x xs h in
        let looked : step vacant q (look ca) ≡ held =
          look_lem q ca s.no_producer s.no_consumer
          ∙ ap (λ (b : Bool). if b then q else held) differ in
        (
          pop_next vacant held ca (some n),
          ap (λ (w : Fifo T). try_take_from vacant is_vacant w w.consumer ca) looked
              ∙ ap
                  (λ (o : Option ℕ). (
                    not (is_vacant (q.mem q.head).va),
                    (q.mem q.head).va,
                    pop_next vacant held ca o,
                  ))
                  l
              ∙ ap (λ (y : T). (not (is_vacant y), y, pop_next vacant held ca (some n))) v
              ∙ ap (λ (b : Bool). (not b, x, pop_next vacant held ca (some n))) full,
          record { holds = rest; no_producer = s.no_producer; no_consumer = refl },
          refl,
        )
      where
        cons≢nil : x ∷ xs ≢ []
        cons≢nil e = cc e

    take-none : (q : Fifo T) (ca : T) → Idle q [] → try_take vacant is_vacant q ca ≡ (false, ca, q)
    unfolding try_take try_take_from empty
    take-none q ca s =
        let same : (q.head == q.tail) ≡ true = ground (arith, s.holds.chain) in
        let looked : step vacant q (look ca) ≡ q =
          look_lem q ca s.no_producer s.no_consumer
          ∙ ap (λ (b : Bool). if b then q else record q { consumer = some ca }) same in
        ap (λ (w : Fifo T). try_take_from vacant is_vacant w w.consumer ca) looked
        ∙ ap (λ (o : Option T). try_take_from vacant is_vacant q o ca) s.no_consumer

    -- The calls of the queue, each alone, are those of a FIFO.
    pub unbounded_fifo : Queue T is_vacant
    unfolding put_call empty
    unbounded_fifo = record {
      Q = Fifo T;
      put = put_call;
      try_take = try_take vacant is_vacant;
      empty = empty vacant;
      active = λ q. q.active;
      deactivate = λ q. step vacant q close;
      Holds = Idle;
      put_active = put_call-active;
      put_closed = λ q xs v s c. ap (λ (b : Bool). if b then some (put vacant q v) else none) c;
      take_front = take-front;
      take_none = take-none;
      empty_nil = λ q s. ground (arith, s.holds.chain);
      empty_cons = λ q x xs s. not_empty q x xs s.holds;
      deactivate_lem = deactivate-Idle;
    }

    -- A new queue is in order, empty and active.
    pub blank_queue :
        (has_fsem : Bool)
        → (q : unbounded_fifo.Q) × unbounded_fifo.Holds q [] × (unbounded_fifo.active q ≡ true)
    unfolding unbounded_fifo construct
    blank_queue has_fsem = (
      construct vacant has_fsem,
      record { holds = construct-Holds vacant has_fsem; no_producer = refl; no_consumer = refl },
      refl,
    )
