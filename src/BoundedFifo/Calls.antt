-- ===== src/BoundedFifo/Calls.antt =====
-- Calls of put that run without interference.
use boost_task.Prelude.{
  ℕ, ◌+◌, ◌^◌, ◌<◌, ◌≡◌, ◌≢◌, none, some, refl, ap, ◌∙◌, Bool, true, false, not, List, [], ◌∷◌,
  ◌++◌, leb, if◌then◌else◌, arith,
}
use boost_task.Nodes.{update, write_va, write_next}
use boost_task.BoundedFifo.{
  Fifo, Put, Producer, Act, begin_put, producer_goes, begin_take, consumer_goes, producer_step,
  step, run, producer_is_free,
}

module _ {T : Type 0} (vacant : T) (is_empty : T → Bool) where
  -- The calls of one thread that nobody interrupts.
  abbrev pub put_alone : Put T → List (Act T)
  put_alone p =
      begin_put p
      ∷ producer_goes
      ∷ producer_goes
      ∷ producer_goes
      ∷ producer_goes
      ∷ producer_goes
      ∷ producer_goes
      ∷ []

  abbrev pub take_alone : T → List (Act T)
  take_alone va =
      begin_take va
      ∷ consumer_goes
      ∷ consumer_goes
      ∷ consumer_goes
      ∷ consumer_goes
      ∷ consumer_goes
      ∷ []

  -- An event when it is known where the lock holder stands.
  run-begin_put :
      (acts : List (Act T)) (q : Fifo T) (p : Put T)
      → q.producer ≡ Producer.free
      → run vacant is_empty (begin_put p ∷ acts) q
        ≡ run vacant is_empty acts (record q { producer = Producer.entered p })
  unfolding run step
  run-begin_put acts q p e =
      ap
        (λ (b : Bool).
          run vacant is_empty acts (if b then record q { producer = Producer.entered p } else q))
        (unfold producer_is_free in ap producer_is_free e)

  pub run-producer_goes :
      (acts : List (Act T)) (q : Fifo T) (at : Producer T)
      → q.producer ≡ at
      → run vacant is_empty (producer_goes ∷ acts) q
        ≡ run vacant is_empty acts (producer_step vacant q at)
  unfolding run step
  run-producer_goes acts q at e =
      ap (λ (c : Producer T). run vacant is_empty acts (producer_step vacant q c)) e

  -- The tests of `put`.
  producer_step-entered :
      (q : Fifo T) (p : Put T) (b : Bool)
      → leb q.hwm q.count ≡ b
      → producer_step vacant q (Producer.entered p)
        ≡ record q { producer = if b then Producer.looping p else Producer.checking p }
  unfolding producer_step
  producer_step-entered q p b e =
      ap
        (λ (b : Bool). record q {
          producer = if b then Producer.looping p else Producer.checking p;
        })
        e

  producer_step-checking :
      (q : Fifo T) (p : Put T)
      → q.active ≡ true
      → producer_step vacant q (Producer.checking p) ≡ record q { producer = Producer.linking p }
  unfolding producer_step
  producer_step-checking q p e =
      ap
        (λ (b : Bool).
          if not b
          then record q { producer = Producer.free; rejected = p.va ∷ q.rejected }
          else record q { producer = Producer.linking p })
        e

  -- Where the last four steps of `put` lead.
  abbrev linked : Fifo T → Put T → Fifo T
  linked q p =
      let ready : Fifo T = record q { producer = Producer.linking p } in
      let written : Fifo T = producer_step vacant ready (Producer.linking p) in
      let chained : Fifo T = producer_step vacant written (Producer.chaining p.va q.fresh) in
      let moved : Fifo T = producer_step vacant chained (Producer.moving p.va q.fresh) in
      producer_step vacant moved Producer.counting

  put_run :
      (q : Fifo T) (p : Put T)
      → q.producer ≡ Producer.free
      → q.active ≡ true
      → q.count < q.hwm
      → run vacant is_empty (put_alone p) q ≡ linked q p
  unfolding producer_step
  put_run q p idle on room =
      run-begin_put _ q p idle
      ∙ run-producer_goes _ _ (Producer.entered p) refl
      ∙ ap (run vacant is_empty _) (
          producer_step-entered (record q { producer = Producer.entered p }) p false (ground arith))
      ∙ run-producer_goes _ _ (Producer.checking p) refl
      ∙ ap (run vacant is_empty _)
          (producer_step-checking (record q { producer = Producer.checking p }) p on)
      ∙ run-producer_goes _ _ (Producer.linking p) refl
      ∙ run-producer_goes _ _ (Producer.chaining p.va q.fresh) refl
      ∙ run-producer_goes _ _ (Producer.moving p.va q.fresh) refl
      ∙ run-producer_goes [] _ Producer.counting refl
      ∙ unfold run in refl

  -- The memory that the two writes of `put` leave.
  written :
      (q : Fifo T) (p : Put T)
      → q.tail < q.fresh
      → (linked q p).mem q.tail ≡ record { va = p.va; next = some q.fresh }
  unfolding producer_step update write_va write_next
  written q p old = ground arith

  blank_left :
      (q : Fifo T) (p : Put T)
      → q.tail < q.fresh
      → (linked q p).mem q.fresh ≡ record { va = vacant; next = none }
  unfolding producer_step update write_va write_next
  blank_left q p old = ground arith

  others_kept :
      (q : Fifo T) (p : Put T) (a : ℕ) → a < q.fresh → a ≢ q.tail → (linked q p).mem a ≡ q.mem a
  unfolding producer_step update write_va write_next
  others_kept q p a below other = ground arith

  -- Put into an active queue with room whose last node is an old one: it ends, with the value and a link to a new
  -- node written to the node that was last, every other old node as it was, the new node blank and
  -- last, the head where it was, one more counted, and a post due.
  pub put_lem :
      (q : Fifo T) (p : Put T)
      → q.producer ≡ Producer.free
      → q.active ≡ true
      → q.count < q.hwm
      → q.hwm < 2 ^ 64
      → q.tail < q.fresh
      → let q' = run vacant is_empty (put_alone p) q in
        (q'.producer ≡ Producer.free)
        × (q'.mem q.tail ≡ record { va = p.va; next = some q.fresh })
        × (q'.tail ≡ q.fresh)
        × (q'.mem q.fresh ≡ record { va = vacant; next = none })
        × ((a : ℕ) → a < q.fresh → a ≢ q.tail → q'.mem a ≡ q.mem a)
        × (q'.head ≡ q.head)
        × (q'.accepted ≡ q.accepted ++ (p.va ∷ []))
        × (q'.rejected ≡ q.rejected)
        × (q'.count ≡ q.count + 1)
        × (q'.owed ≡ q.owed + 1)
  unfolding producer_step
  put_lem q p idle on room small old = rw (put_run q p idle on room) (
    refl,
    written q p old,
    refl,
    blank_left q p old,
    others_kept q p,
    refl,
    refl,
    refl,
    omega arith,
    refl,
  )
