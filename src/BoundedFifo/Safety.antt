-- ===== src/BoundedFifo/Safety.antt =====
-- What a pool may rely on in its bounded queue, after any sequence of events.
use boost_task.Prelude.{
  ℕ, ◌+◌, ◌^◌, ◌<◌, ◌≤◌, ◌≡◌, ◌≢◌, refl, ◌∙◌, Bool, true, false, List, [], ◌∷◌, ◌++◌, length, arith,
}
use mathlib.Core.Path.{subst}
use boost_task.BoundedFifo.{
  Fifo, Producer, Consumer, Act, producer_goes, consumer_goes, producer_step, consumer_step, step,
  run, construct,
}
use boost_task.BoundedFifo.Inv.{ConsumerKnows, added, removed}
use boost_task.BoundedFifo.Steps.{reach-Held}

module _ {T : Type 0} (vacant : T) (is_empty : T → Bool) where
  hwm-producer_step : (p : Producer T) (q : Fifo T) → (producer_step vacant q p).hwm ≡ q.hwm
  unfolding producer_step
  hwm-producer_step Producer.free q = refl
  hwm-producer_step _ q = ground arith

  hwm-consumer_step : (c : Consumer T) (q : Fifo T) → (consumer_step is_empty q c).hwm ≡ q.hwm
  unfolding consumer_step
  hwm-consumer_step Consumer.free q = refl
  hwm-consumer_step _ q = ground arith

  hwm-step : (a : Act T) (q : Fifo T) → (step vacant is_empty a q).hwm ≡ q.hwm
  unfolding step
  hwm-step producer_goes q = hwm-producer_step q.producer q
  hwm-step consumer_goes q = hwm-consumer_step q.consumer q
  hwm-step _ q = ground arith

  hwm-run : (acts : List (Act T)) (q : Fifo T) → (run vacant is_empty acts q).hwm ≡ q.hwm
  unfolding run
  hwm-run [] q = refl
  hwm-run (a ∷ acts) q = hwm-run acts (step vacant is_empty a q) ∙ hwm-step a q

  hwm-construct : (hwm lwm : ℕ) → (construct vacant hwm lwm).hwm ≡ hwm
  unfolding construct
  hwm-construct hwm lwm = refl

  abbrev pub reached : ℕ → ℕ → List (Act T) → Fifo T
  reached hwm lwm acts = run vacant is_empty acts (construct vacant hwm lwm)

  -- Whatever the threads do, in any order: the count stays within the high-water mark, no call follows a
  -- null link, the values come out in the order in which they were linked, each once and none lost, and
  -- the count is the number of values in the queue, but for the one step of a producer or consumer
  -- that is under way.
  pub reach_safe :
      (hwm lwm : ℕ) (acts : List (Act T))
      → hwm < 2 ^ 64
      → let q = reached hwm lwm acts in
        (xs : List T) × (q.accepted ≡ q.taken ++ xs)
        × (q.count ≤ hwm)
        × (q.count + added q.producer ≡ length xs + removed q.consumer)
        × (q.consumer ≢ Consumer.crashed)
  reach_safe hwm lwm acts small =
      let (xs, v) = reach-Held vacant is_empty hwm lwm acts small in
      let same = hwm-run acts (construct vacant hwm lwm) in
      (
        xs,
        v.history,
        omega (arith, v.bounded, same ∙ hwm-construct hwm lwm),
        v.counted,
        λ e. subst (λ c. ConsumerKnows (reached hwm lwm acts).count c) e v.consumed,
      )

  -- Past its last look at the state, a producer links its value whatever happens.
  abbrev pub committed : Producer T → Bool
  committed (Producer.linking p) = true
  committed (Producer.chaining va n) = true
  committed (Producer.moving va n) = true
  committed _ = false

  record Closed (accepted : List T) (q : Fifo T) : Type 0 where
    off : q.active ≡ false
    open_calls : committed q.producer ≡ false
    same : q.accepted ≡ accepted

  producer_step-Closed :
      (accepted : List T) (p : Producer T) (q : Fifo T)
      → q.producer ≡ p
      → Closed accepted q
      → Closed accepted (producer_step vacant q p)
  unfolding producer_step
  producer_step-Closed accepted Producer.free q e v = v
  producer_step-Closed accepted _ q e v = ground arith

  consumer_step-Closed :
      (accepted : List T) (c : Consumer T) (q : Fifo T)
      → Closed accepted q
      → Closed accepted (consumer_step is_empty q c)
  unfolding consumer_step
  consumer_step-Closed accepted Consumer.free q v = v
  consumer_step-Closed accepted _ q v = ground arith

  step-Closed :
      (accepted : List T) (a : Act T) (q : Fifo T)
      → Closed accepted q
      → Closed accepted (step vacant is_empty a q)
  unfolding step
  step-Closed accepted producer_goes q v = producer_step-Closed accepted q.producer q refl v
  step-Closed accepted consumer_goes q v = consumer_step-Closed accepted q.consumer q v
  step-Closed accepted _ q v = ground arith

  run-Closed :
      (acts : List (Act T)) (accepted : List T) (q : Fifo T)
      → Closed accepted q
      → Closed accepted (run vacant is_empty acts q)
  unfolding run
  run-Closed [] accepted q v = v
  run-Closed (a ∷ acts) accepted q v =
      run-Closed acts accepted (step vacant is_empty a q) (step-Closed accepted a q v)

  -- Once the queue is switched off and no producer is past its check of that, nothing is linked any more,
  -- whatever calls follow: `put` can only be rejected.
  pub closed_for_good :
      (acts : List (Act T)) (q : Fifo T)
      → q.active ≡ false
      → committed q.producer ≡ false
      → ((run vacant is_empty acts q).active ≡ false)
        × ((run vacant is_empty acts q).accepted ≡ q.accepted)
  closed_for_good acts q off open_calls =
      let v =
        run-Closed acts q.accepted q (record { off = off; open_calls = open_calls; same = refl }) in
      (v.off, v.same)
