-- ===== src/BoundedFifo/Steps.antt =====
-- The invariant under every event, and under any sequence of events.
use boost_task.Prelude.{
  ℕ, ◌^◌, ◌<◌, ◌≡◌, refl, ap, Bool, true, List, [], ◌∷◌, ◌++◌, if-cases, arith,
}
use mathlib.Core.Path.{subst}
use boost_task.BoundedFifo.{
  Fifo, Put, Producer, Consumer, Act, begin_put, producer_goes, begin_take, begin_deactivate,
  consumer_goes, relock, wake_up, reorder, time_out, post, producer_is_free, consumer_is_free,
  relock_first, reorder_first, time_out_first, step, run, construct,
}
use boost_task.BoundedFifo.Inv.{added, ProducerKnows, InvAt, Held, construct-Inv}
use boost_task.BoundedFifo.Produced.{producer_step-Held}
use boost_task.BoundedFifo.Consumed.{
  ProducerKnows-keep, producer_free, consumer_step-Held, notify_first-Held, pass,
}

module _ {T : Type 0} where
  consumer_free : (c : Consumer T) → consumer_is_free c ≡ true → c ≡ Consumer.free
  unfolding consumer_is_free
  consumer_free Consumer.free e = refl
  consumer_free _ e = absurd (cc)

  -- A thread gets the free tail lock, or the lists of producers change.
  rearrange :
      {q : Fifo T} (p : Producer T) (asleep woken : List (Put T)) (owed : ℕ) (rejected : List T)
      → Held q
      → added q.producer ≡ added p
      → ((r : Fifo T) → ProducerKnows r q.producer → ProducerKnows r p)
      → Held (record q {
        producer = p;
        asleep = asleep;
        woken = woken;
        owed = owed;
        rejected = rejected;
      })
  rearrange {q} p asleep woken owed rejected (xs, v) same knows =
      let q' : Fifo T = record q {
        producer = p;
        asleep = asleep;
        woken = woken;
        owed = owed;
        rejected = rejected;
      } in
      (
        xs,
        record {
          chain = v.chain;
          below = v.below;
          produced = knows q' (
              ProducerKnows-keep q q' (omega arith) refl refl refl refl (λ a. a) q.producer
                v.produced);
          consumed = v.consumed;
          counted = omega (arith, v.counted);
          bounded = v.bounded;
          word = v.word;
          history = v.history;
        },
      )

  relock_first-Held :
      {q : Fifo T} (ps : List (Put T))
      → q.producer ≡ Producer.free
      → Held q
      → Held (relock_first q ps)
  unfolding relock_first
  relock_first-Held [] e h = h
  relock_first-Held {q} (p ∷ ps) e h =
      rearrange (Producer.looping p) q.asleep ps q.owed q.rejected h (ap added e) (λ r k. tt)

  reorder_first-Held : {q : Fifo T} (ps : List (Put T)) → Held q → Held (reorder_first q ps)
  unfolding reorder_first
  reorder_first-Held [] h = h
  reorder_first-Held {q} (p ∷ ps) h =
      rearrange q.producer (ps ++ (p ∷ [])) q.woken q.owed q.rejected h refl (λ r k. k)

  time_out_first-Held : {q : Fifo T} (ps : List (Put T)) → Held q → Held (time_out_first q ps)
  unfolding time_out_first
  time_out_first-Held [] h = h
  time_out_first-Held {q} (p ∷ ps) h =
      if-cases Held p.timed
        (λ e. rearrange q.producer ps q.woken q.owed (p.va ∷ q.rejected) h refl (λ r k. k)) (λ e. h)

module _ {T : Type 0} (vacant : T) (is_empty : T → Bool) where
  pub step-Held : (a : Act T) (q : Fifo T) → Held q → Held (step vacant is_empty a q)
  unfolding step
  step-Held (begin_put p) q h =
      if-cases Held (producer_is_free q.producer)
        (λ e.
          rearrange (Producer.entered p) q.asleep q.woken q.owed q.rejected h
            (ap added (producer_free q.producer e)) (λ r k. tt))
        (λ e. h)
  step-Held producer_goes q (xs, v) = producer_step-Held vacant q.producer v refl
  step-Held (begin_take va) q (xs, v) =
      if-cases Held (consumer_is_free q.consumer)
        (λ e.
          pass is_empty (Consumer.entered va)
            (subst (λ c. InvAt xs q q.producer c) (consumer_free q.consumer e) v) refl refl tt)
        (λ e. (xs, v))
  step-Held begin_deactivate q (xs, v) =
      if-cases Held (consumer_is_free q.consumer)
        (λ e.
          pass is_empty (Consumer.deactivating)
            (subst (λ c. InvAt xs q q.producer c) (consumer_free q.consumer e) v) refl refl tt)
        (λ e. (xs, v))
  step-Held consumer_goes q (xs, v) = consumer_step-Held is_empty q.consumer v refl
  step-Held relock q h =
      if-cases Held (producer_is_free q.producer)
        (λ e. relock_first-Held q.woken (producer_free q.producer e) h) (λ e. h)
  step-Held wake_up q h = notify_first-Held q q.asleep h
  step-Held reorder q h = reorder_first-Held q.asleep h
  step-Held time_out q h =
      if-cases Held (producer_is_free q.producer) (λ e. time_out_first-Held q.asleep h) (λ e. h)
  step-Held post q h = rearrange q.producer q.asleep q.woken _ q.rejected h refl (λ r k. k)

  pub run-Held : (acts : List (Act T)) (q : Fifo T) → Held q → Held (run vacant is_empty acts q)
  unfolding run
  run-Held [] q h = h
  run-Held (a ∷ acts) q h = run-Held acts (step vacant is_empty a q) (step-Held a q h)

  -- The states that a fresh queue can reach.
  pub reach-Held :
      (hwm lwm : ℕ) (acts : List (Act T))
      → hwm < 2 ^ 64
      → Held (run vacant is_empty acts (construct vacant hwm lwm))
  reach-Held hwm lwm acts small =
      run-Held acts (construct vacant hwm lwm) ([], construct-Inv vacant hwm lwm small)
