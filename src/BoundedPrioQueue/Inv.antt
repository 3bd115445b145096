-- ===== src/BoundedPrioQueue/Inv.antt =====
-- What holds of the bounded priority queue in every state: its bound, and who may sleep.
use boost_task.Prelude.{
  ℕ, suc, ◌+◌, ◌<◌, ◌≤◌, ◌≡◌, refl, sym, ◌∙◌, Bool, true, false, not, length, arith,
}
use boost_task.BoundedPrioQueue.{Heap, PrioQueue}

-- The numbers that decide: the size, the watermarks, the producers asleep and ready.
pub record Fits (active : Bool) (n hwm lwm asleep ready : ℕ) : Type 0 where
  pub marks : lwm ≤ hwm
  pub bound : n ≤ hwm
  pub running : 1 ≤ asleep → active ≡ true
  pub above : 1 ≤ asleep → lwm < hwm → lwm < n
  pub owed : 1 ≤ asleep → lwm ≡ hwm → hwm ≤ n + ready

pub not-true : (b : Bool) → not b ≡ true → b ≡ false
not-true true h = sym h
not-true false h = refl

pub not-false : (b : Bool) → not b ≡ false → b ≡ true
not-false true h = refl
not-false false h = sym h

module _ {active : Bool} {n hwm lwm asleep ready : ℕ} where
  -- One more producer that is ready does no harm.
  pub Fits-more : Fits active n hwm lwm asleep ready → Fits active n hwm lwm asleep (suc ready)
  Fits-more f = record {
    marks = f.marks;
    bound = f.bound;
    running = f.running;
    above = f.above;
    owed = λ s e. omega (arith, f.owed s e);
  }

  pub Fits-fewer :
      (asleep' ready' : ℕ)
      → Fits active n hwm lwm asleep ready
      → asleep' ≤ asleep
      → ready ≤ ready'
      → Fits active n hwm lwm asleep' ready'
  Fits-fewer asleep' ready' f le ge = record {
    marks = f.marks;
    bound = f.bound;
    running = λ s. f.running (omega arith);
    above = λ s. f.above (omega arith);
    owed = λ s e. omega (arith, f.owed (omega arith) e);
  }

  -- A value more, by a producer that was ready.
  pub Fits-push :
      Fits active n hwm lwm asleep (suc ready) → n < hwm → Fits active (suc n) hwm lwm asleep ready
  Fits-push f lt = record {
    marks = f.marks;
    bound = lt;
    running = f.running;
    above = λ s l. omega (arith, f.above s l);
    owed = λ s e. omega (arith, f.owed s e);
  }

  -- One more sleeper on a full queue.
  pub Fits-sleep :
      (asleep' : ℕ)
      → Fits active n hwm lwm asleep (suc ready)
      → active ≡ true
      → hwm ≤ n
      → Fits active n hwm lwm asleep' ready
  Fits-sleep asleep' f a le = record {
    marks = f.marks;
    bound = f.bound;
    running = λ s. a;
    above = λ s l. omega arith;
    owed = λ s e. omega arith;
  }

  -- Nobody sleeps.
  pub Fits-nobody :
      (n' : ℕ) (active' : Bool) (asleep' ready' : ℕ)
      → Fits active n hwm lwm asleep ready
      → asleep' ≡ 0
      → n' ≤ n
      → Fits active' n' hwm lwm asleep' ready'
  Fits-nobody n' active' asleep' ready' f z le = record {
    marks = f.marks;
    bound = omega (arith, f.bound);
    running = λ s. absurd (omega (arith, s));
    above = λ s. absurd (omega (arith, s));
    owed = λ s. absurd (omega (arith, s));
  }

  -- A value less, and a producer more that is ready, where the watermarks agree.
  pub Fits-pop_level :
      Fits active (suc n) hwm lwm asleep ready
      → lwm ≡ hwm
      → Fits active n hwm lwm asleep (suc ready)
  Fits-pop_level f e = record {
    marks = f.marks;
    bound = omega (arith, f.bound);
    running = f.running;
    above = λ s l. absurd (omega (arith, l));
    owed = λ s e'. omega (arith, f.owed s e');
  }

  -- A value less, still above the low watermark.
  pub Fits-pop_high :
      Fits active (suc n) hwm lwm asleep ready → lwm < n → Fits active n hwm lwm asleep ready
  Fits-pop_high f lt = record {
    marks = f.marks;
    bound = omega (arith, f.bound);
    running = f.running;
    above = λ s l. lt;
    owed = λ s e. absurd (omega (arith, f.bound, e));
  }

  -- A closed queue has no sleepers.
  pub Fits-closed :
      Fits active n hwm lwm asleep (suc ready) → active ≡ false → Fits active n hwm lwm asleep ready
  Fits-closed f a = record {
    marks = f.marks;
    bound = f.bound;
    running = f.running;
    above = f.above;
    owed = λ s. absurd (let e : true ≡ false = sym (f.running s) ∙ a in cc e);
  }

module _ {V Q : Type 0} (heap : Heap V Q) where
  unfoldable pub IsSound : PrioQueue V Q → Type 0
  IsSound q = Fits q.active (heap.size q.queue) q.hwm q.lwm (length q.asleep) (length q.ready)

  -- Sound but for a producer that has just left the ready ones.
  unfoldable pub Owing : PrioQueue V Q → Type 0
  Owing q = Fits q.active (heap.size q.queue) q.hwm q.lwm (length q.asleep) (suc (length q.ready))
