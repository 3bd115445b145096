-- ===== src/Wsq/Shared/Inv.antt =====
-- The deque that a shared ring stands for while calls are under way, and how a step moves it.
use boost_task.Prelude.{
  ℕ, suc, ◌+◌, ◌<◌, ◌≤◌, ◌≡◌, refl, false, none, some, List, [], ◌∷◌, ◌++◌, arith,
}
use boost_task.Wsq.{Wsq}
use boost_task.Wsq.Inv.{IsValid, contents}
use boost_task.Wsq.Deque
use boost_task.Wsq.Deque.{Op, Reply}
use boost_task.Wsq.Shared.{
  Shared, Ended, Owner, idle, looking, swapping, wanting, Thief, away, raised, grabbing,
}

-- What a call that ends makes of a deque.
unfoldable pub Explains : {T : Type 0} → List T → Ended T → List T → Type 0
Explains xs none ys = xs ≡ ys
Explains xs (some (Op.put x, reply)) ys = (reply ≡ none) × (ys ≡ xs ++ (x ∷ []))
Explains xs (some (Op.take ca, reply)) ys =
    let r = Deque.take_back xs ca in (reply ≡ some (r.0, r.1)) × (ys ≡ r.2)
Explains xs (some (Op.steal lock ca, reply)) ys =
    let r = Deque.take_front lock xs ca in (reply ≡ some (r.0, r.1)) × (ys ≡ r.2)

module _ {T : Type 0} where
  -- The indices as they would be if those under way had not begun; a callable leaves when it is swapped.
  abbrev pub front_of : ℕ → Thief T → ℕ
  front_of head away = head
  front_of head (raised h ca) = h
  front_of head (grabbing h ca) = h

  abbrev pub back_of : ℕ → Owner T → ℕ
  back_of tail idle = tail
  back_of tail (looking t ca) = suc t
  back_of tail (swapping t ca) = suc t
  back_of tail (wanting t ca) = suc t

  -- The first index that no thief is about to swap.
  abbrev pub claimed : ℕ → Thief T → ℕ
  claimed head away = head
  claimed head (raised h ca) = h
  claimed head (grabbing h ca) = suc h

  abbrev pub OwnerOk : ℕ → Owner T → ℕ → Type 0
  OwnerOk tail idle c = Unit {0}
  OwnerOk tail (looking t ca) c = tail ≡ t
  OwnerOk tail (swapping t ca) c = (tail ≡ t) × (c ≤ t)
  OwnerOk tail (wanting t ca) c = tail ≡ t

  abbrev pub ThiefOk : ℕ → Thief T → ℕ → Type 0
  ThiefOk head away b = Unit {0}
  ThiefOk head (raised h ca) b = head ≡ suc h
  ThiefOk head (grabbing h ca) b = (head ≡ suc h) × (h < b)

module _ {T S : Type 0} where
  abbrev pub settled : Wsq T S → Owner T → Thief T → Wsq T S
  settled w o th = record w { head_idx = front_of w.head_idx th; tail_idx = back_of w.tail_idx o }

  pub record Ok (k : ℕ) (w : Wsq T S) (o : Owner T) (th : Thief T) : Type 0 where
    pub valid : IsValid k (settled w o th)
    pub owner_ok : OwnerOk w.tail_idx o (claimed w.head_idx th)
    pub thief_ok : ThiefOk w.head_idx th (back_of w.tail_idx o)

module _ {T S : Type 0} (vacant : T) where
  -- The step leaves a ring in order, its end is explained by the deque, and no more than `p` are added.
  pub record Moved (k p : ℕ) (w : Wsq T S) (o : Owner T) (th : Thief T) (r : Shared T S × Ended T)
      : Type 0 where
    pub ok : Ok k r.0.ring r.0.owner r.0.thief
    pub explained :
        Explains
          (contents vacant (settled w o th))
          r.1
          (contents vacant (settled r.0.ring r.0.owner r.0.thief))
    pub end : back_of r.0.ring.tail_idx r.0.owner ≤ back_of w.tail_idx o + p
    pub count :
        back_of r.0.ring.tail_idx r.0.owner + front_of w.head_idx th
        ≤ back_of w.tail_idx o + front_of r.0.ring.head_idx r.0.thief + p

  -- A step that changes nothing, whether nothing ends or a steal without the lock.
  pub still :
      {k : ℕ} (w : Wsq T S) (o : Owner T) (th : Thief T)
      → Ok k w o th
      → Moved k 0 w o th (record { ring = w; owner = o; thief = th }, none)
  unfolding Explains
  still w o th ok = record { ok = ok; explained = refl; end = omega arith; count = omega arith }

  pub refused :
      {k : ℕ} (w : Wsq T S) (o : Owner T) (th : Thief T) (ca : T)
      → Ok k w o th
      → Moved k 0 w o th
          (record { ring = w; owner = o; thief = th }, some (Op.steal false ca, some (false, ca)))
  unfolding Explains Deque.take_front
  refused w o th ca ok = record {
    ok = ok;
    explained = (refl, refl);
    end = omega arith;
    count = omega arith;
  }

  pub one_more :
      {k : ℕ} {w : Wsq T S} {o : Owner T} {th : Thief T} {r : Shared T S × Ended T}
      → Moved k 0 w o th r
      → Moved k 1 w o th r
  one_more m = record {
    ok = m.ok;
    explained = m.explained;
    end = omega (arith, m.end);
    count = omega (arith, m.count);
  }
