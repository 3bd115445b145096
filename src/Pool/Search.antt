-- ===== src/Pool/Search.antt =====
-- What the search of a worker through the other rings finds, and where it does not look.
use boost_task.Prelude.{
  ℕ, zero, suc, ◌<◌, ◌≤◌, ◌≡◌, ◌≢◌, ◌⊎◌, inl, inr, refl, ap, ap₂, sym, ◌∙◌, Bool, true, false, List,
  [], ◌∷◌, ltb, ◌==◌, if◌then◌else◌, if-cases, arith,
}
use mathlib.Core.Path.{subst, fun_ext}
use boost_task.Wsq
use boost_task.Wsq.{Wsq}
use boost_task.Wsq.Inv.{IsValid, contents}
use boost_task.Wsq.Refine.{steal_refines}
use boost_task.Wsq.Deque.{take_front}
use boost_task.Pool.{Ring}
use boost_task.Pool.Steal.{put_ring, next_index, steal_loop, try_steal_other_work}

module _ {V : Type 0} where
  put_ring-other :
      (rings : ℕ → Ring V) (i j : ℕ) (r : Ring V) → i ≢ j → put_ring rings i r j ≡ rings j
  unfolding put_ring
  put_ring-other rings i j r ne =
      let differ : (i == j) ≡ false = ground (arith, ne) in
      ap (λ (b : Bool). if b then r else rings j) differ

  put_ring-here : (rings : ℕ → Ring V) (i : ℕ) (r : Ring V) → put_ring rings i r i ≡ r
  unfolding put_ring
  put_ring-here rings i r =
      let same : (i == i) ≡ true = ground arith in ap (λ (b : Bool). if b then r else rings i) same

  pub put_ring-same :
      (rings : ℕ → Ring V) (i : ℕ) (r : Ring V) → r ≡ rings i → put_ring rings i r ≡ rings
  unfolding put_ring
  put_ring-same rings i r e = fun_ext λ j.
      if-cases (λ x. x ≡ rings j) (i == j)
        (λ c. e ∙ ap rings (let same : i ≡ j = ground (arith, c) in same)) (λ c. refl)

if-second :
    {A B : Type 0} (b : Bool) (x : A) (z : B) (y : Bool × A × B)
    → (if b then (true, x, z) else y).0 ≡ false
    → (if b then (true, x, z) else y) ≡ y
if-second true x z y e = absurd (cc e)
if-second false x z y e = refl

next_index-lt : (size idx : ℕ) → idx < size → next_index size idx < size
unfolding next_index
next_index-lt size idx h = ground arith

module _ {V : Type 0} (vacant : V) where
  try_steal-false :
      (lock : Bool) (r : Ring V) (w : V)
      → (Wsq.try_steal vacant lock r w).0 ≡ false
      → Wsq.try_steal vacant lock r w ≡ (false, w, r)
  unfolding Wsq.try_steal
  try_steal-false false r w e = refl
  try_steal-false true r w e = if-second (ltb r.head_idx r.tail_idx) _ _ _ e

  take_front-true :
      (lock : Bool) (xs ys : List V) (out w : V)
      → (true, out, ys) ≡ take_front lock xs w
      → xs ≡ out ∷ ys
  unfolding take_front
  take_front-true false xs ys out w e = absurd (cc (ap (λ (r : Bool × V × List V). r.0) e))
  take_front-true true [] ys out w e = absurd (cc (ap (λ (r : Bool × V × List V). r.0) e))
  take_front-true true (x ∷ xs) ys out w e =
      ap₂ (λ (y : V) (zs : List V). y ∷ zs) (sym (ap (λ (r : Bool × V × List V). r.1) e))
        (sym (ap (λ (r : Bool × V × List V). r.2) e))

  module _ (size self : ℕ) where
    -- What a search with the variable `w` may come to: nothing, with all as it was; or the front of the
    -- ring of another worker.
    abbrev pub Outcome : (ℕ → Ring V) → V → Bool × V × (ℕ → Ring V) → Type 0
    Outcome rings w r =
        ((r.0 ≡ false) × (r.1 ≡ w) × ((j : ℕ) → r.2 j ≡ rings j))
        ⊎ ((r.0 ≡ true)
            × (k : ℕ) × (k < size)
            × (k ≢ self)
            × (contents vacant (rings k) ≡ r.1 ∷ contents vacant (r.2 k))
            × ((j : ℕ) → j ≢ k → r.2 j ≡ rings j))

    taken_here :
        (rounds idx : ℕ) (locks : ℕ → Bool) (rings : ℕ → Ring V) (w : V)
        → ((k : ℕ) × IsValid k (rings idx))
        → idx < size
        → (idx == self) ≡ false
        → let (taken, out, ring) = Wsq.try_steal vacant (locks rounds) (rings idx) w in
          taken ≡ true
          → (k : ℕ) × (k < size)
            × (k ≢ self)
            × (contents vacant (rings k) ≡ out ∷ contents vacant (put_ring rings idx ring k))
            × ((j : ℕ) → j ≢ k → put_ring rings idx ring j ≡ rings j)
    taken_here rounds idx locks rings w (k, v) lt c t =
        let (taken, out, ring) = Wsq.try_steal vacant (locks rounds) (rings idx) w in
        let (same, v', bound) = steal_refines vacant (locks rounds) w v in
        let front =
          take_front-true (locks rounds) (contents vacant (rings idx)) (contents vacant ring) out w
            (ap (λ (b : Bool). (b, out, contents vacant ring)) (sym t) ∙ same) in
        (
          idx,
          lt,
          ground (arith, c),
          front ∙ ap (λ (r : Ring V). out ∷ contents vacant r) (sym (put_ring-here rings idx ring)),
          λ j ne. put_ring-other rings idx j ring (λ e. ne (sym e)),
        )

    loop-Outcome :
        (rounds idx : ℕ) (locks : ℕ → Bool) (rings : ℕ → Ring V) (w : V)
        → ((j : ℕ) → (k : ℕ) × IsValid k (rings j))
        → idx < size
        → Outcome rings w (steal_loop vacant size self rounds idx locks rings w)
    unfolding steal_loop
    loop-Outcome zero idx locks rings w valid lt = inl (refl, refl, λ j. refl)
    loop-Outcome (suc rounds) idx locks rings w valid lt =
        let (taken, out, ring) = Wsq.try_steal vacant (locks rounds) (rings idx) w in
        if-cases (Outcome rings w) (idx == self)
          (λ c. loop-Outcome rounds idx locks rings w valid lt)
          (λ c.
            if-cases (Outcome rings w) taken
              (λ t.
                let (k, bound, other, front, rest) =
                  taken_here rounds idx locks rings w (valid idx) lt c t in
                inr (refl, k, bound, other, front, rest))
              (λ f.
                let e = try_steal-false (locks rounds) (rings idx) w f in
                let same = put_ring-same rings idx ring (ap (λ (r : Bool × V × Ring V). r.2) e) in
                let next = next_index size idx in
                subst
                  (λ (rs : ℕ → Ring V).
                    Outcome rings w (steal_loop vacant size self rounds next locks rs out))
                  (sym same)
                  (subst
                    (λ (x : V).
                      Outcome rings w (steal_loop vacant size self rounds next locks rings x))
                    (sym (ap (λ (r : Bool × V × Ring V). r.1) e))
                    (loop-Outcome rounds next locks rings w valid (next_index-lt size idx lt)))))

    -- The search of a worker of a group that it is in, over rings that are all valid, with a random index
    -- below the size: either it answers false and nothing has changed; or it answers true, and the work
    -- was the front of the ring of another worker, with no other ring changed.
    pub steals_from_another :
        (rnd : ℕ) (locks : ℕ → Bool) (rings : ℕ → Ring V) (w : V)
        → ((j : ℕ) → (k : ℕ) × IsValid k (rings j))
        → rnd < size
        → Outcome rings w (try_steal_other_work vacant size self rnd locks rings w)
    unfolding try_steal_other_work
    steals_from_another rnd locks rings w valid lt = loop-Outcome size rnd locks rings w valid lt

    -- Once the index is the worker's own, the search stays there.
    loop_self :
        (rounds idx : ℕ) (locks : ℕ → Bool) (rings : ℕ → Ring V) (w : V)
        → idx ≡ self
        → steal_loop vacant size self rounds idx locks rings w ≡ (false, w, rings)
    unfolding steal_loop
    loop_self zero idx locks rings w e = refl
    loop_self (suc rounds) idx locks rings w e =
        if-cases (λ r. r ≡ (false, w, rings)) (idx == self)
          (λ c. loop_self rounds idx locks rings w e) (λ c. absurd (ground (arith, e)))

    loop_past :
        (rounds idx k : ℕ) (locks : ℕ → Bool) (rings : ℕ → Ring V) (w : V)
        → self < size
        → idx ≤ self
        → self < k
        → (steal_loop vacant size self rounds idx locks rings w).2 k ≡ rings k
    unfolding steal_loop next_index
    loop_past zero idx k locks rings w member le past = refl
    loop_past (suc rounds) idx k locks rings w member le past =
        let (taken, out, ring) = Wsq.try_steal vacant (locks rounds) (rings idx) w in
        let rings' = put_ring rings idx ring in
        let apart = put_ring-other rings idx k ring (ground arith) in
        let Kept : Bool × V × (ℕ → Ring V) → Type 0 = λ r. r.2 k ≡ rings k in
        if-cases Kept (idx == self) (λ c. loop_past rounds idx k locks rings w member le past)
          (λ c.
            if-cases Kept taken (λ t. apart)
              (λ f.
                loop_past rounds (next_index size idx) k locks rings' out member (ground arith) past
                ∙ apart))

    -- A worker whose random index is not above its own number steals from no ring above its own; and if
    -- the index is its own number, it steals from nobody, whatever the other rings hold.
    pub never_past_itself :
        (rnd : ℕ) (locks : ℕ → Bool) (rings : ℕ → Ring V) (w : V)
        → self < size
        → rnd ≤ self
        → let r : Bool × V × (ℕ → Ring V) =
            try_steal_other_work vacant size self rnd locks rings w in
          ((k : ℕ) → self < k → r.2 k ≡ rings k)
          × (try_steal_other_work vacant size self self locks rings w ≡ (false, w, rings))
    unfolding try_steal_other_work
    never_past_itself rnd locks rings w member le = (
      λ k past. loop_past size rnd k locks rings w member le past,
      loop_self size self locks rings w refl,
    )
