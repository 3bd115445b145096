-- ===== src/Wsq/Race.antt =====
-- `wsq::try_steal` in two parts, with a `put` of the owner between them. The owner's test for room reads
-- the head index without the lock, and the thief raises that index before it has emptied the slot.
use boost_task.Prelude.{
  ℕ, suc, ◌+◌, ◌-◌, ◌^◌, ◌%◌, ◌<◌, ◌≡◌, refl, ap, sym, ◌∙◌, Bool, true, false, List, [], ◌∷◌, ◌++◌,
  get_or, set, get_or-set_self, length, length-set, ltb, if◌then◌else◌, arith,
}
use boost_task.Prelude.Bits.{bit_and-mask}
use native.Mathlib.Nat.{mod-eq-sub-mod}
use boost_task.Wsq.{u32, Wsq, slot, has_room, store, insert, try_steal}
use boost_task.Wsq.Window.{window, window-push_at, window-above_at, slot-lt}
use boost_task.Wsq.Inv.{IsValid, contents, capacity_bounds}

abbrev tail_of : {T : Type 0} → List T → List T
tail_of [] = []
tail_of (y ∷ ys) = ys

module _ {T S : Type 0} where
  -- Up to `head_idx_.exchange( head + 1)`, with the lock taken.
  unfoldable pub steal_begin : Wsq T S → Wsq T S
  steal_begin w = record w { head_idx = u32 (w.head_idx + 1) }

module _ {T S : Type 0} (vacant : T) where
  -- From there on; `head` is the local variable.
  unfoldable pub steal_end : Wsq T S → ℕ → T → Bool × T × Wsq T S
  steal_end w head ca =
      if ltb head w.tail_idx
      then (
        true,
        get_or w.array (slot w head) vacant,
        record w { array = set w.array (slot w head) ca },
      )
      else (false, ca, record w { head_idx = head })

  -- With nothing between them the two parts are `try_steal`.
  pub steal_parts :
      (w : Wsq T S) (ca : T) → try_steal vacant true w ca ≡ steal_end (steal_begin w) w.head_idx ca
  unfolding try_steal steal_begin steal_end
  steal_parts w ca = refl

  slot-same :
      {k : ℕ} {w : Wsq T S}
      → IsValid k w
      → w.tail_idx ≡ w.head_idx + 2 ^ k
      → slot w w.tail_idx ≡ slot w w.head_idx
  slot-same {k} {w} v full = rw v.mask_pow (
      bit_and-mask k w.tail_idx
      ∙ ap (λ (t : ℕ). t % 2 ^ k) full
      ∙ mod-eq-sub-mod {n = w.head_idx + 2 ^ k} {m = 2 ^ k} (omega arith)
      ∙ ap (λ (t : ℕ). t % 2 ^ k) (omega arith)
      ∙ sym (bit_and-mask k w.head_idx))

  slot_in : {k : ℕ} {w : Wsq T S} → IsValid k w → slot w w.head_idx < length w.array
  slot_in {k} {w} v = rw v.mask_pow (omega (arith, slot-lt vacant k w.head_idx))

  -- The owner's call, and the thief's second part after it.
  abbrev put_over : Wsq T S → T → Wsq T S
  put_over w ca = record w {
    head_idx = w.head_idx + 1;
    tail_idx = w.tail_idx + 1;
    array = set w.array (slot w w.head_idx) ca;
  }

  insert-during :
      {k : ℕ} {w : Wsq T S} (ca : T)
      → IsValid k w
      → w.tail_idx ≡ w.head_idx + 2 ^ k
      → w.tail_idx + 1 < 2 ^ 31
      → insert vacant (steal_begin w) ca ≡ put_over w ca
  unfolding insert steal_begin has_room store
  insert-during {k} {w} ca v full fits =
      ground (arith, capacity_bounds k v.large v.small, slot-same v full)

  steal_end-during :
      {k : ℕ} {w : Wsq T S} (ca theirs : T)
      → IsValid k w
      → w.tail_idx ≡ w.head_idx + 2 ^ k
      → w.tail_idx + 1 < 2 ^ 31
      → steal_end (put_over w ca) w.head_idx theirs ≡ (
        true,
        get_or (set w.array (slot w w.head_idx) ca) (slot w w.head_idx) vacant,
        record (put_over w ca) {
          array = set (set w.array (slot w w.head_idx) ca) (slot w w.head_idx) theirs;
        },
      )
  unfolding steal_end
  steal_end-during {k} {w} ca theirs v full fits = ground arith

  rest-of :
      {k : ℕ} {w : Wsq T S}
      → IsValid k w
      → w.tail_idx ≡ w.head_idx + 2 ^ k
      → window vacant w.mask w.array (suc w.head_idx) (2 ^ k - 1) ≡ tail_of (contents vacant w)
  rest-of {k} {w} v full =
      let e : w.tail_idx - w.head_idx ≡ suc (2 ^ k - 1) =
        omega (arith, capacity_bounds k v.large v.small) in
      rw e refl

  after :
      {k : ℕ} {w : Wsq T S} (ca theirs : T)
      → IsValid k w
      → w.tail_idx ≡ w.head_idx + 2 ^ k
      → window vacant w.mask
          (set (set w.array (slot w w.head_idx) ca) (slot w w.head_idx) theirs)
          (w.head_idx + 1)
          (w.tail_idx + 1 - (w.head_idx + 1))
        ≡ window vacant w.mask w.array (suc w.head_idx) (2 ^ k - 1) ++ (theirs ∷ [])
  after {k} {w} ca theirs v full =
      let array : List T = set w.array (slot w w.tail_idx) ca in
      let n : ℕ = 2 ^ k - 1 in
      let (low, high) = capacity_bounds k v.large v.small in
      let e : w.head_idx + 1 ≡ suc w.head_idx = omega arith in
      rw (← slot-same v full, e)
        (window-push_at vacant k v.mask_pow array theirs (suc w.head_idx) n (omega arith)
            (omega arith) (omega (arith, length-set w.array (slot w w.tail_idx) ca)) (omega arith)
          ∙ ap (λ (ys : List T). ys ++ (theirs ∷ []))
              (window-above_at vacant k v.mask_pow w.array ca (suc w.head_idx) w.tail_idx n
                (omega arith) (omega arith)))

  -- A `put` between the two parts on a full ring passes its test for room, overwrites the front
  -- element `x`, and the thief gets the new element instead: `x` is in no variable and no slot, and
  -- the queue ends with what the thief had in its variable.
  pub put_during_steal :
      {k : ℕ} {w : Wsq T S} (ca theirs x : T) (xs : List T)
      → IsValid k w
      → w.tail_idx ≡ w.head_idx + 2 ^ k
      → w.tail_idx + 1 < 2 ^ 31
      → contents vacant w ≡ x ∷ xs
      → let (taken, out, w') = steal_end (insert vacant (steal_begin w) ca) w.head_idx theirs in
        (taken ≡ true) × (out ≡ ca) × (contents vacant w' ≡ xs ++ (theirs ∷ []))
  put_during_steal {k} {w} ca theirs x xs v full fits held =
      let e = insert-during ca v full fits in
      rw (e, steal_end-during ca theirs v full fits)
        (
          refl,
          get_or-set_self w.array (slot w w.head_idx) ca vacant (slot_in v),
          after ca theirs v full
              ∙ ap (λ (ys : List T). ys ++ (theirs ∷ [])) (rest-of v full ∙ ap tail_of held),
        )
