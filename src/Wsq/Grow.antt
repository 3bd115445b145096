-- ===== src/Wsq/Grow.antt =====
-- The copy into a ring of twice the size.
use boost_task.Prelude.{
  ℕ, zero, suc, ◌+◌, ◌-◌, ◌*◌, ◌^◌, ◌<◌, ◌≤◌, ◌≡◌, refl, ap, ap₂, ◌∙◌, List, ◌∷◌, get_or, length,
  length-set, length-replicate, replicate, get_or-set_self, get_or-set_ne, arith, dec_lt,
}
use boost_task.Prelude.Bits.{bit_and-mask}
use boost_task.Wsq.{u32, Wsq, slot, copy_loop, grow}
use boost_task.Wsq.Window.{window}
use boost_task.Wsq.Inv.{IsValid, contents, capacity_bounds}
use native.Mathlib.Nat.{pow-suc, mod-eq_of_lt}

module _ {T S : Type 0} (vacant : T) (w : Wsq T S) where
  length-copy_loop :
      (rounds i : ℕ) (array : List T) → length (copy_loop vacant rounds i w array) ≡ length array
  unfolding copy_loop
  length-copy_loop zero i array = refl
  length-copy_loop (suc rounds) i array = length-copy_loop rounds (suc i) _ ∙ length-set array i _

  -- What the loop has not reached stays.
  copy_loop-below :
      (rounds i : ℕ) (array : List T) (j : ℕ)
      → j < i
      → get_or (copy_loop vacant rounds i w array) j vacant ≡ get_or array j vacant
  unfolding copy_loop
  copy_loop-below zero i array j h = refl
  copy_loop-below (suc rounds) i array j h =
      copy_loop-below rounds (suc i) _ j (omega arith)
      ∙ get_or-set_ne array i j _ vacant (omega arith)

  copy_loop-at :
      (rounds i : ℕ) (array : List T) (j : ℕ)
      → i ≤ j
      → j < i + rounds
      → i + rounds ≤ length array
      → get_or (copy_loop vacant rounds i w array) j vacant
        ≡ get_or w.array (slot w (u32 (j + w.head_idx))) vacant
  unfolding copy_loop
  copy_loop-at zero i array j from to long = absurd (omega arith)
  copy_loop-at (suc rounds) i array j from to long = elim (dec_lt i j) [
    | yes later ↦
        copy_loop-at rounds (suc i) _ j later (omega arith) (omega (arith, length-set array i _))
    | no now ↦
        let e : j ≡ i = omega arith in
        rw e (
          copy_loop-below rounds (suc i) _ i (omega arith)
          ∙ get_or-set_self array i _ vacant (omega arith))
  ]

  -- A window of the new ring against one of the old ring, by their elements.
  window-copy :
      (k : ℕ) (array : List T) (h i n : ℕ)
      → ((j : ℕ)
          → i ≤ j
          → j < i + n
          → get_or array j vacant ≡ get_or w.array (slot w (h + j)) vacant)
      → i + n ≤ 2 ^ k
      → window vacant (2 ^ k - 1) array i n ≡ window vacant w.mask w.array (h + i) n
  window-copy k array h i zero same fits = refl
  window-copy k array h i (suc n) same fits =
      ap₂ ◌∷◌
        (ap (λ (j : ℕ). get_or array j vacant) (bit_and-mask k i ∙ mod-eq_of_lt (omega arith))
          ∙ same i (omega arith) (omega arith))
        (window-copy k array h (suc i) n (λ j from to. same j (omega arith) (omega arith))
            (omega arith)
          ∙ ap (λ (t : ℕ). window vacant w.mask w.array t n) (omega arith))

  -- Growing a full ring: the same elements in a ring of twice the size, from slot 0 on.
  pub grow-IsValid :
      {k : ℕ}
      → IsValid k w
      → w.tail_idx ≡ w.head_idx + 2 ^ k
      → k < 30
      → IsValid (suc k) (grow vacant w (2 ^ k))
  unfolding grow
  grow-IsValid {k} v full few = ground (
    arith,
    pow-suc 2 k,
    capacity_bounds k v.large v.small,
    length-copy_loop (2 ^ k) 0 (replicate (u32 (2 * w.capacity)) vacant),
    length-replicate (u32 (2 * w.capacity)) vacant,
  )

  pub contents-grow :
      {k : ℕ}
      → IsValid k w
      → w.tail_idx ≡ w.head_idx + 2 ^ k
      → k < 30
      → contents vacant (grow vacant w (2 ^ k)) ≡ contents vacant w
  unfolding grow
  contents-grow {k} v full few =
      ap (λ (m : ℕ). window vacant m copied 0 (2 ^ k - 0)) mask_suc
      ∙ ap (window vacant (2 ^ suc k - 1) copied 0) (omega arith)
      ∙ window-copy (suc k) copied w.head_idx 0 (2 ^ k) same (omega (arith, pow-suc 2 k))
      ∙ ap₂ (window vacant w.mask w.array) (omega arith) (omega arith)
    where
      larger : ℕ
      larger = u32 (2 * w.capacity)

      copied : List T
      copied = copy_loop vacant (2 ^ k) 0 w (replicate larger vacant)

      mask_suc : u32 (2 * w.mask + 1) ≡ 2 ^ suc k - 1
      mask_suc = ground (arith, pow-suc 2 k, capacity_bounds k v.large v.small)

      same :
          (j : ℕ)
          → 0 ≤ j
          → j < 0 + 2 ^ k
          → get_or copied j vacant ≡ get_or w.array (slot w (w.head_idx + j)) vacant
      same j from to =
          copy_loop-at (2 ^ k) 0 (replicate larger vacant) j from to
            (ground (arith, capacity_bounds k v.large v.small, length-replicate larger vacant))
          ∙ ap (λ (t : ℕ). get_or w.array (slot w t) vacant) (omega arith)

  pub grow_indices :
      (count : ℕ)
      → ((grow vacant w count).head_idx ≡ 0)
        × ((grow vacant w count).tail_idx ≡ count)
        × ((grow vacant w count).fsem ≡ w.fsem)
  unfolding grow
  grow_indices count = (refl, refl, refl)
