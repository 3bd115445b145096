-- ===== src/Wsq/Window.antt =====
-- The elements of a ring between two indices, and what a write to a slot does to them.
use boost_task.Prelude.{
  ℕ, zero, suc, ◌+◌, ◌-◌, ◌^◌, ◌<◌, ◌≤◌, ◌≡◌, ◌≢◌, refl, ap, ap₂, sym, ◌∙◌, List, [], ◌∷◌, ◌++◌,
  get_or, set, get_or-set_self, get_or-set_ne, length, bit_and, arith,
}
use boost_task.Prelude.Bits.{bit_and-mask, mod-ne}
use native.Mathlib.Nat.{mod-lt, one-le-pow}

module _ {T : Type 0} (vacant : T) (mask : ℕ) where
  -- The `n` elements from index `h` on.
  abbrev pub window : List T → ℕ → ℕ → List T
  window array h zero = []
  window array h (suc n) = get_or array (bit_and h mask) vacant ∷ window array (suc h) n

  pub length-window : (array : List T) (h n : ℕ) → length (window array h n) ≡ n
  length-window array h zero = refl
  length-window array h (suc n) = ap suc (length-window array (suc h) n)

  pub window-last :
      (array : List T) (h n : ℕ)
      → window array h (suc n)
        ≡ window array h n ++ (get_or array (bit_and (h + n) mask) vacant ∷ [])
  window-last array h zero = ap (λ (i : ℕ). get_or array (bit_and i mask) vacant ∷ []) (omega arith)
  window-last array h (suc n) =
      let e : suc h + n ≡ h + suc n = omega arith in
      ap (λ (xs : List T). get_or array (bit_and h mask) vacant ∷ xs)
        (window-last array (suc h) n
          ∙ ap (λ (i : ℕ). window array (suc h) n ++ (get_or array (bit_and i mask) vacant ∷ [])) e)

-- A write to a slot that no index of the window has leaves the window alone.
module _ {T : Type 0} (vacant : T) (k : ℕ) where
  abbrev mask : ℕ
  mask = 2 ^ k - 1

  pub slot-ne : (i j : ℕ) → i < j → j < i + 2 ^ k → bit_and i mask ≢ bit_and j mask
  slot-ne i j below near e =
      mod-ne (2 ^ k) i j below near (omega (arith, bit_and-mask k i, bit_and-mask k j))

  pub slot-lt : (i : ℕ) → bit_and i mask < 2 ^ k
  slot-lt i = omega (arith, bit_and-mask k i, mod-lt i (one-le-pow k 2 (omega arith)))

  pub window-set_above :
      (array : List T) (x : T) (i h n : ℕ)
      → h + n ≤ i
      → i < h + 2 ^ k
      → window vacant mask (set array (bit_and i mask) x) h n ≡ window vacant mask array h n
  window-set_above array x i h zero above near = refl
  window-set_above array x i h (suc n) above near =
      ap₂ ◌∷◌
        (get_or-set_ne array (bit_and i mask) (bit_and h mask) x vacant
          (λ e. slot-ne h i (omega arith) near (sym e)))
        (window-set_above array x i (suc h) n (omega arith) (omega arith))

  pub window-set_below :
      (array : List T) (x : T) (i h n : ℕ)
      → i < h
      → h + n ≤ i + 2 ^ k
      → window vacant mask (set array (bit_and i mask) x) h n ≡ window vacant mask array h n
  window-set_below array x i h zero below near = refl
  window-set_below array x i h (suc n) below near =
      ap₂ ◌∷◌
        (get_or-set_ne array (bit_and i mask) (bit_and h mask) x vacant
          (slot-ne i h below (omega arith)))
        (window-set_below array x i (suc h) n (omega arith) (omega arith))

  -- A write to the slot after the window, and the window that takes it in.
  pub window-push :
      (array : List T) (x : T) (h n : ℕ)
      → 2 ^ k ≤ length array
      → n < 2 ^ k
      → window vacant mask (set array (bit_and (h + n) mask) x) h (suc n)
        ≡ window vacant mask array h n ++ (x ∷ [])
  window-push array x h n long fits =
      window-last vacant mask (set array (bit_and (h + n) mask) x) h n
      ∙ ap₂ (λ (a b : List T). a ++ b)
          (window-set_above array x (h + n) h n (omega arith) (omega arith))
          (ap (λ (y : T). y ∷ [])
            (get_or-set_self array (bit_and (h + n) mask) x vacant
              (omega (arith, slot-lt (h + n)))))

  -- The same with the mask, the written index and the length given by equations.
  module _ {m : ℕ} (masked : m ≡ 2 ^ k - 1) where
    pub window-push_at :
        (array : List T) (x : T) (h n : ℕ) {t s : ℕ}
        → t ≡ h + n
        → s ≡ suc n
        → 2 ^ k ≤ length array
        → n < 2 ^ k
        → window vacant m (set array (bit_and t m) x) h s ≡ window vacant m array h n ++ (x ∷ [])
    window-push_at array x h n e f long fits = rw (masked, e, f) (window-push array x h n long fits)

    pub window-last_at :
        (array : List T) (h n : ℕ) {t s : ℕ}
        → t ≡ h + n
        → s ≡ suc n
        → window vacant m array h s
          ≡ window vacant m array h n ++ (get_or array (bit_and t m) vacant ∷ [])
    window-last_at array h n e f = rw (masked, e, f) (window-last vacant mask array h n)

    pub window-above_at :
        (array : List T) (x : T) (h t n : ℕ)
        → h + n ≤ t
        → t < h + 2 ^ k
        → window vacant m (set array (bit_and t m) x) h n ≡ window vacant m array h n
    window-above_at array x h t n above near = rw masked (window-set_above array x t h n above near)

    pub window-below_at :
        (array : List T) (x : T) (h t n : ℕ)
        → t < h
        → h + n ≤ t + 2 ^ k
        → window vacant m (set array (bit_and t m) x) h n ≡ window vacant m array h n
    window-below_at array x h t n below near = rw masked (window-set_below array x t h n below near)
