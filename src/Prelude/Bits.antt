-- ===== src/Prelude/Bits.antt =====
-- `x & mask` for a mask of `k` ones keeps the low `k` bits; and residues of close numbers differ.
use Prim.Native.Nat.{
  ℕ, zero, suc, ◌+◌, ◌-◌, ◌*◌, ◌/◌, ◌%◌, ◌^◌, ◌≤◌, ◌<◌, min, bit_and, digits, bit_and-bitwise,
}
use mathlib.Core.Path.{◌≡◌, refl, ap, ◌∙◌}
use mathlib.Core.Logic.{◌≢◌}
use native.Mathlib.Omega.{arith}
use native.Mathlib.Decide.{dec_lt}
use native.Mathlib.Nat.{pow-suc, div-add-mod, mod-lt, one-le-pow}

-- The digit recursion behind `bit_and`, on fuel.
abbrev conj_digits : ℕ → ℕ → ℕ → ℕ
conj_digits fuel x y = digits (λ _. zero) min fuel x y

conj_digits_enough : (f g x y : ℕ) → x ≤ f → x ≤ g → conj_digits f x y ≡ conj_digits g x y
conj_digits_enough zero zero x y hf hg = refl
conj_digits_enough zero (suc g) zero y hf hg = refl
conj_digits_enough (suc f) zero zero y hf hg = refl
conj_digits_enough (suc f) (suc g) zero y hf hg = refl
conj_digits_enough zero (suc g) (suc x) y hf hg = absurd (omega arith)
conj_digits_enough (suc f) zero (suc x) y hf hg = absurd (omega arith)
conj_digits_enough (suc f) (suc g) (suc x) y hf hg =
    omega (arith, conj_digits_enough f g (suc x / 2) (y / 2) (omega arith) (omega arith))

bit_and-zero_left : (y : ℕ) → bit_and 0 y ≡ 0
bit_and-zero_left y = bit_and-bitwise 0 y

bit_and-low_digit : (x y : ℕ) → bit_and x y ≡ min (x % 2) (y % 2) + 2 * bit_and (x / 2) (y / 2)
bit_and-low_digit zero y = omega (arith, bit_and-zero_left y, bit_and-zero_left (y / 2))
bit_and-low_digit (suc x) y =
    let half : ℕ = suc x / 2 in
    omega (
      arith,
      bit_and-bitwise half (y / 2),
      conj_digits_enough x half half (y / 2) (omega arith) (omega arith),
      bit_and-bitwise (suc x) y,
    )

bit_and-zero_right_below : (bound x : ℕ) → x ≤ bound → bit_and x 0 ≡ 0
bit_and-zero_right_below bound zero h = refl
bit_and-zero_right_below zero (suc x) h = absurd (omega arith)
bit_and-zero_right_below (suc bound) (suc x) h =
    omega
      (arith, bit_and-zero_right_below bound (suc x / 2) (omega arith), bit_and-low_digit (suc x) 0)

-- Of a number split at bit `k` the mask of `k` ones keeps the low part.
bit_and-split : (k high low : ℕ) → low < 2 ^ k → bit_and (2 ^ k * high + low) (2 ^ k - 1) ≡ low
bit_and-split zero high low h =
    bit_and-zero_right_below (2 ^ 0 * high + low) (2 ^ 0 * high + low) (omega arith) ∙ omega arith
bit_and-split (suc k) high low h = ground (
  arith,
  pow-suc 2 k,
  bit_and-split k high (low / 2) (omega (arith, pow-suc 2 k)),
  bit_and-low_digit (2 ^ suc k * high + low) (2 ^ suc k - 1),
  ap (λ (t : ℕ). t * high) (pow-suc 2 k),
)

pub bit_and-mask : (k x : ℕ) → bit_and x (2 ^ k - 1) ≡ x % 2 ^ k
bit_and-mask k x = ground (
  arith,
  div-add-mod x (2 ^ k),
  bit_and-split k (x / 2 ^ k) (x % 2 ^ k) (mod-lt x (one-le-pow k 2 (omega arith))),
)

-- Two numbers less than `c` apart fall on different slots of a ring of `c`.
pub mod-ne : (c x y : ℕ) → x < y → y < x + c → x % c ≢ y % c
mod-ne c x y below near same = elim (dec_lt (x / c) (y / c)) [
  | yes up ↦ grind (arith, div-add-mod x c, div-add-mod y c)
  | no flat ↦ grind (arith, div-add-mod x c, div-add-mod y c)
]
