-- ===== src/Base/Masks.antt =====
-- Masks of ones at any place: the field that they cut out.
use Prim.Native.Nat.{ℕ, zero, suc, ◌+◌, ◌-◌, ◌*◌, ◌/◌, ◌%◌, ◌^◌, ◌<◌, bit_and}
use mathlib.Core.Path.{◌≡◌, ◌∙◌, ap, ap₂}
use native.Mathlib.Nat.{pow-suc, one-le-pow, div-div-eq-div-mul, div-one, mul-one}
use native.Mathlib.Omega.{arith}
use cki_artifact.Base.Bits.{
  bit_and_digit, bit_and-zero, lt-two_pow, lt-two_pow_halve, mul-two_pow_suc, lt_one,
}

mask_fields : (w q r : ℕ) → r < 2 ^ w → bit_and (q * 2 ^ w + r) (2 ^ w - 1) ≡ r
mask_fields zero q r h =
    rw (lt_one r h) (bit_and-zero (q * 1 + 0) (q * 1 + 0) (lt-two_pow (q * 1 + 0)))
mask_fields (suc w) q r h =
    let half_mask : (2 ^ suc w - 1) / 2 ≡ 2 ^ w - 1 = omega (arith, pow-suc 2 w, one-le-pow w 2) in
    let half : (q * 2 ^ suc w + r) / 2 ≡ q * 2 ^ w + r / 2 = omega (arith, mul-two_pow_suc q w) in
    let low : (2 ^ suc w - 1) % 2 ≡ 1 = omega (arith, pow-suc 2 w, one-le-pow w 2) in
    omega (
      arith,
      bit_and_digit (q * 2 ^ suc w + r) (2 ^ suc w - 1),
      ap₂ bit_and half half_mask,
      mask_fields w q (r / 2) (lt-two_pow_halve w r h),
      mul-two_pow_suc q w,
      low,
    )

pub bit_and_mask : (w a : ℕ) → bit_and a (2 ^ w - 1) ≡ a % 2 ^ w
bit_and_mask w a = ground (arith, one-le-pow w 2, mask_fields w (a / 2 ^ w) (a % 2 ^ w))

-- A mask above `w` zeros: the digits of the number above them, masked.
pub bit_and_shifted : (w a m : ℕ) → bit_and a (m * 2 ^ w) ≡ bit_and (a / 2 ^ w) m * 2 ^ w
bit_and_shifted zero a m =
    omega (arith, ap (bit_and a) (mul-one m), ap (λ t. bit_and t m) (div-one a))
bit_and_shifted (suc w) a m =
    let half : m * 2 ^ suc w / 2 ≡ m * 2 ^ w = omega (arith, mul-two_pow_suc m w) in
    let quot : a / 2 / 2 ^ w ≡ a / 2 ^ suc w =
      div-div-eq-div-mul a 2 (2 ^ w) ∙ ap (λ t. a / t) (omega (arith, pow-suc 2 w)) in
    omega (
      arith,
      bit_and_digit a (m * 2 ^ suc w),
      ap (bit_and (a / 2)) half,
      bit_and_shifted w (a / 2) m,
      ap (λ t. bit_and t m * 2 ^ w) quot,
      mul-two_pow_suc m w,
      mul-two_pow_suc (bit_and (a / 2 ^ suc w) m) w,
    )
