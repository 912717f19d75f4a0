-- ===== src/Base/Bits.antt =====
-- Laws of `&` and `|` at variables, at every width, from the digits that the operations stand for.
use Prim.Native.Nat.{
  ℕ, zero, suc, ◌+◌, ◌-◌, ◌*◌, ◌/◌, ◌%◌, ◌^◌, ◌≤◌, ◌<◌, min, max, digits, bit_and, bit_or,
  bit_and-bitwise, bit_or-bitwise,
}
use mathlib.Core.Path.{◌≡◌, refl, ap, ap₂}
use native.Mathlib.Nat.{pow-suc, one-le-pow}
use native.Mathlib.Omega.{arith}

-- Any two counts of rounds that cover the first number agree.
digits_agree :
    (z : ℕ → ℕ) (op : ℕ → ℕ → ℕ) (j k a b : ℕ)
    → a ≤ j
    → a ≤ k
    → digits z op j a b ≡ digits z op k a b
digits_agree z op zero zero a b p q = refl
digits_agree z op (suc j) zero zero b p q = refl
digits_agree z op zero (suc k) zero b p q = refl
digits_agree z op (suc j) (suc k) zero b p q = refl
digits_agree z op zero (suc k) (suc a) b p q = absurd (omega arith)
digits_agree z op (suc j) zero (suc a) b p q = absurd (omega arith)
digits_agree z op (suc j) (suc k) (suc a) b p q =
    let half = digits_agree z op j k (suc a / 2) (b / 2) (omega arith) (omega arith) in
    ap (λ t. t * 2 + op (suc a % 2) (b % 2)) half

-- The lowest digit apart.
pub bit_and_digit : (a b : ℕ) → bit_and a b ≡ bit_and (a / 2) (b / 2) * 2 + min (a % 2) (b % 2)
bit_and_digit zero b = omega (arith, bit_and-bitwise 0 b, bit_and-bitwise 0 (b / 2))
bit_and_digit (suc a) b = omega (
  arith,
  bit_and-bitwise (suc a) b,
  bit_and-bitwise (suc a / 2) (b / 2),
  digits_agree (λ _. 0) min a (suc a / 2) (suc a / 2) (b / 2) (omega arith) (omega arith),
)

pub bit_or_digit : (a b : ℕ) → bit_or a b ≡ bit_or (a / 2) (b / 2) * 2 + max (a % 2) (b % 2)
bit_or_digit zero b = omega (arith, bit_or-bitwise 0 b, bit_or-bitwise 0 (b / 2))
bit_or_digit (suc a) b = omega (
  arith,
  bit_or-bitwise (suc a) b,
  bit_or-bitwise (suc a / 2) (b / 2),
  digits_agree (λ d. d) max a (suc a / 2) (suc a / 2) (b / 2) (omega arith) (omega arith),
)

-- The laws go by recursion on a number `w` of digits that holds the operands.
zero-bit_or : (b : ℕ) → bit_or 0 b ≡ b
zero-bit_or b = bit_or-bitwise 0 b

bit_or-zero_width : (w a : ℕ) → a < 2 ^ w → bit_or a 0 ≡ a
bit_or-zero_width w zero h = zero-bit_or 0
bit_or-zero_width zero (suc a) h = absurd (omega arith)
bit_or-zero_width (suc w) (suc a) h = omega (
  arith,
  bit_or_digit (suc a) 0,
  pow-suc 2 w,
  bit_or-zero_width w (suc a / 2) (omega (arith, pow-suc 2 w)),
)

pub lt-two_pow : (a : ℕ) → a < 2 ^ a
lt-two_pow zero = omega arith
lt-two_pow (suc a) = omega (arith, pow-suc 2 a, lt-two_pow a)

pub bit_or-zero : (a : ℕ) → bit_or a 0 ≡ a
bit_or-zero a = bit_or-zero_width a a (lt-two_pow a)

pub lt_one : (a : ℕ) → a < 1 → a ≡ 0
lt_one a h = omega arith

pub lt-two_pow_halve : (w a : ℕ) → a < 2 ^ suc w → a / 2 < 2 ^ w
lt-two_pow_halve w a h = omega (arith, pow-suc 2 w)

pub bit_and-zero : (w a : ℕ) → a < 2 ^ w → bit_and a 0 ≡ 0
bit_and-zero zero a h = rw (ap (λ t. bit_and t 0) (lt_one a h)) refl
bit_and-zero (suc w) a h =
    omega (arith, bit_and_digit a 0, bit_and-zero w (a / 2) (lt-two_pow_halve w a h))

pub bit_and_comm : (w a b : ℕ) → a < 2 ^ w → b < 2 ^ w → bit_and a b ≡ bit_and b a
bit_and_comm zero a b h k = cc (lt_one a h, lt_one b k)
bit_and_comm (suc w) a b h k = omega (
  arith,
  bit_and_digit a b,
  bit_and_digit b a,
  bit_and_comm w (a / 2) (b / 2) (lt-two_pow_halve w a h) (lt-two_pow_halve w b k),
)

pub bit_and-le_left : (w a b : ℕ) → a < 2 ^ w → bit_and a b ≤ a
bit_and-le_left zero a b h =
    rw (ap (λ t. bit_and t b) (lt_one a h)) (omega (arith, bit_and-bitwise 0 b))
bit_and-le_left (suc w) a b h =
    omega (arith, bit_and_digit a b, bit_and-le_left w (a / 2) (b / 2) (lt-two_pow_halve w a h))

-- A mask and its complement part a number.
pub bit_and-add_complement :
    (w m s : ℕ) → m < 2 ^ w → s < 2 ^ w → bit_and (2 ^ w - 1 - m) s + bit_and m s ≡ s
bit_and-add_complement zero m s h k = rw (lt_one m h, lt_one s k)
bit_and-add_complement (suc w) m s h k =
    let halves =
      bit_and-add_complement w (m / 2) (s / 2) (lt-two_pow_halve w m h) (lt-two_pow_halve w s k) in
    let half_mask : (2 ^ suc w - 1 - m) / 2 ≡ 2 ^ w - 1 - m / 2 = omega (arith, pow-suc 2 w) in
    let low : (2 ^ suc w - 1 - m) % 2 ≡ 1 - m % 2 = omega (arith, pow-suc 2 w) in
    omega (
      arith,
      bit_and_digit (2 ^ suc w - 1 - m) s,
      bit_and_digit m s,
      halves,
      low,
      ap (λ t. bit_and t (s / 2)) half_mask,
    )

pub mul-two_pow_suc : (q w : ℕ) → q * 2 ^ suc w ≡ q * 2 ^ w * 2
mul-two_pow_suc q w = omega (arith, ap (λ (t : ℕ). q * t) (pow-suc 2 w))

-- A field of `w` low bits under a number that is a multiple of 2 ^ w.
pub bit_or_fields : (w q r : ℕ) → r < 2 ^ w → bit_or (q * 2 ^ w) r ≡ q * 2 ^ w + r
bit_or_fields zero q r h = rw (lt_one r h) (omega (arith, bit_or-zero (q * 1)))
bit_or_fields (suc w) q r h =
    let half : q * 2 ^ suc w / 2 ≡ q * 2 ^ w = omega (arith, mul-two_pow_suc q w) in
    omega (
      arith,
      bit_or_digit (q * 2 ^ suc w) r,
      ap (λ t. bit_or t (r / 2)) half,
      bit_or_fields w q (r / 2) (lt-two_pow_halve w r h),
      mul-two_pow_suc q w,
    )

low_mask_fields : (w q r : ℕ) → r < 2 ^ w → bit_and (2 ^ w - 1) (q * 2 ^ w + r) ≡ r
low_mask_fields zero q r h = rw (lt_one r h) (bit_and-bitwise 0 (q * 1 + 0))
low_mask_fields (suc w) q r h =
    let half_mask : (2 ^ suc w - 1) / 2 ≡ 2 ^ w - 1 = omega (arith, pow-suc 2 w, one-le-pow w 2) in
    let half : (q * 2 ^ suc w + r) / 2 ≡ q * 2 ^ w + r / 2 = omega (arith, mul-two_pow_suc q w) in
    let low : (2 ^ suc w - 1) % 2 ≡ 1 = omega (arith, pow-suc 2 w, one-le-pow w 2) in
    omega (
      arith,
      bit_and_digit (2 ^ suc w - 1) (q * 2 ^ suc w + r),
      ap₂ bit_and half_mask half,
      low_mask_fields w q (r / 2) (lt-two_pow_halve w r h),
      mul-two_pow_suc q w,
      low,
    )

-- A mask of `w` low ones is the remainder by 2 ^ w.
pub bit_and_low_mask : (w s : ℕ) → bit_and (2 ^ w - 1) s ≡ s % 2 ^ w
bit_and_low_mask w s = ground (arith, one-le-pow w 2, low_mask_fields w (s / 2 ^ w) (s % 2 ^ w))

pub bit_or_comm : (w a b : ℕ) → a < 2 ^ w → b < 2 ^ w → bit_or a b ≡ bit_or b a
bit_or_comm zero a b h k = cc (lt_one a h, lt_one b k)
bit_or_comm (suc w) a b h k = omega (
  arith,
  bit_or_digit a b,
  bit_or_digit b a,
  bit_or_comm w (a / 2) (b / 2) (lt-two_pow_halve w a h) (lt-two_pow_halve w b k),
)

pub bit_or-lt : (w a b : ℕ) → a < 2 ^ w → b < 2 ^ w → bit_or a b < 2 ^ w
bit_or-lt zero a b h k = rw (lt_one a h, lt_one b k) (omega arith)
bit_or-lt (suc w) a b h k = omega (
  arith,
  bit_or_digit a b,
  pow-suc 2 w,
  bit_or-lt w (a / 2) (b / 2) (lt-two_pow_halve w a h) (lt-two_pow_halve w b k),
)

pub bit_and-le_right : (w a b : ℕ) → b < 2 ^ w → bit_and a b ≤ b
bit_and-le_right zero a b h = ground (arith, bit_and_digit a b, lt_one b h, zero_mask a)
  where
    zero_mask : (c : ℕ) → bit_and c 0 ≡ 0
    zero_mask c = bit_and-zero c c (lt-two_pow c)
bit_and-le_right (suc w) a b h =
    omega (arith, bit_and_digit a b, bit_and-le_right w (a / 2) (b / 2) (lt-two_pow_halve w b h))

-- A part of a mask stays one when more of the mask is added.
pub bit_and-bit_or_mask :
    (w a f m : ℕ)
    → a < 2 ^ w
    → m < 2 ^ w
    → bit_and a m ≡ a
    → bit_and (bit_or a (bit_and f m)) m ≡ bit_or a (bit_and f m)
bit_and-bit_or_mask zero a f m ha hm h =
    rw (lt_one a ha, lt_one m hm, bit_and-zero f f (lt-two_pow f))
bit_and-bit_or_mask (suc w) a f m ha hm h =
    let g = bit_and f m in
    let halves : bit_or a g / 2 ≡ bit_or (a / 2) (bit_and (f / 2) (m / 2)) =
      omega (arith, bit_or_digit a g, ap (λ t. bit_or (a / 2) t) g_half) in
    let rest =
      bit_and-bit_or_mask w (a / 2) (f / 2) (m / 2) (lt-two_pow_halve w a ha)
        (lt-two_pow_halve w m hm) (omega (arith, bit_and_digit a m, h)) in
    omega (
      arith,
      bit_and_digit (bit_or a g) m,
      ap (λ t. bit_and t (m / 2)) halves,
      halves,
      rest,
      bit_or_digit a g,
      bit_and_digit f m,
      bit_and_digit a m,
      h,
    )
  where
    g_half : bit_and f m / 2 ≡ bit_and (f / 2) (m / 2)
    g_half = omega (arith, bit_and_digit f m)

-- A conjunction with a multiple of a power of two is one.
pub bit_and-multiple : (w a q : ℕ) → (d : ℕ) × (bit_and a (q * 2 ^ w) ≡ d * 2 ^ w)
bit_and-multiple zero a q = (bit_and a (q * 1), omega arith)
bit_and-multiple (suc w) a q =
    let (d, e) = bit_and-multiple w (a / 2) q in
    let half : q * 2 ^ suc w / 2 ≡ q * 2 ^ w = omega (arith, mul-two_pow_suc q w) in
    (
      d,
      omega (
        arith,
        bit_and_digit a (q * 2 ^ suc w),
        ap (bit_and (a / 2)) half,
        e,
        mul-two_pow_suc q w,
        mul-two_pow_suc d w,
      ),
    )
