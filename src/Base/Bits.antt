-- ===== src/Base/Bits.antt =====
-- Masks of native numbers: the lowest digit of `bit_and` and `bit_or`, and a mask of ones above zeros.
use Prim.Native.Nat.{
  ℕ, zero, suc, ◌+◌, ◌-◌, ◌*◌, ◌/◌, ◌%◌, ◌^◌, ◌≤◌, ◌<◌, min, max, bit_and, bit_or, digits,
  bit_and-bitwise, bit_or-bitwise,
}
use mathlib.Core.Path.{◌≡◌, refl, sym, ap, ◌∙◌}
use native.Mathlib.Nat.{mul_assoc, two-pow-succ, pow-suc, one-le-pow}
use native.Mathlib.Omega.{arith}

digits_rounds :
    (z : ℕ → ℕ) (f : ℕ → ℕ → ℕ) (n m a b : ℕ) → a ≤ n → a ≤ m → digits z f n a b ≡ digits z f m a b
digits_rounds z f zero zero a b p q = refl
digits_rounds z f zero (suc m) zero b p q = refl
digits_rounds z f zero (suc m) (suc a) b p q = absurd (omega arith)
digits_rounds z f (suc n) zero zero b p q = refl
digits_rounds z f (suc n) zero (suc a) b p q = absurd (omega arith)
digits_rounds z f (suc n) (suc m) zero b p q = refl
digits_rounds z f (suc n) (suc m) (suc a) b p q =
    ap (λ d. d * 2 + f (suc a % 2) (b % 2))
      (digits_rounds z f n m (suc a / 2) (b / 2) (omega arith) (omega arith))

pub bit_and-digit : (a b : ℕ) → bit_and a b ≡ bit_and (a / 2) (b / 2) * 2 + min (a % 2) (b % 2)
bit_and-digit zero b = omega (arith, bit_and-bitwise 0 b, bit_and-bitwise 0 (b / 2))
bit_and-digit (suc a) b = omega (
  arith,
  bit_and-bitwise (suc a) b,
  bit_and-bitwise (suc a / 2) (b / 2),
  digits_rounds (λ b. 0) min a (suc a / 2) (suc a / 2) (b / 2) (omega arith) (omega arith),
)

pub bit_or-digit : (a b : ℕ) → bit_or a b ≡ bit_or (a / 2) (b / 2) * 2 + max (a % 2) (b % 2)
bit_or-digit zero b = omega (arith, bit_or-bitwise 0 b, bit_or-bitwise 0 (b / 2))
bit_or-digit (suc a) b = omega (
  arith,
  bit_or-bitwise (suc a) b,
  bit_or-bitwise (suc a / 2) (b / 2),
  digits_rounds (λ b. b) max a (suc a / 2) (suc a / 2) (b / 2) (omega arith) (omega arith),
)

or_zero_rounds : (n a : ℕ) → a ≤ n → bit_or a 0 ≡ a
or_zero_rounds n zero h = bit_or-bitwise 0 0
or_zero_rounds zero (suc a) h = absurd (omega arith)
or_zero_rounds (suc n) (suc a) h =
    omega (arith, bit_or-digit (suc a) 0, or_zero_rounds n (suc a / 2) (omega arith))

double_pow : (q k : ℕ) → q * 2 ^ suc k ≡ (q * 2 ^ k) * 2
double_pow q k = ap (λ x. q * x) (pow-suc 2 k) ∙ sym (mul_assoc q (2 ^ k) 2)

double_digits : (x y : ℕ) → y ≡ x * 2 → (y / 2 ≡ x) × (y % 2 ≡ 0)
double_digits x y h = (omega arith, omega arith)

pub bit_or-low : (k q n : ℕ) → n < 2 ^ k → bit_or (q * 2 ^ k) n ≡ q * 2 ^ k + n
bit_or-low zero q n h =
    let none_left : n ≡ 0 = omega arith in
    let one : q * 1 ≡ q = omega arith in
    rw (none_left, one) (omega (arith, or_zero_rounds q q (omega arith)))
bit_or-low (suc k) q n h =
    let (half, even) = double_digits (q * 2 ^ k) (q * 2 ^ suc k) (double_pow q k) in
    let ih = bit_or-low k q (n / 2) (omega (arith, two-pow-succ k)) in
    bit_or-digit (q * 2 ^ suc k) n ∙ rw (half, even, ih) (omega (arith, double_pow q k))

-- Ones in the lowest `j` places.
and_ones : (j a : ℕ) → a < 2 ^ j → bit_and a (2 ^ j - 1) ≡ a
and_ones zero a h = let none_left : a ≡ 0 = omega arith in rw none_left (bit_and-bitwise 0 0)
and_ones (suc j) a h =
    let positive : 1 ≤ 2 ^ j = one-le-pow j 2 (omega arith) in
    let half : (2 ^ suc j - 1) / 2 ≡ 2 ^ j - 1 = omega (arith, two-pow-succ j, positive) in
    let odd : (2 ^ suc j - 1) % 2 ≡ 1 = omega (arith, two-pow-succ j, positive) in
    let ih = and_ones j (a / 2) (omega (arith, two-pow-succ j)) in
    bit_and-digit a (2 ^ suc j - 1) ∙ rw (half, odd, ih) (omega arith)

-- `j` ones above `k` zeros keep the high digits: the result is the multiple of `2 ^ k` below.
pub bit_and-high :
    (j k a : ℕ)
    → a < 2 ^ (j + k)
    → (q : ℕ) × (bit_and a ((2 ^ j - 1) * 2 ^ k) ≡ q * 2 ^ k)
      × (q * 2 ^ k ≤ a)
      × (a < q * 2 ^ k + 2 ^ k)
bit_and-high j zero a h =
    let one : (2 ^ j - 1) * 1 ≡ 2 ^ j - 1 = omega arith in
    let none_below : j + 0 ≡ j = omega arith in
    let small : a < 2 ^ j = rw none_below at h in
    let same : bit_and a ((2 ^ j - 1) * 1) ≡ a = rw one (and_ones j a small) in
    (a, omega (arith, same), omega arith, omega arith)
bit_and-high j (suc k) a h =
    let one_more : j + suc k ≡ suc (j + k) = omega arith in
    let small : a < 2 ^ suc (j + k) = rw one_more at h in
    let (half, even) =
      double_digits ((2 ^ j - 1) * 2 ^ k) ((2 ^ j - 1) * 2 ^ suc k) (double_pow (2 ^ j - 1) k) in
    let (q, same, low, high) =
      bit_and-high j k (a / 2) (omega (arith, small, two-pow-succ (j + k))) in
    let digit = bit_and-digit a ((2 ^ j - 1) * 2 ^ suc k) in
    let split : bit_and a ((2 ^ j - 1) * 2 ^ suc k) ≡ bit_and (a / 2) ((2 ^ j - 1) * 2 ^ k) * 2 =
      digit ∙ rw (half, even) (omega arith) in
    (
      q,
      omega (arith, split, same, double_pow q k),
      omega (arith, low, double_pow q k),
      omega (arith, high, double_pow q k, two-pow-succ k),
    )
