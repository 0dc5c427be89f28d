-- ===== src/Bits.antt =====
-- The bit test that a voice makes on the length of a buffer: `n != 0 and n & (n - 1) == 0`.
use Prim.Native.Nat.{bit_and, digits, bit_and-bitwise}
use native.Mathlib.Decide.{dec_lt}
use native.Mathlib.Nat.{pow-suc, one-le-pow}
use softcut_py.Base.{
  ℕ, zero, suc, ◌-◌, ◌*◌, ◌+◌, ◌/◌, ◌%◌, ◌^◌, ◌≤◌, ◌<◌, ◌≡◌, refl, ◌↔◌, Bool, true, ◌&&◌, not,
  arith, eqb, min, ap,
}
use softcut_py.Sizes.{IsPowerOfTwo}

unfoldable pub is_power_of_two : ℕ → Bool
is_power_of_two n = not (eqb n 0) && eqb (bit_and n (n - 1)) 0

-- `bit_and` by digits, with the rounds as a parameter.
abbrev masked : ℕ → ℕ → ℕ → ℕ
masked rounds a b = digits (λ b. zero) min rounds a b

masked_enough : (r s a b : ℕ) → a ≤ r → a ≤ s → masked r a b ≡ masked s a b
masked_enough zero zero a b h k = refl
masked_enough zero (suc s) zero b h k = refl
masked_enough (suc r) zero zero b h k = refl
masked_enough (suc r) (suc s) zero b h k = refl
masked_enough zero s (suc a) b h k = absurd (omega arith)
masked_enough (suc r) zero (suc a) b h k = absurd (omega arith)
masked_enough (suc r) (suc s) (suc a) b h k =
    omega (arith, masked_enough r s (suc a / 2) (b / 2) (omega arith) (omega arith))

bit_and-zero_left : (b : ℕ) → bit_and 0 b ≡ 0
bit_and-zero_left b = bit_and-bitwise 0 b

-- The lowest digit apart from the others.
bit_and-digit : (a b : ℕ) → bit_and a b ≡ bit_and (a / 2) (b / 2) * 2 + min (a % 2) (b % 2)
bit_and-digit zero b = omega (arith, bit_and-zero_left b, bit_and-zero_left (b / 2))
bit_and-digit (suc a) b = omega (
  arith,
  bit_and-bitwise (suc a) b,
  bit_and-bitwise (suc a / 2) (b / 2),
  masked_enough a (suc a / 2) (suc a / 2) (b / 2) (omega arith) (omega arith),
)

bit_and_idem : (r a : ℕ) → a ≤ r → bit_and a a ≡ a
bit_and_idem r zero h = bit_and-zero_left 0
bit_and_idem zero (suc a) h = absurd (omega arith)
bit_and_idem (suc r) (suc a) h =
    omega (arith, bit_and-digit (suc a) (suc a), bit_and_idem r (suc a / 2) (omega arith))

pub bit_and-pow : (k : ℕ) → bit_and (2 ^ k) (2 ^ k - 1) ≡ 0
bit_and-pow zero = refl
bit_and-pow (suc k) =
    let one : 1 ≤ 2 ^ k = one-le-pow k 2 (omega arith) in
    let half : 2 ^ suc k / 2 ≡ 2 ^ k = omega (arith, pow-suc 2 k) in
    let mask : (2 ^ suc k - 1) / 2 ≡ 2 ^ k - 1 = omega (arith, pow-suc 2 k) in
    let step = bit_and-digit (2 ^ suc k) (2 ^ suc k - 1) in
    omega (arith, pow-suc 2 k, rw (half, mask, bit_and-pow k) at step)

-- A mask of `k` bits keeps a number of at most `k` bits.
pub bit_and-mask : (k a : ℕ) → a < 2 ^ k → bit_and a (2 ^ k - 1) ≡ a
bit_and-mask zero a h = omega (arith, bit_and-zero_left 0, ap (λ n. bit_and n 0) (zero_of a h))
  where
    zero_of : (n : ℕ) → n < 1 → n ≡ 0
    zero_of n h = omega arith
bit_and-mask (suc k) a h =
    let one : 1 ≤ 2 ^ k = one-le-pow k 2 (omega arith) in
    let mask : (2 ^ suc k - 1) / 2 ≡ 2 ^ k - 1 = omega (arith, pow-suc 2 k) in
    let below : a / 2 < 2 ^ k = omega (arith, pow-suc 2 k) in
    let step = rw (mask, bit_and-mask k (a / 2) below) at (bit_and-digit a (2 ^ suc k - 1)) in
    omega (arith, pow-suc 2 k)

-- A nonzero number with no bit in common with its predecessor has one bit.
IsPowerOfTwo-of_mask : (r n : ℕ) → n ≤ r → 0 < n → bit_and n (n - 1) ≡ 0 → IsPowerOfTwo n
IsPowerOfTwo-of_mask zero n h pos e = absurd (omega arith)
IsPowerOfTwo-of_mask (suc r) n h pos e = elim (dec_lt 0 (n % 2)) [
  | yes odd ↦
      let low : (n - 1) / 2 ≡ n / 2 = omega arith in
      let step = bit_and-digit n (n - 1) in
      let none_left : n / 2 ≡ 0 =
        omega (arith, rw (low, bit_and_idem (n / 2) (n / 2) (omega arith)) at step) in
      (0, omega arith)
  | no even ↦
      let low : (n - 1) / 2 ≡ n / 2 - 1 = omega arith in
      let step = rw low at (bit_and-digit n (n - 1)) in
      let (k, q) = IsPowerOfTwo-of_mask r (n / 2) (omega arith) (omega arith) (omega arith) in
      (suc k, omega (arith, pow-suc 2 k))
]

-- The test passes exactly at the powers of two.
pub is_power_of_two_iff : (n : ℕ) → (is_power_of_two n ≡ true) ↔ IsPowerOfTwo n
unfolding is_power_of_two
is_power_of_two_iff n = (
  λ h. IsPowerOfTwo-of_mask n n (omega arith) (ground arith) (ground arith),
  λ (k, e). rw e (ground (arith, one-le-pow k 2 (omega arith), bit_and-pow k)),
)
