-- ===== src/Sizes.antt =====
-- Buffer lengths: `next_power_of_two` of src/softcut/__init__.py.
use softcut_py.Base.{
  ℕ, zero, suc, ◌-◌, ◌*◌, ◌/◌, ◌^◌, ◌≤◌, ◌<◌, ◌≡◌, refl, inl, inr, arith, leb, eqb, if◌then◌else◌,
  Bool-cases,
}
use softcut_py.Base.Int.{ℤ, pos, negsuc, ◌≤ℤ◌}
use native.Mathlib.Decide.{dec_lt}
use native.Mathlib.Nat.{pow-zero, pow-suc, one-le-pow, pow-le-pow_right, le_refl}

-- The rounds of `int.bit_length` on `n`: one for each halving until nothing is left.
unfoldable pub bit_length_in : ℕ → ℕ → ℕ
bit_length_in zero n = 0
bit_length_in (suc rounds) n =
    let rest = bit_length_in rounds (n / 2) in if eqb n 0 then 0 else suc rest

-- `n.bit_length()`; `n` rounds are enough.
unfoldable pub bit_length : ℕ → ℕ
unfolding bit_length_in
bit_length n = bit_length_in n n

unfoldable pub next_power_of_two : ℤ → ℕ
unfolding bit_length
next_power_of_two (pos n) = if leb n 1 then 1 else 2 ^ bit_length (n - 1)
next_power_of_two (negsuc n) = 1

-- A length that a voice accepts.
abbrev pub IsPowerOfTwo : ℕ → Type 0
IsPowerOfTwo m = (k : ℕ) × (m ≡ 2 ^ k)

lt-bit_length : (rounds n : ℕ) → n ≤ rounds → n < 2 ^ bit_length_in rounds n
unfolding bit_length_in
lt-bit_length zero n h = omega (arith, pow-zero 2)
lt-bit_length (suc rounds) n h = elim (Bool-cases (eqb n 0)) [
  | inl e ↦ rw e (ground arith)
  | inr e ↦
      rw e (ground (arith, pow-suc 2 (bit_length_in rounds (n / 2)), lt-bit_length rounds (n / 2)))
]

bit_length-zero : (rounds : ℕ) → bit_length_in rounds 0 ≡ 0
unfolding bit_length_in
bit_length-zero zero = refl
bit_length-zero (suc rounds) = refl

bit_length-le : (rounds n : ℕ) → n ≤ rounds → 0 < n → 2 ^ bit_length_in rounds n ≤ 2 * n
unfolding bit_length_in
bit_length-le zero n h p = absurd (omega arith)
bit_length-le (suc rounds) n h p = elim (Bool-cases (eqb n 0)) [
  | inl e ↦ absurd (ground arith)
  | inr e ↦
      rw (e, pow-suc)
        (elim (dec_lt 0 (n / 2)) [
          | yes more ↦ omega (arith, bit_length-le rounds (n / 2) (omega arith) more)
          | no none_left ↦
              let half : n / 2 ≡ 0 = omega arith in rw (half, bit_length-zero rounds) (omega arith)
        ])
]

-- The length is a power of two.
pub next_power_of_two-IsPowerOfTwo : (n : ℤ) → IsPowerOfTwo (next_power_of_two n)
unfolding next_power_of_two
next_power_of_two-IsPowerOfTwo (negsuc n) = (0, refl)
next_power_of_two-IsPowerOfTwo (pos n) = elim (Bool-cases (leb n 1)) [
  | inl e ↦ rw e (0, refl)
  | inr e ↦ rw e (bit_length (n - 1), refl)
]

-- The length holds the frames asked for, and at least one.
pub next_power_of_two-enough :
    (n : ℤ) → (n ≤ℤ pos (next_power_of_two n)) × (0 < next_power_of_two n)
unfolding next_power_of_two
next_power_of_two-enough (negsuc n) = omega arith
next_power_of_two-enough (pos n) = elim (Bool-cases (leb n 1)) [
  | inl e ↦ rw e (ground arith)
  | inr e ↦ rw e (ground (arith, lt-bit_length (n - 1) (n - 1)))
]

pow-lt→lt : (k b : ℕ) → 2 ^ k < 2 ^ b → k < b
pow-lt→lt k b h = elim (dec_lt k b) [
  | yes p ↦ p
  | no p ↦
      let le : 2 ^ b ≤ 2 ^ k = pow-le-pow_right (omega arith) (omega arith) in absurd (omega arith)
]

-- No smaller power of two holds the frames asked for.
pub next_power_of_two-minimal : (n : ℤ) (k : ℕ) → n ≤ℤ pos (2 ^ k) → next_power_of_two n ≤ 2 ^ k
unfolding next_power_of_two
next_power_of_two-minimal (negsuc n) k h = one-le-pow k 2 (omega arith)
next_power_of_two-minimal (pos n) k h = elim (Bool-cases (leb n 1)) [
  | inl e ↦ rw e (one-le-pow k 2 (omega arith))
  | inr e ↦ rw e (elim (dec_lt (2 ^ k) (2 ^ bit_length (n - 1))) [
    | no p ↦ omega arith
    | yes p ↦
        let step : 2 ^ suc k ≤ 2 ^ bit_length (n - 1) =
          pow-le-pow_right (omega arith) (pow-lt→lt k (bit_length (n - 1)) p) in
        absurd
          (omega (arith, pow-suc 2 k, bit_length-le (n - 1) (n - 1) (le_refl _) (ground arith)))
  ])
]

-- The length taken for `n` frames is a power of two that is at least `n`, and no power of two that is
-- at least `n` is less.
pub next_power_of_two_least :
    (n : ℤ) (k : ℕ)
    → n ≤ℤ pos (2 ^ k)
    → IsPowerOfTwo (next_power_of_two n)
      × (n ≤ℤ pos (next_power_of_two n))
      × (next_power_of_two n ≤ 2 ^ k)
next_power_of_two_least n k h = (
  next_power_of_two-IsPowerOfTwo n,
  (next_power_of_two-enough n).0,
  next_power_of_two-minimal n k h,
)
