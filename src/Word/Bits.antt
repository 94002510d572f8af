-- ===== src/Word/Bits.antt =====
-- The masks below 8 on a number, from the binary digits that the native `&` stands for.
use Prim.Native.Nat.{bit_and, min, digits, bit_and-bitwise}
use native.Mathlib.Decide.{dec_le}
use cgc.Base.{ℕ, zero, suc, ◌+◌, ◌*◌, ◌/◌, ◌%◌, ◌≤◌, ◌<◌, ◌≡◌, refl, ◌∙◌, arith}

-- The common digits of two numbers, with a count of digits to look at.
abbrev meet : ℕ → ℕ → ℕ → ℕ
meet = digits (λ c. zero) min

meet_more : (count a b : ℕ) → a ≤ count → meet (suc count) a b ≡ meet count a b
meet_more count zero b h = elim count as (λ c. meet (suc c) zero b ≡ meet c zero b) [
  | zero ↦ refl
  | suc c ↦ refl
]
meet_more zero (suc a) b h = absurd (omega arith)
meet_more (suc count) (suc a) b h = omega (arith, meet_more count (suc a / 2) (b / 2) (omega arith))

-- Any count that is at least the number gives all of its digits.
meet-enough : (count a b : ℕ) → a ≤ count → meet count a b ≡ bit_and a b
meet-enough zero zero b h = omega (arith, bit_and-bitwise 0 b)
meet-enough zero (suc a) b h = absurd (omega arith)
meet-enough (suc count) a b h = elim (dec_le a count) [
  | yes fits ↦ meet_more count a b fits ∙ meet-enough count a b fits
  | no full ↦
      let e : a ≡ suc count = omega arith in rw e (omega (arith, bit_and-bitwise (suc count) b))
]

-- The lowest digit of `a & b`, and the rest.
bit_and_digit : (a b : ℕ) → bit_and a b ≡ bit_and (a / 2) (b / 2) * 2 + min (a % 2) (b % 2)
bit_and_digit zero b = omega (arith, bit_and-bitwise 0 b, bit_and-bitwise 0 (b / 2))
bit_and_digit (suc a) b =
    omega (arith, bit_and-bitwise (suc a) b, meet-enough a (suc a / 2) (b / 2) (omega arith))

bit_and-zero_upto : (bound a : ℕ) → a ≤ bound → bit_and a 0 ≡ 0
bit_and-zero_upto zero a h = let e : a ≡ 0 = omega arith in rw e
bit_and-zero_upto (suc bound) a h = elim (dec_le a 0) [
  | yes none_left ↦ let e : a ≡ 0 = omega arith in rw e
  | no some_left ↦ omega (arith, bit_and_digit a 0, bit_and-zero_upto bound (a / 2) (omega arith))
]

-- A mask below 8 looks at three digits only.
pub bit_and-small :
    (a k : ℕ)
    → k < 8
    → bit_and a k
      ≡ min (a % 2) (k % 2) + 2 * min (a / 2 % 2) (k / 2 % 2) + 4 * min (a / 4 % 2) (k / 4 % 2)
bit_and-small a k h = omega (
  arith,
  bit_and_digit a k,
  bit_and_digit (a / 2) (k / 2),
  bit_and_digit (a / 2 / 2) (k / 2 / 2),
  beyond,
)
  where
    used_up : k / 2 / 2 / 2 ≡ 0
    used_up = omega arith

    beyond : bit_and (a / 2 / 2 / 2) (k / 2 / 2 / 2) ≡ 0
    beyond = rw used_up (bit_and-zero_upto (a / 2 / 2 / 2) (a / 2 / 2 / 2) (omega arith))
