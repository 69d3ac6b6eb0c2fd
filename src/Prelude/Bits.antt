-- ===== src/Prelude/Bits.antt =====
-- Masks and joins of the bit operations at variables, from the recursion on binary digits that the
-- native operations stand for.
use Prim.Native.Nat.{
  ℕ, zero, suc, ◌+◌, ◌*◌, ◌/◌, ◌%◌, ◌^◌, ◌≤◌, ◌<◌, min, max, differ, bit_and, bit_or, bit_xor,
  digits, bit_and-bitwise, bit_or-bitwise, bit_xor-bitwise,
}
use mathlib.Core.Path.{◌≡◌, refl, ◌∙◌}
use native.Mathlib.Omega.{arith}
use native.Mathlib.Nat.{pow-suc}

-- Rounds beyond the digits of the first number change nothing.
module _ (z : ℕ → ℕ) (f : ℕ → ℕ → ℕ) where
  digits-rounds : (n k a b : ℕ) → a ≤ n → a ≤ k → digits z f n a b ≡ digits z f k a b
  digits-rounds zero zero zero b p q = refl
  digits-rounds zero zero (suc a) b p q = absurd (omega arith)
  digits-rounds zero (suc k) zero b p q = refl
  digits-rounds zero (suc k) (suc a) b p q = absurd (omega arith)
  digits-rounds (suc n) zero zero b p q = refl
  digits-rounds (suc n) zero (suc a) b p q = absurd (omega arith)
  digits-rounds (suc n) (suc k) zero b p q = refl
  digits-rounds (suc n) (suc k) (suc a) b p q =
      omega (arith, digits-rounds n k (suc a / 2) (b / 2) (omega arith) (omega arith))

  -- The recursion on the lowest digit, for as many rounds as the number itself.
  digits-half :
      (a b : ℕ)
      → digits z f (suc a) (suc a) b
        ≡ digits z f (suc a / 2) (suc a / 2) (b / 2) * 2 + f (suc a % 2) (b % 2)
  digits-half a b =
      omega (arith, digits-rounds a (suc a / 2) (suc a / 2) (b / 2) (omega arith) (omega arith))

zero-bit_and : (b : ℕ) → bit_and 0 b ≡ 0
zero-bit_and b = bit_and-bitwise 0 b

zero-bit_or : (b : ℕ) → bit_or 0 b ≡ b
zero-bit_or b = bit_or-bitwise 0 b

pub bit_and-half : (a b : ℕ) → bit_and a b ≡ bit_and (a / 2) (b / 2) * 2 + min (a % 2) (b % 2)
bit_and-half zero b = omega (arith, zero-bit_and (b / 2), zero-bit_and b)
bit_and-half (suc a) b = omega (
  arith,
  digits-half (λ c. zero) min a b,
  bit_and-bitwise (suc a / 2) (b / 2),
  bit_and-bitwise (suc a) b,
)

pub bit_or-half : (a b : ℕ) → bit_or a b ≡ bit_or (a / 2) (b / 2) * 2 + max (a % 2) (b % 2)
bit_or-half zero b = omega (arith, zero-bit_or (b / 2), zero-bit_or b)
bit_or-half (suc a) b = omega (
  arith,
  digits-half (λ c. c) max a b,
  bit_or-bitwise (suc a / 2) (b / 2),
  bit_or-bitwise (suc a) b,
)

zero-bit_xor : (b : ℕ) → bit_xor 0 b ≡ b
zero-bit_xor b = bit_xor-bitwise 0 b

bit_xor-half : (a b : ℕ) → bit_xor a b ≡ bit_xor (a / 2) (b / 2) * 2 + differ (a % 2) (b % 2)
bit_xor-half zero b = ground (arith, zero-bit_xor (b / 2), zero-bit_xor b)
bit_xor-half (suc a) b = omega (
  arith,
  digits-half (λ c. c) differ a b,
  bit_xor-bitwise (suc a / 2) (b / 2),
  bit_xor-bitwise (suc a) b,
)

differ_bit : (a b : ℕ) → a < 2 → b < 2 → differ a b < 2
differ_bit zero b ha hb = hb
differ_bit (suc zero) zero ha hb = ha
differ_bit (suc zero) (suc zero) ha hb = omega arith
differ_bit (suc zero) (suc (suc b)) ha hb = absurd (omega arith)
differ_bit (suc (suc a)) b ha hb = absurd (omega arith)

-- The result of an operation on digits has no more digits than its operands.
pub bit_and-lt : (k a b : ℕ) → a < 2 ^ k → b < 2 ^ k → bit_and a b < 2 ^ k
bit_and-lt zero a b ha hb = let e : a ≡ 0 = omega arith in rw e (omega (arith, zero-bit_and b))
bit_and-lt (suc k) a b ha hb =
    let ha' : a < 2 ^ k * 2 = rw pow-suc at ha in
    let hb' : b < 2 ^ k * 2 = rw pow-suc at hb in
    rw pow-suc
      (omega (arith, bit_and-half a b, bit_and-lt k (a / 2) (b / 2) (omega arith) (omega arith)))

pub bit_or-lt : (k a b : ℕ) → a < 2 ^ k → b < 2 ^ k → bit_or a b < 2 ^ k
bit_or-lt zero a b ha hb = let e : a ≡ 0 = omega arith in rw e (omega (arith, zero-bit_or b))
bit_or-lt (suc k) a b ha hb =
    let ha' : a < 2 ^ k * 2 = rw pow-suc at ha in
    let hb' : b < 2 ^ k * 2 = rw pow-suc at hb in
    rw pow-suc
      (omega (arith, bit_or-half a b, bit_or-lt k (a / 2) (b / 2) (omega arith) (omega arith)))

pub bit_xor-lt : (k a b : ℕ) → a < 2 ^ k → b < 2 ^ k → bit_xor a b < 2 ^ k
bit_xor-lt zero a b ha hb = let e : a ≡ 0 = omega arith in rw e (omega (arith, zero-bit_xor b))
bit_xor-lt (suc k) a b ha hb =
    let ha' : a < 2 ^ k * 2 = rw pow-suc at ha in
    let hb' : b < 2 ^ k * 2 = rw pow-suc at hb in
    let low = differ_bit (a % 2) (b % 2) (omega arith) (omega arith) in
    rw pow-suc
      (omega (arith, bit_xor-half a b, bit_xor-lt k (a / 2) (b / 2) (omega arith) (omega arith)))

-- With k ones for a mask, k more digits each time.
bit_and-zero_below : (n a : ℕ) → a ≤ n → bit_and a 0 ≡ 0
bit_and-zero_below n zero h = refl
bit_and-zero_below zero (suc a) h = absurd (omega arith)
bit_and-zero_below (suc n) (suc a) h =
    omega (arith, bit_and-half (suc a) 0, bit_and-zero_below n (suc a / 2) (omega arith))

bit_or-zero_below : (n a : ℕ) → a ≤ n → bit_or a 0 ≡ a
bit_or-zero_below n zero h = refl
bit_or-zero_below zero (suc a) h = absurd (omega arith)
bit_or-zero_below (suc n) (suc a) h =
    omega (arith, bit_or-half (suc a) 0, bit_or-zero_below n (suc a / 2) (omega arith))

bit_and_two : (a : ℕ) → bit_and a 3 ≡ a % 4
bit_and_two a = omega (
  arith,
  bit_and-half a 3,
  bit_and-half (a / 2) 1,
  bit_and-zero_below (a / 2 / 2) (a / 2 / 2) (omega arith),
)

pub bit_and_four : (a : ℕ) → bit_and a 15 ≡ a % 16
bit_and_four a = omega (arith, bit_and-half a 15, bit_and-half (a / 2) 7, bit_and_two (a / 2 / 2))

bit_and_six : (a : ℕ) → bit_and a 63 ≡ a % 64
bit_and_six a = omega (arith, bit_and-half a 63, bit_and-half (a / 2) 31, bit_and_four (a / 2 / 2))

-- `a & 0xff`
pub bit_and_byte : (a : ℕ) → bit_and a 0xff ≡ a % 256
bit_and_byte a =
    omega (arith, bit_and-half a 255, bit_and-half (a / 2) 127, bit_and_six (a / 2 / 2))

bit_and_ten : (a : ℕ) → bit_and a 1023 ≡ a % 1024
bit_and_ten a =
    omega (arith, bit_and-half a 1023, bit_and-half (a / 2) 511, bit_and_byte (a / 2 / 2))

bit_and_twelve : (a : ℕ) → bit_and a 4095 ≡ a % 4096
bit_and_twelve a =
    omega (arith, bit_and-half a 4095, bit_and-half (a / 2) 2047, bit_and_ten (a / 2 / 2))

bit_and_fourteen : (a : ℕ) → bit_and a 16383 ≡ a % 16384
bit_and_fourteen a =
    omega (arith, bit_and-half a 16383, bit_and-half (a / 2) 8191, bit_and_twelve (a / 2 / 2))

-- `a & 0xffff`
pub bit_and_short : (a : ℕ) → bit_and a 0xffff ≡ a % 65536
bit_and_short a =
    omega (arith, bit_and-half a 65535, bit_and-half (a / 2) 32767, bit_and_fourteen (a / 2 / 2))

bit_or_comm : (n a b : ℕ) → a ≤ n → bit_or a b ≡ bit_or b a
bit_or_comm n zero b h = omega (arith, zero-bit_or b, bit_or-zero_below b b (omega arith))
bit_or_comm zero (suc a) b h = absurd (omega arith)
bit_or_comm (suc n) (suc a) b h = omega (
  arith,
  bit_or-half (suc a) b,
  bit_or-half b (suc a),
  bit_or_comm n (suc a / 2) (b / 2) (omega arith),
)

-- `c | b`, where the digits of `b` lie below those of `c`
pub bit_or-join : (k a b c : ℕ) → c ≡ a * 2 ^ k → b < 2 ^ k → bit_or c b ≡ c + b
bit_or-join zero a zero c e h = omega (arith, bit_or-zero_below c c (omega arith))
bit_or-join zero a (suc b) c e h = absurd (omega arith)
bit_or-join (suc k) a b c e h =
    let even : c ≡ 2 * (a * 2 ^ k) = e ∙ rw pow-suc (omega arith) in
    let low : b < 2 ^ k * 2 = rw pow-suc at h in
    omega (arith, bit_or-half c b, bit_or-join k a (b / 2) (c / 2) (omega arith) (omega arith))

-- `a | c`, where the digits of `a` lie below those of `c`
pub bit_or-low : (k a b c : ℕ) → c ≡ b * 2 ^ k → a < 2 ^ k → bit_or a c ≡ c + a
bit_or-low k a b c e h = bit_or_comm a a c (omega arith) ∙ bit_or-join k b a c e h
