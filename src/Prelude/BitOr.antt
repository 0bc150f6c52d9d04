-- ===== src/Prelude/BitOr.antt =====
-- Bits of a bitwise or, and of a power of two.
use Prim.Native.Nat.{
  ℕ, zero, suc, ◌+◌, ◌*◌, ◌/◌, ◌%◌, ◌^◌, ◌≤◌, max, bit_or, digits, bit_or-bitwise,
}
use mathlib.Core.Path.{◌≡◌, refl, sym, ap, ◌∙◌}
use native.Mathlib.Omega.{arith}
use native.Mathlib.Nat.{pow-suc, pow-succ', div-div-eq-div-mul}
use moonlight_os.Prelude.Tests.{◌==◌, if◌then◌else◌}
use moonlight_os.Prelude.Bits.{bit}

abbrev join_digits : ℕ → ℕ → ℕ → ℕ
join_digits fuel a b = digits (λ b. b) max fuel a b

join_digits_fuel : (f g a b : ℕ) → a ≤ f → a ≤ g → join_digits f a b ≡ join_digits g a b
join_digits_fuel zero zero zero b hf hg = refl
join_digits_fuel zero (suc g) zero b hf hg = refl
join_digits_fuel (suc f) zero zero b hf hg = refl
join_digits_fuel (suc f) (suc g) zero b hf hg = refl
join_digits_fuel zero g (suc a) b hf hg = absurd (omega arith)
join_digits_fuel (suc f) zero (suc a) b hf hg = absurd (omega arith)
join_digits_fuel (suc f) (suc g) (suc a) b hf hg =
    omega (arith, join_digits_fuel f g (suc a / 2) (b / 2) (omega arith) (omega arith))

pub zero-bit_or : (b : ℕ) → bit_or 0 b ≡ b
zero-bit_or b = bit_or-bitwise 0 b

pub bit_or-digit : (a b : ℕ) → bit_or a b ≡ bit_or (a / 2) (b / 2) * 2 + max (a % 2) (b % 2)
bit_or-digit zero b = omega (arith, zero-bit_or b, zero-bit_or (b / 2))
bit_or-digit (suc a) b = omega (
  arith,
  bit_or-bitwise (suc a) b,
  bit_or-bitwise (suc a / 2) (b / 2),
  join_digits_fuel a (suc a / 2) (suc a / 2) (b / 2) (omega arith) (omega arith),
)

or-half : (a b : ℕ) → bit_or a b / 2 ≡ bit_or (a / 2) (b / 2)
or-half a b = omega (arith, bit_or-digit a b)

-- A bit of `a | b` is set if it is set in one of them.
pub bit-bit_or : (a b i : ℕ) → bit (bit_or a b) i ≡ max (bit a i) (bit b i)
unfolding bit
bit-bit_or a b zero = omega (arith, bit_or-digit a b)
bit-bit_or a b (suc i) = rw (or-half a b) (bit-bit_or (a / 2) (b / 2) i)

pub bit-le : (a i : ℕ) → bit a i ≤ 1
unfolding bit
bit-le a zero = omega arith
bit-le a (suc i) = bit-le (a / 2) i

pub bit-zero : (i : ℕ) → bit 0 i ≡ 0
unfolding bit
bit-zero zero = refl
bit-zero (suc i) = bit-zero i

-- `(a >> i) & 1`
pub bit_lem : (a i : ℕ) → bit a i ≡ a / 2 ^ i % 2
unfolding bit
bit_lem a zero = omega arith
bit_lem a (suc i) =
    let halves : a / 2 ^ suc i ≡ a / 2 / 2 ^ i =
      ap (λ (d : ℕ). a / d) (pow-succ' 2 i) ∙ sym (div-div-eq-div-mul a 2 (2 ^ i)) in
    rw halves (bit_lem (a / 2) i)

-- `1 << k` has one bit.
pub bit-pow : (k i : ℕ) → bit (2 ^ k) i ≡ (if k == i then 1 else 0)
unfolding bit
bit-pow zero zero = refl
bit-pow zero (suc i) = rw (bit-zero i) (ground arith)
bit-pow (suc k) zero = ground (arith, pow-suc 2 k)
bit-pow (suc k) (suc i) =
    let half : 2 ^ suc k / 2 ≡ 2 ^ k = omega (arith, pow-suc 2 k) in
    rw half (bit-pow k i ∙ ground arith)
