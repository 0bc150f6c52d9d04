-- ===== src/Prelude/BitXor.antt =====
-- Bits of an exclusive or: it is 0 only for equal numbers.
use Prim.Native.Nat.{
  ℕ, zero, suc, ◌+◌, ◌*◌, ◌/◌, ◌%◌, ◌≤◌, bit_xor, digits, differ, bit_xor-bitwise,
}
use mathlib.Core.Path.{◌≡◌, refl}
use native.Mathlib.Omega.{arith}

abbrev part_digits : ℕ → ℕ → ℕ → ℕ
part_digits fuel a b = digits (λ b. b) differ fuel a b

part_digits_fuel : (f g a b : ℕ) → a ≤ f → a ≤ g → part_digits f a b ≡ part_digits g a b
part_digits_fuel zero zero zero b hf hg = refl
part_digits_fuel zero (suc g) zero b hf hg = refl
part_digits_fuel (suc f) zero zero b hf hg = refl
part_digits_fuel (suc f) (suc g) zero b hf hg = refl
part_digits_fuel zero g (suc a) b hf hg = absurd (omega arith)
part_digits_fuel (suc f) zero (suc a) b hf hg = absurd (omega arith)
part_digits_fuel (suc f) (suc g) (suc a) b hf hg =
    omega (arith, part_digits_fuel f g (suc a / 2) (b / 2) (omega arith) (omega arith))

pub zero-bit_xor : (b : ℕ) → bit_xor 0 b ≡ b
zero-bit_xor b = bit_xor-bitwise 0 b

zero-differ : (b : ℕ) → differ 0 b ≡ b
zero-differ b = refl

pub bit_xor-digit : (a b : ℕ) → bit_xor a b ≡ bit_xor (a / 2) (b / 2) * 2 + differ (a % 2) (b % 2)
bit_xor-digit zero b = omega (arith, zero-bit_xor b, zero-bit_xor (b / 2))
bit_xor-digit (suc a) b = omega (
  arith,
  bit_xor-bitwise (suc a) b,
  bit_xor-bitwise (suc a / 2) (b / 2),
  part_digits_fuel a (suc a / 2) (suc a / 2) (b / 2) (omega arith) (omega arith),
)

differ-zero : (x y : ℕ) → differ x y ≡ 0 → x ≡ y
differ-zero zero y e = omega arith
differ-zero (suc x) zero e = absurd (omega arith)
differ-zero (suc x) (suc y) e = omega (arith, differ-zero x y e)

differ_self : (x : ℕ) → differ x x ≡ 0
differ_self zero = refl
differ_self (suc x) = differ_self x

xor-zero_below : (n a b : ℕ) → a ≤ n → bit_xor a b ≡ 0 → a ≡ b
xor-zero_below n zero b h e = omega (arith, zero-bit_xor b)
xor-zero_below zero (suc a) b h e = absurd (omega arith)
xor-zero_below (suc n) (suc a) b h e =
    let d = bit_xor-digit (suc a) b in
    omega (
      arith,
      differ-zero (suc a % 2) (b % 2) (omega arith),
      xor-zero_below n (suc a / 2) (b / 2) (omega arith) (omega arith),
    )

pub bit_xor-zero : (a b : ℕ) → bit_xor a b ≡ 0 → a ≡ b
bit_xor-zero a b e = xor-zero_below a a b (omega arith) e

xor-self_below : (n a : ℕ) → a ≤ n → bit_xor a a ≡ 0
xor-self_below n zero h = refl
xor-self_below zero (suc a) h = absurd (omega arith)
xor-self_below (suc n) (suc a) h = omega (
  arith,
  bit_xor-digit (suc a) (suc a),
  differ_self (suc a % 2),
  xor-self_below n (suc a / 2) (omega arith),
)

pub bit_xor_self : (a : ℕ) → bit_xor a a ≡ 0
bit_xor_self a = xor-self_below a a (omega arith)
