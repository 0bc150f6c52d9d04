-- ===== src/Prelude/Bits.antt =====
-- Masks of a machine word: `a & ~b` is zero exactly when every bit of `a` is a bit of `b`.
use Prim.Native.Nat.{
  ℕ, zero, suc, ◌+◌, ◌-◌, ◌*◌, ◌/◌, ◌%◌, ◌^◌, ◌≤◌, ◌<◌, min, bit_and, digits, bit_and-bitwise,
}
use mathlib.Core.Path.{◌≡◌, refl, ◌∙◌}
use mathlib.Core.Logic.{◌↔◌}
use native.Mathlib.Omega.{arith}
use native.Mathlib.Nat.{pow-suc, mod-eq_of_lt}

-- The digit recursion that `bit_and` stands for does not depend on its fuel, once there is enough.
abbrev meet_digits : ℕ → ℕ → ℕ → ℕ
meet_digits fuel a b = digits (λ _. zero) min fuel a b

meet_digits_fuel : (f g a b : ℕ) → a ≤ f → a ≤ g → meet_digits f a b ≡ meet_digits g a b
meet_digits_fuel zero zero zero b hf hg = refl
meet_digits_fuel zero (suc g) zero b hf hg = refl
meet_digits_fuel (suc f) zero zero b hf hg = refl
meet_digits_fuel (suc f) (suc g) zero b hf hg = refl
meet_digits_fuel zero g (suc a) b hf hg = absurd (omega arith)
meet_digits_fuel (suc f) zero (suc a) b hf hg = absurd (omega arith)
meet_digits_fuel (suc f) (suc g) (suc a) b hf hg =
    omega (arith, meet_digits_fuel f g (suc a / 2) (b / 2) (omega arith) (omega arith))

pub zero-bit_and : (b : ℕ) → bit_and 0 b ≡ 0
zero-bit_and b = bit_and-bitwise 0 b

-- Lowest digit first.
pub bit_and-digit : (a b : ℕ) → bit_and a b ≡ bit_and (a / 2) (b / 2) * 2 + min (a % 2) (b % 2)
bit_and-digit zero b = omega (arith, zero-bit_and b, zero-bit_and (b / 2))
bit_and-digit (suc a) b = omega (
  arith,
  bit_and-bitwise (suc a) b,
  bit_and-bitwise (suc a / 2) (b / 2),
  meet_digits_fuel a (suc a / 2) (suc a / 2) (b / 2) (omega arith) (omega arith),
)

bit_and-zero_below : (n a : ℕ) → a ≤ n → bit_and a 0 ≡ 0
bit_and-zero_below n zero h = refl
bit_and-zero_below zero (suc a) h = absurd (omega arith)
bit_and-zero_below (suc n) (suc a) h =
    omega (arith, bit_and-digit (suc a) 0, bit_and-zero_below n (suc a / 2) (omega arith))

pub bit_and-zero : (a : ℕ) → bit_and a 0 ≡ 0
bit_and-zero a = bit_and-zero_below a a (omega arith)

-- Bit `i` of a number.
unfoldable pub bit : ℕ → ℕ → ℕ
bit a zero = a % 2
bit a (suc i) = bit (a / 2) i

-- `~b` in `w` bits.
abbrev pub bit_not : ℕ → ℕ → ℕ
bit_not w b = 2 ^ w - 1 - b % 2 ^ w

-- Every bit of `a` among the lowest `w` is one of `b`.
abbrev pub IsSubmask : ℕ → ℕ → ℕ → Type 0
IsSubmask w a b = (i : ℕ) → i < w → bit a i ≤ bit b i

-- The complement, digit by digit.
not-digits :
    (w b : ℕ)
    → b < 2 ^ suc w
    → ((2 ^ suc w - 1 - b) / 2 ≡ 2 ^ w - 1 - b / 2) × ((2 ^ suc w - 1 - b) % 2 ≡ 1 - b % 2)
not-digits w b h = omega (arith, pow-suc 2 w)

half-lt : (w a : ℕ) → a < 2 ^ suc w → a / 2 < 2 ^ w
half-lt w a h = omega (arith, pow-suc 2 w)

-- The two halves of `a & ~b = 0`: the lowest digit, and the rest.
and_not-digits :
    (w a b : ℕ)
    → b < 2 ^ suc w
    → bit_and a (2 ^ suc w - 1 - b)
      ≡ bit_and (a / 2) (2 ^ w - 1 - b / 2) * 2 + min (a % 2) (1 - b % 2)
and_not-digits w a b h = bit_and-digit a _ ∙ rw ((not-digits w b h).0, (not-digits w b h).1)

IsSubmask-of_and :
    (w a b : ℕ) → a < 2 ^ w → b < 2 ^ w → bit_and a (2 ^ w - 1 - b) ≡ 0 → IsSubmask w a b
unfolding bit
IsSubmask-of_and zero a b ha hb e i h = absurd (omega arith)
IsSubmask-of_and (suc w) a b ha hb e zero h = omega (arith, and_not-digits w a b hb)
IsSubmask-of_and (suc w) a b ha hb e (suc i) h =
    IsSubmask-of_and w (a / 2) (b / 2) (half-lt w a ha) (half-lt w b hb)
      (omega (arith, and_not-digits w a b hb)) i (omega arith)

and_of_submask :
    (w a b : ℕ) → a < 2 ^ w → b < 2 ^ w → IsSubmask w a b → bit_and a (2 ^ w - 1 - b) ≡ 0
unfolding bit
and_of_submask zero a b ha hb s = let e : a ≡ 0 = omega arith in rw e (zero-bit_and _)
and_of_submask (suc w) a b ha hb s = omega (
  arith,
  and_not-digits w a b hb,
  s 0 (omega arith),
  and_of_submask w (a / 2) (b / 2) (half-lt w a ha) (half-lt w b hb)
      (λ i h. s (suc i) (omega arith)),
)

-- `(a & ~b) == 0` tests that every bit of `a` is one of `b`.
pub bit_and-not_iff :
    (w a b : ℕ) → a < 2 ^ w → b < 2 ^ w → (bit_and a (bit_not w b) ≡ 0) ↔ IsSubmask w a b
bit_and-not_iff w a b ha hb =
    rw (mod-eq_of_lt hb) (IsSubmask-of_and w a b ha hb, and_of_submask w a b ha hb)

-- `(a & b) == b` tests that every bit of `b` is one of `a`.
IsSubmask-of_meet : (w a b : ℕ) → b < 2 ^ w → bit_and a b ≡ b → IsSubmask w b a
unfolding bit
IsSubmask-of_meet zero a b hb e i h = absurd (omega arith)
IsSubmask-of_meet (suc w) a b hb e zero h = omega (arith, bit_and-digit a b)
IsSubmask-of_meet (suc w) a b hb e (suc i) h =
    IsSubmask-of_meet w (a / 2) (b / 2) (half-lt w b hb) (omega (arith, bit_and-digit a b)) i
      (omega arith)

meet_of_submask : (w a b : ℕ) → b < 2 ^ w → IsSubmask w b a → bit_and a b ≡ b
unfolding bit
meet_of_submask zero a b hb s = let e : b ≡ 0 = omega arith in rw e (bit_and-zero a)
meet_of_submask (suc w) a b hb s = omega (
  arith,
  bit_and-digit a b,
  s 0 (omega arith),
  meet_of_submask w (a / 2) (b / 2) (half-lt w b hb) (λ i h. s (suc i) (omega arith)),
)

pub bit_and-eq_iff : (w a b : ℕ) → b < 2 ^ w → (bit_and a b ≡ b) ↔ IsSubmask w b a
bit_and-eq_iff w a b hb = (IsSubmask-of_meet w a b hb, meet_of_submask w a b hb)

-- A number below `2 ^ w` is determined by its bits, so two masks of each other are equal.
pub IsSubmask-trans : (w a b c : ℕ) → IsSubmask w a b → IsSubmask w b c → IsSubmask w a c
IsSubmask-trans w a b c p q i h = omega (arith, p i h, q i h)

pub IsSubmask-refl : (w a : ℕ) → IsSubmask w a a
IsSubmask-refl w a i h = omega arith
