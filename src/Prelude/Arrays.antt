-- ===== src/Prelude/Arrays.antt =====
-- C arrays as total functions of the index, and counting the entries that pass a test.
-- An index that the source does not check is checked in the model, where the access is made.
use Prim.Native.Nat.{ℕ, zero, suc, ◌+◌, ◌≤◌, ◌<◌}
use mathlib.Core.Path.{◌≡◌, refl}
use mathlib.Core.Logic.{◌≢◌, inl, inr}
use mathlib.Core.List.{List, [], ◌∷◌}
use mathlib.Core.Bool.{Bool, true, false}
use native.Mathlib.Omega.{arith}
use moonlight_os.Prelude.Tests.{◌==◌, if◌then◌else◌, lt_or_eq}

-- `length` of the library, over the native numbers.
abbrev pub length {ℓ} : {A : Type ℓ} → List A → ℕ
length [] = 0
length (a ∷ s) = length s + 1

abbrev pub Array {ℓ} : Type ℓ → Type ℓ
Array A = ℕ → A

module _ {ℓ} {A : Type ℓ} where
  -- `f[i] = v`
  abbrev pub set : Array A → ℕ → A → Array A
  set f i v j = if i == j then v else f j

  pub set_self : (f : Array A) (i : ℕ) (v : A) → set f i v i ≡ v
  set_self f i v = ground arith

  pub set_ne : (f : Array A) (i j : ℕ) (v : A) → i ≢ j → set f i v j ≡ f j
  set_ne f i j v h = ground arith

  -- `memset(f, 0, …)` of an array
  abbrev pub fill : A → Array A
  fill v _ = v

-- How many of the entries below `n` pass the test.
unfoldable pub count : (ℕ → Bool) → ℕ → ℕ
count p zero = 0
count p (suc n) = count p n + (if p n then 1 else 0)

pub count-le : (p : ℕ → Bool) (n : ℕ) → count p n ≤ n
unfolding count
count-le p zero = omega arith
count-le p (suc n) = ground (arith, count-le p n)

pub count-eq : (p q : ℕ → Bool) (n : ℕ) → ((j : ℕ) → j < n → p j ≡ q j) → count p n ≡ count q n
unfolding count
count-eq p q zero same = refl
count-eq p q (suc n) same =
    ground (arith, count-eq p q n (λ j h. same j (omega arith)), same n (omega arith))

-- Switching one entry on adds one.
pub count-set :
    (p q : ℕ → Bool) (n k : ℕ)
    → k < n
    → p k ≡ false
    → q k ≡ true
    → ((j : ℕ) → k ≢ j → p j ≡ q j)
    → count q n ≡ count p n + 1
unfolding count
count-set p q zero k h off on same = absurd (omega arith)
count-set p q (suc n) k h off on same = elim (lt_or_eq k n h) [
  | inl e ↦ rw (← e) (ground (arith, count-eq p q k (λ j below. same j (omega arith)), off, on))
  | inr less ↦ ground (arith, count-set p q n k less off on same, same n (omega arith))
]
