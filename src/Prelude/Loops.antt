-- ===== src/Prelude/Loops.antt =====
-- Counted loops: the first index that passes a test, and a body run once for each index.
use Prim.Native.Nat.{ℕ, zero, suc, ◌+◌, ◌≤◌, ◌<◌}
use mathlib.Core.Path.{◌≡◌, refl}
use mathlib.Core.Logic.{inl, inr}
use mathlib.Core.Bool.{Bool, true, false}
use mathlib.Core.Option.{Option, none, some}
use native.Mathlib.Omega.{arith}
use moonlight_os.Prelude.Tests.{ltb, if◌then◌else◌, Bool-cases, lt_or_eq}
use moonlight_os.Prelude.Arrays.{Array, set}

-- for (k = i; k < i + n; k++) if (p(k)) return k;
unfoldable pub first : (ℕ → Bool) → ℕ → ℕ → Option ℕ
first p zero i = none
first p (suc n) i = let rest = first p n (i + 1) in if p i then some i else rest

pub first-zero : (p : ℕ → Bool) (i : ℕ) → first p zero i ≡ none
unfolding first
first-zero p i = refl

pub first-hit : (p : ℕ → Bool) (n i : ℕ) → p i ≡ true → first p (suc n) i ≡ some i
unfolding first
first-hit p n i hit = ground arith

pub first-miss : (p : ℕ → Bool) (n i : ℕ) → p i ≡ false → first p (suc n) i ≡ first p n (i + 1)
unfolding first
first-miss p n i miss = ground arith

-- What `first` returns: the least index that passes, or none passes.
pub record IsFirst (p : ℕ → Bool) (i n k : ℕ) : Type 0 where
  pub low : i ≤ k
  pub high : k < i + n
  pub hit : p k ≡ true
  pub before : (j : ℕ) → i ≤ j → j < k → p j ≡ false

IsFirst-here : (p : ℕ → Bool) (n i k : ℕ) → p i ≡ true → i ≡ k → IsFirst p i (suc n) k
IsFirst-here p n i k hit e = record {
  low = omega arith;
  high = omega arith;
  hit = rw (← e) hit;
  before = λ j lo hi. absurd (omega arith);
}

IsFirst-later :
    (p : ℕ → Bool) (n i k : ℕ) → p i ≡ false → IsFirst p (i + 1) n k → IsFirst p i (suc n) k
IsFirst-later p n i k miss r = record {
  low = omega arith;
  high = omega arith;
  hit = r.hit;
  before = λ j lo hi. elim (lt_or_eq i j (omega arith)) [
    | inl e ↦ rw (← e) miss
    | inr less ↦ r.before j (omega arith) hi
  ];
}

pub first-some : (p : ℕ → Bool) (n i k : ℕ) → first p n i ≡ some k → IsFirst p i n k
unfolding first
first-some p zero i k e = cc
first-some p (suc n) i k e = elim (Bool-cases (p i)) [
  | inl hit ↦ IsFirst-here p n i k hit (ground arith)
  | inr miss ↦ IsFirst-later p n i k miss (first-some p n (i + 1) k (ground arith))
]

pub first-none :
    (p : ℕ → Bool) (n i : ℕ) → first p n i ≡ none → (j : ℕ) → i ≤ j → j < i + n → p j ≡ false
unfolding first
first-none p zero i e j lo hi = absurd (omega arith)
first-none p (suc n) i e j lo hi = elim (lt_or_eq i j (omega arith)) [
  | inl here ↦ rw (← here) (ground arith)
  | inr later ↦ first-none p n (i + 1) (ground arith) j (omega arith) (omega arith)
]

-- for (k = 0; k < n; k++) f[k] = g(f[k]);
unfoldable pub update_all {ℓ} : {A : Type ℓ} → ℕ → (A → A) → Array A → Array A
update_all zero g f = f
update_all (suc n) g f = let f' = update_all n g f in set f' n (g (f' n))

pub update_all_lem {ℓ} :
    {A : Type ℓ} (n : ℕ) (g : A → A) (f : Array A) (j : ℕ)
    → update_all n g f j ≡ (if ltb j n then g (f j) else f j)
unfolding update_all
update_all_lem {A} zero g f j = ground arith
update_all_lem {A} (suc n) g f j = ground (arith, update_all_lem n g f j, update_all_lem n g f n)
