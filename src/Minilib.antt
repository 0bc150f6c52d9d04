-- ===== src/Minilib.antt =====
-- kernel/src/minilib.c: the memory functions of the freestanding build; memcpy stands with its only checked
-- user in Cheri.
use moonlight_os.Prelude.{
  ℕ, zero, suc, ◌+◌, ◌-◌, ◌%◌, ◌^◌, ◌≤◌, ◌<◌, ◌≡◌, ◌↔◌, inl, inr, refl, arith, Array, set, ◌!=◌,
  leb, ltb, ◌&&◌, if◌then◌else◌, lt_or_eq,
}

-- `memset`, on the bytes from `at`
unfoldable pub memset : Array ℕ → ℕ → ℕ → ℕ → Array ℕ
memset s at c zero = s
memset s at c (suc n) = memset (set s at (c % 256)) (at + 1) c n

-- `memcmp`, from the byte `i`: an `int` in two's complement.
unfoldable pub memcmp : Array ℕ → Array ℕ → ℕ → ℕ → ℕ
memcmp a b zero i = 0
memcmp a b (suc n) i =
    let rest = memcmp a b n (i + 1) in if a i != b i then (a i + 2 ^ 32 - b i) % 2 ^ 32 else rest

pub memset_lem :
    (s : Array ℕ) (at c n j : ℕ)
    → memset s at c n j ≡ (if leb at j && ltb j (at + n) then c % 256 else s j)
unfolding memset
memset_lem s at c zero j = ground arith
memset_lem s at c (suc n) j = ground (arith, memset_lem (set s at (c % 256)) (at + 1) c n j)

-- The bytes from `i` on, `n` of them, are the same.
abbrev pub Agree : Array ℕ → Array ℕ → ℕ → ℕ → Type 0
Agree a b n i = (j : ℕ) → i ≤ j → j < i + n → a j ≡ b j

-- The entries are bytes.
abbrev pub AllBytes : Array ℕ → Type 0
AllBytes a = (j : ℕ) → a j < 256

memcmp-Agree :
    (a b : Array ℕ) (n i : ℕ) → AllBytes a → AllBytes b → memcmp a b n i ≡ 0 → Agree a b n i
unfolding memcmp
memcmp-Agree a b zero i ba bb e j lo hi = absurd (omega arith)
memcmp-Agree a b (suc n) i ba bb e j lo hi = elim (lt_or_eq i j (omega arith)) [
  | inl here ↦ rw (← here) (let x = ba i in let y = bb i in ground arith)
  | inr later ↦
      let x = ba i in
      let y = bb i in memcmp-Agree a b n (i + 1) ba bb (ground arith) j (omega arith) (omega arith)
]

Agree-memcmp : (a b : Array ℕ) (n i : ℕ) → Agree a b n i → memcmp a b n i ≡ 0
unfolding memcmp
Agree-memcmp a b zero i same = refl
Agree-memcmp a b (suc n) i same = ground (
  arith,
  same i (omega arith) (omega arith),
  Agree-memcmp a b n (i + 1) (λ j lo hi. same j (omega arith) (omega arith)),
)

-- `memcmp` of bytes is 0 exactly if they are the same.
pub memcmp-eq-zero_iff :
    (a b : Array ℕ) (n i : ℕ) → AllBytes a → AllBytes b → (memcmp a b n i ≡ 0) ↔ Agree a b n i
memcmp-eq-zero_iff a b n i ba bb = (memcmp-Agree a b n i ba bb, Agree-memcmp a b n i)
