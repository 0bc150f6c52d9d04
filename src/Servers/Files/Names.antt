-- ===== src/Servers/Files/Names.antt =====
-- Names in arrays of 32 bytes: strcmp and strncpy as userspace/vfs_server/server.c uses them.
use moonlight_os.Prelude.{
  ℕ, zero, suc, ◌+◌, ◌≤◌, ◌<◌, ◌≡◌, ◌≢◌, ◌&&◌, inl, inr, refl, ◌∙◌, arith, Bool, true, false, Array,
  set, ◌==◌, ltb, leb, if◌then◌else◌, Bool-cases, Option, none, some,
}

-- `strcmp(a, b) == 0` from the index `i`; `none` when `n` bytes are equal without an end.
unfoldable pub streq : Array ℕ → Array ℕ → ℕ → ℕ → Option Bool
streq a b zero i = none
streq a b (suc n) i = elim (a i == b i) [
  | false ↦ some false
  | true ↦ elim (a i == 0) [ true ↦ some true | false ↦ streq a b n (i + 1) ]
]

-- `memset(dst + i, 0, n)`
abbrev zero_from : ℕ → ℕ → Array ℕ → Array ℕ
zero_from n i dst j = if leb i j && ltb j (i + n) then 0 else dst j

-- `strncpy(dst, src, n)`, from the index `i`
unfoldable pub strncpy : Array ℕ → ℕ → ℕ → Array ℕ → Array ℕ
strncpy src zero i dst = dst
strncpy src (suc n) i dst = elim (src i == 0) [
  | true ↦ zero_from (suc n) i dst
  | false ↦ strncpy src n (i + 1) (set dst i (src i))
]

-- A name with an end among its 32 bytes.
abbrev pub IsTerminated : Array ℕ → Type 0
IsTerminated name = (k : ℕ) × (k < 32) × (name k ≡ 0)

strncpy-before :
    (src : Array ℕ) (n i : ℕ) (dst : Array ℕ) (j : ℕ) → j < i → strncpy src n i dst j ≡ dst j
unfolding strncpy
strncpy-before src zero i dst j h = refl
strncpy-before src (suc n) i dst j h = elim (Bool-cases (src i == 0)) [
  | inl ends ↦ rw (ends, strncpy) (ground arith)
  | inr more ↦
      rw (more, strncpy)
        (ground (arith, strncpy-before src n (i + 1) (set dst i (src i)) j (omega arith)))
]

strncpy-here : (src : Array ℕ) (n i : ℕ) (dst : Array ℕ) → strncpy src (suc n) i dst i ≡ src i
unfolding strncpy
strncpy-here src n i dst = elim (Bool-cases (src i == 0)) [
  | inl ends ↦ rw (ends, strncpy) (ground arith)
  | inr more ↦
      rw (more, strncpy)
        (ground (arith, strncpy-before src n (i + 1) (set dst i (src i)) i (omega arith)))
]

module _ (a b : Array ℕ) (n i : ℕ) (same : a i ≡ b i) where
  streq-end : (a i == 0) ≡ true → streq a b (suc n) i ≡ some true
  unfolding streq
  streq-end ends =
      let equal : (a i == b i) ≡ true = ground arith in rw (equal, streq) (rw (ends, streq) refl)

  streq-more : (a i == 0) ≡ false → streq a b (suc n) i ≡ streq a b n (i + 1)
  unfolding streq
  streq-more more =
      let equal : (a i == b i) ≡ true = ground arith in rw (equal, streq) (rw (more, streq) refl)

strncpy-more :
    (src : Array ℕ) (n i : ℕ) (dst : Array ℕ)
    → (src i == 0) ≡ false
    → strncpy src (suc n) i dst ≡ strncpy src n (i + 1) (set dst i (src i))
unfolding strncpy
strncpy-more src n i dst more = rw (more, strncpy) refl

streq-strncpy_from :
    (src : Array ℕ) (n i : ℕ) (dst : Array ℕ) (k : ℕ)
    → i ≤ k
    → k < i + n
    → src k ≡ 0
    → streq (strncpy src n i dst) src n i ≡ some true
streq-strncpy_from src zero i dst k lo hi e = absurd (omega arith)
streq-strncpy_from src (suc n) i dst k lo hi e =
    let here = strncpy-here src n i dst in
    elim (Bool-cases (src i == 0)) [
      | inl ends ↦ streq-end (strncpy src (suc n) i dst) src n i here (ground arith)
      | inr more ↦
          streq-more (strncpy src (suc n) i dst) src n i here (ground arith)
          ∙ rw (strncpy-more src n i dst more) (
              streq-strncpy_from src n (i + 1) (set dst i (src i)) k (ground arith) (omega arith) e)
    ]

-- A comparison with a name with an end does not run past it.
streq-total_from : (a b : Array ℕ) (n i k : ℕ) → i ≤ k → k < i + n → b k ≡ 0 → streq a b n i ≢ none
unfolding streq
streq-total_from a b zero i k lo hi e = absurd (omega arith)
streq-total_from a b (suc n) i k lo hi e = elim (Bool-cases (a i == b i)) [
  | inl equal ↦ elim (Bool-cases (a i == 0)) [
    | inl ends ↦ rw (equal, streq) (rw (ends, streq) (λ h. cc))
    | inr more ↦
        rw (equal, streq)
          (rw (more, streq) (streq-total_from a b n (i + 1) k (ground arith) (omega arith) e))
  ]
  | inr differ ↦ rw (differ, streq) (λ h. cc)
]

pub streq-total : (a b : Array ℕ) → IsTerminated b → streq a b 32 0 ≢ none
streq-total a b (k, h, e) = streq-total_from a b 32 0 k (omega arith) (omega arith) e

-- The copy of a name with an end is equal to it.
pub streq-strncpy :
    (src dst : Array ℕ) → IsTerminated src → streq (strncpy src 32 0 dst) src 32 0 ≡ some true
streq-strncpy src dst (k, h, e) = streq-strncpy_from src 32 0 dst k (omega arith) (omega arith) e
