-- ===== src/Elf/Load.antt =====
-- What kernel/src/elf.c accepts.
use moonlight_os.Prelude.{
  ℕ, zero, suc, ◌+◌, ◌-◌, ◌*◌, ◌^◌, ◌≤◌, ◌<◌, ◌≡◌, ◌≢◌, ◌⊎◌, inl, inr, refl, ◌∙◌, arith, Bool, true,
  false, Array, ◌==◌, ltb, Bool-cases, lt_or_eq, add64, ltb→lt, le→ltb, lt→ltb,
}
use mathlib.Core.Path.{subst}
use moonlight_os.Elf.{
  Header, Phdr, phdr, header, is_valid, at_phdr, phdr_size, Loaded, fault, rejected, loaded, lower,
  scan, load,
}

abbrev segment : Array ℕ → Header → ℕ → Phdr
segment b h i = phdr b (at_phdr h.phoff i)

-- A segment to load that ends, on `uint64_t`, above the top of memory.
abbrev is_high : Phdr → Bool
is_high p = ltb 0x9000_0000 (add64 p.paddr p.memsz)

-- The segments from `i` up to `k` that are to be loaded are at or above `low` and end below the top.
abbrev pub AllLow : Array ℕ → Header → ℕ → ℕ → ℕ → Type 0
AllLow b h low i k =
    (j : ℕ)
    → i ≤ j
    → j < k
    → (segment b h j).type ≡ 1
    → (low ≤ (segment b h j).vaddr)
      × (add64 (segment b h j).paddr (segment b h j).memsz ≤ 0x9000_0000)

-- The lowest address is that of one of these segments, or the one at the start.
abbrev pub IsLowest : Array ℕ → Header → ℕ → ℕ → ℕ → ℕ → Type 0
IsLowest b h first low i k =
    (low ≡ first)
    ⊎ ((j : ℕ) × (i ≤ j) × (j < k) × ((segment b h j).type ≡ 1) × (low ≡ (segment b h j).vaddr))

-- What a result of the loop says.
abbrev pub Explains : Array ℕ → ℕ → Header → ℕ → ℕ → ℕ → Loaded → Type 0
Explains b size h n i first fault =
    (j : ℕ) × (i ≤ j) × (j < i + n) × (size < at_phdr h.phoff j + phdr_size)
Explains b size h n i first rejected =
    (j : ℕ) × (i ≤ j)
    × (j < i + n)
    × ((segment b h j).type ≡ 1)
    × (0x9000_0000 < add64 (segment b h j).paddr (segment b h j).memsz)
Explains b size h n i first (loaded entry low) =
    (entry ≡ h.entry) × (low ≤ first) × AllLow b h low i (i + n) × IsLowest b h first low i (i + n)

Explains-skip :
    (b : Array ℕ) (size : ℕ) (h : Header) (n i first : ℕ) (r : Loaded)
    → ((segment b h i).type == 1) ≡ false
    → Explains b size h n (i + 1) first r
    → Explains b size h (suc n) i first r
Explains-skip b size h n i first fault e (j, lo, hi, out) = (j, omega arith, omega arith, out)
Explains-skip b size h n i first rejected e (j, lo, hi, t, high) =
    (j, omega arith, omega arith, t, high)
Explains-skip b size h n i first (loaded entry low) e (same, below, all, least) = (
  same,
  below,
  λ j lo hi t. elim (lt_or_eq i j (omega arith)) [
    | inl here ↦ let other : (segment b h i).type ≡ 1 = rw here t in absurd (ground arith)
    | inr later ↦ all j (omega arith) (omega arith) t
  ],
  elim least [
    | inl start ↦ inl start
    | inr (j, lo, hi, t, at) ↦ inr (j, omega arith, omega arith, t, at)
  ],
)

Explains-take :
    (b : Array ℕ) (size : ℕ) (h : Header) (n i first : ℕ) (r : Loaded)
    → ((segment b h i).type == 1) ≡ true
    → is_high (segment b h i) ≡ false
    → Explains b size h n (i + 1) (lower (segment b h i) first) r
    → Explains b size h (suc n) i first r
Explains-take b size h n i first fault e s (j, lo, hi, out) = (j, omega arith, omega arith, out)
Explains-take b size h n i first rejected e s (j, lo, hi, t, high) =
    (j, omega arith, omega arith, t, high)
Explains-take b size h n i first (loaded entry low) e s (same, below, all, least) = (
  same,
  ground arith,
  λ j lo hi t. elim (lt_or_eq i j (omega arith)) [
    | inl here ↦ rw (← here) (ground arith)
    | inr later ↦ all j (omega arith) (omega arith) t
  ],
  elim least [
    | inl start ↦ elim (Bool-cases (ltb (segment b h i).vaddr first)) [
      | inl less ↦ inr (i, omega arith, omega arith, ground arith, start ∙ rw less refl)
      | inr more ↦ inl (start ∙ rw more refl)
    ]
    | inr (j, lo, hi, t, at) ↦ inr (j, omega arith, omega arith, t, at)
  ],
)

module _ (b : Array ℕ) (size : ℕ) (h : Header) (n i first : ℕ) where
  scan-out : ltb size (at_phdr h.phoff i + phdr_size) ≡ true → scan b size h (suc n) i first ≡ fault
  unfolding scan
  scan-out out = rw (out, scan) refl

  module _ (inside : ltb size (at_phdr h.phoff i + phdr_size) ≡ false) where
    scan-skip :
        ((segment b h i).type == 1) ≡ false
        → scan b size h (suc n) i first ≡ scan b size h n (i + 1) first
    unfolding scan
    scan-skip other = rw (inside, scan) (rw (other, scan) refl)

    scan-high :
        ((segment b h i).type == 1) ≡ true
        → is_high (segment b h i) ≡ true
        → scan b size h (suc n) i first ≡ rejected
    unfolding scan
    scan-high here high = rw (inside, scan) (rw (here, scan) (rw (high, scan) refl))

    scan-take :
        ((segment b h i).type == 1) ≡ true
        → is_high (segment b h i) ≡ false
        → scan b size h (suc n) i first ≡ scan b size h n (i + 1) (lower (segment b h i) first)
    unfolding scan
    scan-take here low = rw (inside, scan) (rw (here, scan) (rw (low, scan) refl))

scan-Explains :
    (b : Array ℕ) (size : ℕ) (h : Header) (n i first : ℕ)
    → Explains b size h n i first (scan b size h n i first)
unfolding scan
scan-Explains b size h zero i first = (refl, omega arith, λ j lo hi. absurd (omega arith), inl refl)
scan-Explains b size h (suc n) i first =
    elim (Bool-cases (ltb size (at_phdr h.phoff i + phdr_size))) [
      | inl out ↦ rw (scan-out b size h n i first out) (i, omega arith, omega arith, ltb→lt _ _ out)
      | inr inside ↦ elim (Bool-cases ((segment b h i).type == 1)) [
        | inl here ↦ elim (Bool-cases (is_high (segment b h i))) [
          | inl high ↦
              rw (scan-high b size h n i first inside here high)
                (i, omega arith, omega arith, ground arith, ltb→lt _ _ high)
          | inr low ↦ rw (scan-take b size h n i first inside here low) (
              Explains-take b size h n i first _ here low
                (scan-Explains b size h n (i + 1) (lower (segment b h i) first)))
        ]
        | inr other ↦
            rw (scan-skip b size h n i first inside other)
              (Explains-skip b size h n i first _ other (scan-Explains b size h n (i + 1) first))
      ]
    ]

-- The file starts with a valid header, and its table, on `uint64_t`, ends inside the data.
abbrev pub HasTable : Array ℕ → ℕ → Type 0
HasTable b size =
    (is_valid b size ≡ true) × (add64 (header b).phoff ((header b).phnum * phdr_size) ≤ size)

-- What `elf_load` says of a file.
abbrev pub LoadExplains : Array ℕ → ℕ → Loaded → Type 0
LoadExplains b size fault =
    HasTable b size × Explains b size (header b) (header b).phnum 0 (2 ^ 64 - 1) fault
LoadExplains b size rejected =
    (¬ HasTable b size) ⊎ Explains b size (header b) (header b).phnum 0 (2 ^ 64 - 1) rejected
LoadExplains b size (loaded entry low) =
    HasTable b size × Explains b size (header b) (header b).phnum 0 (2 ^ 64 - 1) (loaded entry low)

table-Explains :
    (b : Array ℕ) (size : ℕ) (r : Loaded)
    → HasTable b size
    → Explains b size (header b) (header b).phnum 0 (2 ^ 64 - 1) r
    → LoadExplains b size r
table-Explains b size fault t e = (t, e)
table-Explains b size rejected t e = inr e
table-Explains b size (loaded entry low) t e = (t, e)

-- A file that is accepted has a valid header and a table that ends inside the data, every segment to load ends
-- below 0x90000000 on `uint64_t`, and the two results are the entry of the header and the lowest address of
-- these segments. One that is rejected has no such table or a segment that ends above. A read outside the data
-- happens only for a header of the table that ends behind it.
pub load-Explains : (b : Array ℕ) (size : ℕ) → LoadExplains b size (load b size)
unfolding load
load-Explains b size = elim (Bool-cases (is_valid b size)) [
  | inl good ↦
      rw good
        (elim (Bool-cases (ltb size (add64 (header b).phoff ((header b).phnum * phdr_size)))) [
          | inl large ↦ rw large (inl (λ t. absurd (omega (arith, t.1, ltb→lt _ _ large))))
          | inr inside ↦ rw inside (
              table-Explains b size _ (good, ground arith)
                (scan-Explains b size (header b) (header b).phnum 0 (2 ^ 64 - 1)))
        ])
  | inr bad ↦ rw bad (inl (λ t. absurd (ground arith)))
]

-- Where the table does not wrap, `elf_load` reads no byte outside the data.
pub load-ne-fault :
    (b : Array ℕ) (size : ℕ)
    → (header b).phoff + (header b).phnum * phdr_size < 2 ^ 64
    → load b size ≢ fault
load-ne-fault b size fits e =
    let (table, (j, lo, hi, out)) = subst (λ r. LoadExplains b size r) (e) (load-Explains b size) in
    let ends = table.1 in omega arith

scan-out_some :
    (b : Array ℕ) (size : ℕ) (h : Header) (n first : ℕ)
    → 0 < n
    → ltb size (at_phdr h.phoff 0 + phdr_size) ≡ true
    → scan b size h n 0 first ≡ fault
scan-out_some b size h zero first some out = absurd (omega arith)
scan-out_some b size h (suc n) first some out = scan-out b size h n 0 first out

-- A file whose table begins behind the data and ends, after a wrap, inside it passes the check of the table,
-- and is read outside the data.
pub load-wraps :
    (b : Array ℕ) (size : ℕ)
    → is_valid b size ≡ true
    → 0 < (header b).phnum
    → size < (header b).phoff
    → (header b).phoff < 2 ^ 64
    → add64 (header b).phoff ((header b).phnum * phdr_size) ≤ size
    → load b size ≡ fault
unfolding load
load-wraps b size good some_header behind word inside =
    let fine = le→ltb size _ inside in
    rw (good, fine)
      (scan-out_some b size (header b) (header b).phnum (2 ^ 64 - 1) some_header
        (lt→ltb _ _ (omega arith)))
