-- ===== src/Cnode/Derived.antt =====
-- No operation on capability tables gains authority: every valid capability that a history of copies,
-- mints, moves and deletions leaves comes from one that was there, with no more rights.
use moonlight_os.Prelude.{
  ℕ, ◌^◌, ◌<◌, ◌≡◌, ◌⊎◌, refl, ◌∙◌, ap, arith, true, Option, none, some, List, [], ◌∷◌, inl, inr,
  Option-cases,
}
use moonlight_os.Prelude.Bits.{IsSubmask-refl}
use moonlight_os.Types.{KError, ok-cases}
use moonlight_os.Cap.{Cap, zero_cap, derive, max_caps_per_cnode}
use moonlight_os.Cap.Rights.{
  IsAttenuation, IsAttenuation-trans, derive-IsAttenuation, derive-rights-lt,
}
use moonlight_os.Cnode.{Store, insert, remove, copy, mint, transfer, move, delete}
use moonlight_os.Cnode.Slots.{
  copy-CopyRun, mint-MintRun, move-MoveRun, copy-err, mint-err, move-err, move-total,
}
use moonlight_os.Cnode.Used.{delete-cases}

-- A call of cnode.c on tables that exist. The destination of a move is in the table, as it is in every
-- call of the kernel, which masks it by 0xFF.
pub data Call : Type 0 where
  copies : ℕ → ℕ → ℕ → ℕ → ℕ → Call
  mints : ℕ → ℕ → ℕ → ℕ → ℕ → ℕ → Call
  moves : ℕ → ℕ → ℕ → ℕ → Call
  deletes : ℕ → ℕ → Call

-- The rights that a call asks for fit in 32 bits, and a move stays in its table.
abbrev pub IsProper : Call → Type 0
IsProper (copies d j s i rights) = rights < 2 ^ 32
IsProper (mints d j s i rights badge) = rights < 2 ^ 32
IsProper (moves d j s i) = j < max_caps_per_cnode
IsProper (deletes d i) = Unit {0}

-- `none` is an access out of bounds. A call that fails leaves the store that it returns.
unfoldable pub step : Store → Call → Option Store
step m (copies d j s i rights) = some (copy m (some d) j (some s) i rights).1
step m (mints d j s i rights badge) = some (mint m (some d) j (some s) i rights badge).1
step m (moves d j s i) = elim (move m (some d) j (some s) i) [
  | none ↦ none
  | some (e, m') ↦ some m'
]
step m (deletes d i) = some (delete m (some d) i).1

pub run : Store → List Call → Option Store
run m [] = some m
run m (c ∷ cs) = elim (step m c) [ none ↦ none | some m' ↦ run m' cs ]

-- A capability that is valid attenuates one of the store.
abbrev pub Sourced : Store → Cap → Type 0
Sourced m c = c.is_valid ≡ true → (q : ℕ) × (k : ℕ) × IsAttenuation ((m q).slots k) c

-- Every capability of the second store attenuates one of the first.
abbrev pub ComesFrom : Store → Store → Type 0
ComesFrom m m' =
    (p i : ℕ)
    → ((m' p).slots i).is_valid ≡ true
    → (q : ℕ) × (k : ℕ) × IsAttenuation ((m q).slots k) ((m' p).slots i)

abbrev pub AllWords : Store → Type 0
AllWords m = (p i : ℕ) → ((m p).slots i).rights < 2 ^ 32

abbrev pub AllProper : List Call → Type 0
AllProper [] = Unit {0}
AllProper (c ∷ cs) = IsProper c × AllProper cs

IsAttenuation-refl : (c : Cap) → c.is_valid ≡ true → IsAttenuation c c
IsAttenuation-refl c valid = record {
  valid = valid;
  attenuated = IsSubmask-refl 32 c.rights;
  type = refl;
  object = refl;
  hardware = refl;
}

pub Sourced-slot : (m : Store) (p i : ℕ) → Sourced m ((m p).slots i)
Sourced-slot m p i valid = (p, i, IsAttenuation-refl ((m p).slots i) valid)

Sourced-zero : (m : Store) → Sourced m zero_cap
Sourced-zero m valid = cc

pub insert-slots :
    (m : Store) (d j : ℕ) (c : Cap) (p i : ℕ)
    → ((insert m d j c p).slots i ≡ c) ⊎ ((insert m d j c p).slots i ≡ (m p).slots i)
insert-slots m d j c p i = ground arith

remove-slots :
    (m : Store) (d j p i : ℕ)
    → ((remove m d j p).slots i ≡ zero_cap) ⊎ ((remove m d j p).slots i ≡ (m p).slots i)
remove-slots m d j p i = ground arith

transfer-slots :
    (m : Store) (d j s k p i : ℕ)
    → ((transfer m d j s k p).slots i ≡ (m s).slots k)
      ⊎ (((transfer m d j s k p).slots i ≡ zero_cap)
          ⊎ ((transfer m d j s k p).slots i ≡ (m p).slots i))
transfer-slots m d j s k p i = ground arith

-- What one call establishes.
pub record Kept (m m' : Store) : Type 0 where
  pub source : (p i : ℕ) → Sourced m ((m' p).slots i)
  pub words : AllWords m'

Kept-refl : (m : Store) → AllWords m → Kept m m
Kept-refl m w = record { source = Sourced-slot m; words = w }

Kept-insert :
    (m : Store) (d j s k r b : ℕ)
    → AllWords m
    → r < 2 ^ 32
    → Kept m (insert m d j (derive ((m s).slots k) r b))
Kept-insert m d j s k r b w hr = record {
  source = λ p i. elim (insert-slots m d j (derive ((m s).slots k) r b) p i) [
    | inl new ↦ rw new (λ valid. (s, k, derive-IsAttenuation ((m s).slots k) r b (w s k) hr valid))
    | inr old ↦ rw old (Sourced-slot m p i)
  ];
  words = λ p i. elim (insert-slots m d j (derive ((m s).slots k) r b) p i) [
    | inl new ↦ rw new (derive-rights-lt ((m s).slots k) r b (w s k) hr)
    | inr old ↦ rw old (w p i)
  ];
}

Kept-remove : (m : Store) (d j : ℕ) → AllWords m → Kept m (remove m d j)
Kept-remove m d j w = record {
  source = λ p i. elim (remove-slots m d j p i) [
    | inl gone ↦ rw gone (Sourced-zero m)
    | inr old ↦ rw old (Sourced-slot m p i)
  ];
  words = λ p i. elim (remove-slots m d j p i) [
    | inl gone ↦ rw gone (omega arith)
    | inr old ↦ rw old (w p i)
  ];
}

Kept-transfer : (m : Store) (d j s k : ℕ) → AllWords m → Kept m (transfer m d j s k)
Kept-transfer m d j s k w = record {
  source = λ p i. elim (transfer-slots m d j s k p i) [
    | inl new ↦ rw new (Sourced-slot m s k)
    | inr (inl gone) ↦ rw gone (Sourced-zero m)
    | inr (inr old) ↦ rw old (Sourced-slot m p i)
  ];
  words = λ p i. elim (transfer-slots m d j s k p i) [
    | inl new ↦ rw new (w s k)
    | inr (inl gone) ↦ rw gone (omega arith)
    | inr (inr old) ↦ rw old (w p i)
  ];
}

pub copy-Kept :
    (m : Store) (d j s i r : ℕ)
    → AllWords m
    → r < 2 ^ 32
    → Kept m (copy m (some d) j (some s) i r).1
copy-Kept m d j s i r w hr = elim (ok-cases (copy m (some d) j (some s) i r)) [
  | inl good ↦
      let c = copy-CopyRun m d j s i r _ good in rw c.result (Kept-insert m d j s c.slot r _ w hr)
  | inr bad ↦ rw (copy-err m d j s i r bad) (Kept-refl m w)
]

pub mint-Kept :
    (m : Store) (d j s i r b : ℕ)
    → AllWords m
    → r < 2 ^ 32
    → Kept m (mint m (some d) j (some s) i r b).1
mint-Kept m d j s i r b w hr = elim (ok-cases (mint m (some d) j (some s) i r b)) [
  | inl good ↦
      let c = mint-MintRun m d j s i r b _ good in rw c.result (Kept-insert m d j s c.slot r b w hr)
  | inr bad ↦ rw (mint-err m d j s i r b bad) (Kept-refl m w)
]

pub move-Kept :
    (m m' : Store) (d j s i : ℕ) (e : KError)
    → AllWords m
    → move m (some d) j (some s) i ≡ some (e, m')
    → Kept m m'
move-Kept m m' d j s i e w run = elim (ok-cases (e, m')) [
  | inl good ↦
      let c = move-MoveRun m d j s i m' (run ∙ ap some good) in
      rw c.result (Kept-transfer m d j s c.slot w)
  | inr bad ↦ rw (move-err m m' d j s i e run bad) (Kept-refl m w)
]

pub delete-Kept : (m : Store) (d i : ℕ) → AllWords m → Kept m (delete m (some d) i).1
delete-Kept m d i w = elim (delete-cases m d i) [
  | inl same ↦ rw same (Kept-refl m w)
  | inr (_, _, e) ↦ rw e (Kept-remove m d i w)
]

step-Kept :
    (m : Store) (c : Call)
    → AllWords m
    → IsProper c
    → (m' : Store) × (step m c ≡ some m') × Kept m m'
unfolding step
step-Kept m (copies d j s i r) w proper = (_, refl, copy-Kept m d j s i r w proper)
step-Kept m (mints d j s i r b) w proper = (_, refl, mint-Kept m d j s i r b w proper)
step-Kept m (moves d j s i) w proper = elim (Option-cases (move m (some d) j (some s) i)) [
  | inl out ↦ absurd (move-total m d j s i proper out)
  | inr ((e, m'), ran) ↦ (m', rw (ran, step), move-Kept m m' d j s i e w ran)
]
step-Kept m (deletes d i) w proper = (_, refl, delete-Kept m d i w)

-- A history of calls whose moves stay in their tables, with all masks of rights below 2^32, makes no access
-- out of bounds. Every valid capability that it leaves, in any slot of any table, attenuates one that was
-- valid before: it is of the same type, for the same object, with the same hardware capability and no right
-- more.
pub run-ComesFrom :
    (cs : List Call) (m : Store)
    → AllWords m
    → AllProper cs
    → (m' : Store) × (run m cs ≡ some m') × ComesFrom m m'
unfolding run
run-ComesFrom [] m w proper = (m, refl, Sourced-slot m)
run-ComesFrom (c ∷ cs) m w proper =
    let (m₁, first_step, kept) = step-Kept m c w proper.0 in
    let (m₂, rest, comes) = run-ComesFrom cs m₁ kept.words proper.1 in
    (
      m₂,
      rw (first_step, run) rest,
      λ p i valid.
          let (q, k, a) = comes p i valid in
          let (q', k', a') = kept.source q k a.valid in (q', k', IsAttenuation-trans a' a),
    )
