-- ===== src/Cnode/Used.antt =====
-- The `used` counter of a capability table against its slots (kernel/src/cnode.c).
use moonlight_os.Prelude.{
  ℕ, ◌+◌, ◌≤◌, ◌<◌, ◌≡◌, ◌≢◌, sym, ◌∙◌, ap, arith, ==_refl, ne→==, ◌⊎◌, true, false, some, Array,
  set, count, count-le, count-set, ◌==◌, inl, inr, Bool-cases,
}
use moonlight_os.Types.{ok}
use moonlight_os.Cap.{Cap, zero_cap, max_caps_per_cnode}
use moonlight_os.Cnode.{Cnode, Store, insert, copy, mint, remove, transfer, move, delete}
use moonlight_os.Cnode.Slots.{copy-CopyRun, mint-MintRun, move-MoveRun, lookup-IsFound}

abbrev pub valid_slots : Array Cap → ℕ
valid_slots slots = count (λ i. (slots i).is_valid) max_caps_per_cnode

-- The counter is the number of valid slots.
abbrev pub IsCounted : Cnode → Type 0
IsCounted cn = cn.used ≡ valid_slots cn.slots

-- Filling an empty slot adds one valid slot; clearing a valid one takes one away.
valid_slots-fill :
    (slots : Array Cap) (j : ℕ) (c : Cap)
    → j < max_caps_per_cnode
    → (slots j).is_valid ≡ false
    → c.is_valid ≡ true
    → valid_slots (set slots j c) ≡ valid_slots slots + 1
valid_slots-fill slots j c bound empty valid =
    count-set (λ i. (slots i).is_valid) (λ i. (set slots j c i).is_valid) 256 j bound empty
      (ground arith) (λ i ne. ground arith)

valid_slots-clear :
    (slots : Array Cap) (j : ℕ)
    → j < max_caps_per_cnode
    → (slots j).is_valid ≡ true
    → valid_slots slots ≡ valid_slots (set slots j zero_cap) + 1
valid_slots-clear slots j bound valid =
    count-set (λ i. (set slots j zero_cap i).is_valid) (λ i. (slots i).is_valid) 256 j bound
      (ground arith) valid (λ i ne. ground arith)

valid_slots-le : (slots : Array Cap) → valid_slots slots ≤ 256
valid_slots-le slots = count-le (λ i. (slots i).is_valid) 256

insert-IsCounted :
    (m : Store) (d j p : ℕ) (c : Cap)
    → j < max_caps_per_cnode
    → ((m d).slots j).is_valid ≡ false
    → c.is_valid ≡ true
    → IsCounted (m d)
    → IsCounted (m p)
    → IsCounted (insert m d j c p)
insert-IsCounted m d j p c bound empty valid hd hp = elim (Bool-cases (d == p)) [
  | inl same ↦ rw same (
      omega (
        arith,
        valid_slots-fill (m d).slots j c bound empty valid,
        valid_slots-le (set (m d).slots j c),
      ))
  | inr other ↦ rw other hp
]

-- A successful copy keeps the counter of every table right, also when source and destination are one
-- table, if the destination's was.
pub copy-IsCounted :
    (m : Store) (d j s i rights p : ℕ) (m' : Store)
    → copy m (some d) j (some s) i rights ≡ (ok, m')
    → IsCounted (m d)
    → IsCounted (m p)
    → IsCounted (m' p)
copy-IsCounted m d j s i rights p m' e hd hp =
    let r = copy-CopyRun m d j s i rights m' e in
    rw r.result (insert-IsCounted m d j p _ r.in_table r.empty r.derived hd hp)

-- So does a successful mint.
pub mint-IsCounted :
    (m : Store) (d j s i rights badge p : ℕ) (m' : Store)
    → mint m (some d) j (some s) i rights badge ≡ (ok, m')
    → IsCounted (m d)
    → IsCounted (m p)
    → IsCounted (m' p)
mint-IsCounted m d j s i rights badge p m' e hd hp =
    let r = mint-MintRun m d j s i rights badge m' e in
    rw r.result (insert-IsCounted m d j p _ r.in_table r.empty r.derived hd hp)

remove-IsCounted :
    (m : Store) (d i p : ℕ)
    → i < max_caps_per_cnode
    → ((m d).slots i).is_valid ≡ true
    → IsCounted (m d)
    → IsCounted (m p)
    → IsCounted (remove m d i p)
remove-IsCounted m d i p bound valid hd hp = elim (Bool-cases (d == p)) [
  | inl same ↦
      rw same
        (omega (arith, valid_slots-clear (m d).slots i bound valid, valid_slots-le (m d).slots))
  | inr other ↦ rw other hp
]

-- A deletion leaves the tables alone, or clears a valid slot and counts it off.
pub delete-cases :
    (m : Store) (d i : ℕ)
    → ((delete m (some d) i).1 ≡ m)
      ⊎ ((i < max_caps_per_cnode)
          × (((m d).slots i).is_valid ≡ true)
          × ((delete m (some d) i).1 ≡ remove m d i))
unfolding delete
delete-cases m d i = ground arith

-- A deletion, whatever it returns, keeps the counter of every table right, if its own table's was.
pub delete-IsCounted :
    (m : Store) (d i p : ℕ)
    → IsCounted (m d)
    → IsCounted (m p)
    → IsCounted ((delete m (some d) i).1 p)
delete-IsCounted m d i p hd hp = elim (delete-cases m d i) [
  | inl same ↦ rw same hp
  | inr (bound, valid, e) ↦ rw e (remove-IsCounted m d i p bound valid hd hp)
]

-- Within one table a move fills one slot and clears another.
valid_slots-move :
    (slots : Array Cap) (j i : ℕ)
    → j < max_caps_per_cnode
    → i < max_caps_per_cnode
    → (slots j).is_valid ≡ false
    → (slots i).is_valid ≡ true
    → valid_slots (set (set slots j (slots i)) i zero_cap) ≡ valid_slots slots
valid_slots-move slots j i hj hi empty valid = omega (
  arith,
  valid_slots-fill slots j (slots i) hj empty valid,
  valid_slots-clear (set slots j (slots i)) i hi (ground arith),
)

transfer_same :
    (m : Store) (d j i : ℕ)
    → (transfer m d j d i d).slots ≡ set (set (m d).slots j ((m d).slots i)) i zero_cap
transfer_same m d j i = rw (==_refl d)

transfer-used : (m : Store) (d j s i p : ℕ) → (transfer m d j s i p).used ≡ (m p).used
transfer-used m d j s i p = ground arith

-- A successful move within one table keeps its counter right.
pub move-IsCounted :
    (m : Store) (d j i : ℕ) (m' : Store)
    → move m (some d) j (some d) i ≡ some (ok, m')
    → IsCounted (m d)
    → IsCounted (m' d)
move-IsCounted m d j i m' e h =
    let r = move-MoveRun m d j d i m' e in
    let f = lookup-IsFound (m d) i r.slot r.found in
    rw r.result (
      transfer-used m d j d r.slot d
      ∙ h
      ∙ sym (
          ap valid_slots (transfer_same m d j r.slot)
          ∙ valid_slots-move (m d).slots j r.slot r.in_table f.bounded r.empty f.valid))

transfer_target :
    (m : Store) (d j s i : ℕ)
    → d ≢ s
    → (transfer m d j s i d).slots ≡ set (m d).slots j ((m s).slots i)
transfer_target m d j s i ne = rw (ne→== s d (λ e. ne (sym e)), ==_refl d)

transfer_source :
    (m : Store) (d j s i : ℕ) → d ≢ s → (transfer m d j s i s).slots ≡ set (m s).slots i zero_cap
transfer_source m d j s i ne = rw (==_refl s, ne→== d s ne)

-- A successful move between two tables changes neither counter, so both are wrong afterwards if they
-- were right before: the destination holds one more valid slot than it counts, the source one less.
pub move-across :
    (m : Store) (d j s i : ℕ) (m' : Store)
    → d ≢ s
    → move m (some d) j (some s) i ≡ some (ok, m')
    → IsCounted (m d)
    → IsCounted (m s)
    → (valid_slots (m' d).slots ≡ (m' d).used + 1) × ((m' s).used ≡ valid_slots (m' s).slots + 1)
move-across m d j s i m' ne e hd hs =
    let r = move-MoveRun m d j s i m' e in
    let f = lookup-IsFound (m s) i r.slot r.found in
    rw (r.result, transfer-used m d j s r.slot d, transfer-used m d j s r.slot s)
      (
        omega (
          arith,
          ap valid_slots (transfer_target m d j s r.slot ne),
          valid_slots-fill (m d).slots j ((m s).slots r.slot) r.in_table r.empty f.valid,
        ),
        omega (
          arith,
          ap valid_slots (transfer_source m d j s r.slot ne),
          valid_slots-clear (m s).slots r.slot f.bounded f.valid,
        ),
      )
