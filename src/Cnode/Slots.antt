-- ===== src/Cnode/Slots.antt =====
-- What the capability lookup of kernel/src/cnode.c promises, and the successful runs of the table
-- operations, taken apart.
use moonlight_os.Prelude.{
  ℕ, ◌%◌, ◌≤◌, ◌<◌, ◌≡◌, ◌≢◌, inl, inr, arith, true, false, none, some, Option-cases,
}
use moonlight_os.Types.{KError, ok, is_ok}
use moonlight_os.Cap.{Cap, derive, has_right, rights_grant, max_caps_per_cnode}
use moonlight_os.Cnode.{
  Cnode, Store, slot_of, guard_fails, lookup, insert, copy_from, copy, mint_from, mint, transfer,
  move,
}

-- A lookup that succeeds: the slot is the decoded one, in the table, valid and tagged.
pub record IsFound (cn : Cnode) (idx slot : ℕ) : Type 0 where
  pub decoded : slot ≡ slot_of cn idx
  pub bounded : slot < max_caps_per_cnode
  pub valid : (cn.slots slot).is_valid ≡ true
  pub tagged : (cn.slots slot).hw_cap.tag ≡ true
  pub radix : (0 < cn.radix) × (cn.radix ≤ 8)
  pub guarded : guard_fails cn idx ≡ false

-- A lookup returns a slot only if the index decodes to it, it is in the table, and it holds a valid,
-- tagged capability.
pub lookup-IsFound : (cn : Cnode) (idx slot : ℕ) → lookup cn idx ≡ some slot → IsFound cn idx slot
unfolding lookup
lookup-IsFound cn idx slot e = ground arith

-- In a table of 256 slots without a guard, an index out of the table stands for the slot at its low
-- eight bits.
pub lookup-mod :
    (cn : Cnode) (idx : ℕ)
    → cn.radix ≡ 8
    → cn.guard_size ≡ 0
    → lookup cn idx ≡ lookup cn (idx % 256)
unfolding lookup
lookup-mod cn idx radix guard = let same : idx % 256 % 256 ≡ idx % 256 = omega arith in ground arith

-- A successful copy: the slot of its source, and the store that it leaves.
pub record CopyRun (m : Store) (d j s i rights : ℕ) (m' : Store) : Type 0 where
  pub slot : ℕ
  pub found : lookup (m s) i ≡ some slot
  pub in_table : j < max_caps_per_cnode
  pub empty : ((m d).slots j).is_valid ≡ false
  pub derived : (derive ((m s).slots slot) rights ((m s).slots slot).badge).is_valid ≡ true
  pub result : m' ≡ insert m d j (derive ((m s).slots slot) rights ((m s).slots slot).badge)

copy_from-ok :
    (m : Store) (d j : ℕ) (sc : Cap) (rights : ℕ) (m' : Store)
    → copy_from m d j sc rights ≡ (ok, m')
    → (((m d).slots j).is_valid ≡ false)
      × ((derive sc rights sc.badge).is_valid ≡ true)
      × (m' ≡ insert m d j (derive sc rights sc.badge))
unfolding copy_from
copy_from-ok m d j sc rights m' e = ground arith

copy-from :
    (m : Store) (d j s i rights k : ℕ) (m' : Store)
    → lookup (m s) i ≡ some k
    → copy m (some d) j (some s) i rights ≡ (ok, m')
    → (j < max_caps_per_cnode) × (copy_from m d j ((m s).slots k) rights ≡ (ok, m'))
unfolding copy
copy-from m d j s i rights k m' found e = ground arith

copy-missing :
    (m : Store) (d j s i rights : ℕ) (m' : Store)
    → lookup (m s) i ≡ none
    → copy m (some d) j (some s) i rights ≢ (ok, m')
unfolding copy
copy-missing m d j s i rights m' missing e = ground arith

-- A copy that returns ERR_OK found its source and filled an empty slot with the derived capability.
pub copy-CopyRun :
    (m : Store) (d j s i rights : ℕ) (m' : Store)
    → copy m (some d) j (some s) i rights ≡ (ok, m')
    → CopyRun m d j s i rights m'
copy-CopyRun m d j s i rights m' e = elim (Option-cases (lookup (m s) i)) [
  | inl missing ↦ absurd (copy-missing m d j s i rights m' missing e)
  | inr (k, found) ↦
      let (bound, run) = copy-from m d j s i rights k m' found e in
      let (empty, derived, result) = copy_from-ok m d j ((m s).slots k) rights m' run in
      record {
        slot = k;
        found = found;
        in_table = bound;
        empty = empty;
        derived = derived;
        result = result;
      }
]

-- A successful mint.
pub record MintRun (m : Store) (d j s i rights badge : ℕ) (m' : Store) : Type 0 where
  pub slot : ℕ
  pub found : lookup (m s) i ≡ some slot
  pub in_table : j < max_caps_per_cnode
  pub grant : has_right ((m s).slots slot) rights_grant ≡ true
  pub empty : ((m d).slots j).is_valid ≡ false
  pub derived : (derive ((m s).slots slot) rights badge).is_valid ≡ true
  pub result : m' ≡ insert m d j (derive ((m s).slots slot) rights badge)

mint_from-ok :
    (m : Store) (d j : ℕ) (sc : Cap) (rights badge : ℕ) (m' : Store)
    → mint_from m d j sc rights badge ≡ (ok, m')
    → (has_right sc rights_grant ≡ true)
      × (((m d).slots j).is_valid ≡ false)
      × ((derive sc rights badge).is_valid ≡ true)
      × (m' ≡ insert m d j (derive sc rights badge))
unfolding mint_from
mint_from-ok m d j sc rights badge m' e = ground arith

mint-from :
    (m : Store) (d j s i rights badge k : ℕ) (m' : Store)
    → lookup (m s) i ≡ some k
    → mint m (some d) j (some s) i rights badge ≡ (ok, m')
    → (j < max_caps_per_cnode) × (mint_from m d j ((m s).slots k) rights badge ≡ (ok, m'))
unfolding mint
mint-from m d j s i rights badge k m' found e = ground arith

mint-missing :
    (m : Store) (d j s i rights badge : ℕ) (m' : Store)
    → lookup (m s) i ≡ none
    → mint m (some d) j (some s) i rights badge ≢ (ok, m')
unfolding mint
mint-missing m d j s i rights badge m' missing e = ground arith

-- A mint that returns ERR_OK also had the grant right on its source.
pub mint-MintRun :
    (m : Store) (d j s i rights badge : ℕ) (m' : Store)
    → mint m (some d) j (some s) i rights badge ≡ (ok, m')
    → MintRun m d j s i rights badge m'
mint-MintRun m d j s i rights badge m' e = elim (Option-cases (lookup (m s) i)) [
  | inl missing ↦ absurd (mint-missing m d j s i rights badge m' missing e)
  | inr (k, found) ↦
      let (bound, run) = mint-from m d j s i rights badge k m' found e in
      let (grant, empty, derived, result) =
        mint_from-ok m d j ((m s).slots k) rights badge m' run in
      record {
        slot = k;
        found = found;
        in_table = bound;
        grant = grant;
        empty = empty;
        derived = derived;
        result = result;
      }
]

-- A successful move.
pub record MoveRun (m : Store) (d j s i : ℕ) (m' : Store) : Type 0 where
  pub slot : ℕ
  pub found : lookup (m s) i ≡ some slot
  pub in_table : j < max_caps_per_cnode
  pub empty : ((m d).slots j).is_valid ≡ false
  pub result : m' ≡ transfer m d j s slot

move-found :
    (m : Store) (d j s i k : ℕ) (m' : Store)
    → lookup (m s) i ≡ some k
    → move m (some d) j (some s) i ≡ some (ok, m')
    → (j < max_caps_per_cnode) × (((m d).slots j).is_valid ≡ false) × (m' ≡ transfer m d j s k)
unfolding move
move-found m d j s i k m' found e = ground arith

move-missing :
    (m : Store) (d j s i : ℕ) (m' : Store)
    → lookup (m s) i ≡ none
    → move m (some d) j (some s) i ≢ some (ok, m')
unfolding move
move-missing m d j s i m' missing e = ground arith

-- A move that returns ERR_OK found its source and an empty destination in the table.
pub move-MoveRun :
    (m : Store) (d j s i : ℕ) (m' : Store)
    → move m (some d) j (some s) i ≡ some (ok, m')
    → MoveRun m d j s i m'
move-MoveRun m d j s i m' e = elim (Option-cases (lookup (m s) i)) [
  | inl missing ↦ absurd (move-missing m d j s i m' missing e)
  | inr (k, found) ↦
      let (bound, empty, result) = move-found m d j s i k m' found e in
      record { slot = k; found = found; in_table = bound; empty = empty; result = result }
]

-- A call that fails leaves every table as it was.
pub copy-err :
    (m : Store) (d j s i rights : ℕ)
    → is_ok (copy m (some d) j (some s) i rights).0 ≡ false
    → (copy m (some d) j (some s) i rights).1 ≡ m
unfolding copy copy_from
copy-err m d j s i rights e = ground arith

pub mint-err :
    (m : Store) (d j s i rights badge : ℕ)
    → is_ok (mint m (some d) j (some s) i rights badge).0 ≡ false
    → (mint m (some d) j (some s) i rights badge).1 ≡ m
unfolding mint mint_from
mint-err m d j s i rights badge e = ground arith

pub move-err :
    (m m' : Store) (d j s i : ℕ) (e : KError)
    → move m (some d) j (some s) i ≡ some (e, m')
    → is_ok e ≡ false
    → m' ≡ m
unfolding move
move-err m m' d j s i e run bad = ground arith

-- A move to a slot of the table makes no access out of bounds.
pub move-total :
    (m : Store) (d j s i : ℕ) → j < max_caps_per_cnode → move m (some d) j (some s) i ≢ none
unfolding move
move-total m d j s i bound = ground arith
