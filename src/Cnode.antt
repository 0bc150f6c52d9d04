-- ===== src/Cnode.antt =====
-- kernel/include/cnode.h and kernel/src/cnode.c: capability tables. The functions take pointers, and
-- two of them may be one table, so they act on a store of tables.
pub mod Slots
pub mod Used
pub mod Derived
use moonlight_os.Prelude.{
  ℕ, ◌+◌, ◌-◌, ◌/◌, ◌%◌, ◌^◌, Bool, true, false, not, ◌&&◌, ◌||◌, Option, none, some, Array, set,
  fill, ◌==◌, ◌!=◌, ltb, leb, if◌then◌else◌, bit_and, add32, sub32,
}
use moonlight_os.Prelude.Bits.{bit_not}
use moonlight_os.Types.{KError, ok, invalid_cap, no_rights, invalid_arg, revoke_needed}
use moonlight_os.Cap.{Cap, zero_cap, derive, has_right, max_caps_per_cnode, rights_grant}

-- `cnode_t`
pub record Cnode : Type 0 where
  pub slots : Array Cap
  pub guard : ℕ
  pub radix : ℕ
  pub guard_size : ℕ
  pub used : ℕ

abbrev pub zero_cnode : Cnode
zero_cnode = record { slots = fill zero_cap; guard = 0; radix = 0; guard_size = 0; used = 0 }

-- The tables in memory, by address; a pointer is `none` for NULL.
abbrev pub Store : Type 0
Store = Array Cnode

abbrev pub Pointer : Type 0
Pointer = Option ℕ

-- `cnode_init`
unfoldable pub init : Store → Pointer → ℕ → ℕ → KError × Store
init m none guard radix = (invalid_arg, m)
init m (some p) guard radix =
    if ltb 8 radix || radix == 0
    then (invalid_arg, m)
    else (ok, set m p (record zero_cnode { guard = guard; radix = radix }))

-- The slot that `cnode_lookup` decodes from an index: the low `radix` bits. With `radix` 8 the code
-- masks by 0xFF once more.
unfoldable pub slot_of : Cnode → ℕ → ℕ
slot_of cn idx = if cn.radix == 8 then idx % 256 else idx % 2 ^ cn.radix

-- `guard_bits != (cn->guard & ((1u << cn->guard_size) - 1))`
abbrev pub guard_fails : Cnode → ℕ → Bool
guard_fails cn idx = ltb 0 cn.guard_size && (idx / 2 ^ cn.radix != cn.guard % 2 ^ cn.guard_size)

-- `cnode_lookup`, of a table: the slot whose capability it points to.
unfoldable pub lookup : Cnode → ℕ → Option ℕ
unfolding slot_of
lookup cn idx =
    if cn.radix == 0 || ltb 8 cn.radix
    then none
    else if guard_fails cn idx
    then none
    else if leb max_caps_per_cnode (slot_of cn idx)
    then none
    else if not (cn.slots (slot_of cn idx)).is_valid
    then none
    else if not (cn.slots (slot_of cn idx)).hw_cap.tag
    then none
    else some (slot_of cn idx)

-- `dst->slots[i] = cap; dst->used++;`
abbrev pub insert : Store → ℕ → ℕ → Cap → Store
insert m d i cap =
    set m d (record (m d) { slots = set (m d).slots i cap; used = add32 (m d).used 1 })

-- The part of `cnode_copy` after the lookup of its source capability.
unfoldable pub copy_from : Store → ℕ → ℕ → Cap → ℕ → KError × Store
copy_from m d dst_idx sc rights =
    if bit_and rights (bit_not 32 sc.rights) != 0
    then (no_rights, m)
    else if not (derive sc rights sc.badge).is_valid
    then (invalid_cap, m)
    else if ((m d).slots dst_idx).is_valid
    then (revoke_needed, m)
    else (ok, insert m d dst_idx (derive sc rights sc.badge))

-- `cnode_copy`
unfoldable pub copy : Store → Pointer → ℕ → Pointer → ℕ → ℕ → KError × Store
copy m none dst_idx src src_idx rights = (invalid_arg, m)
copy m (some d) dst_idx none src_idx rights = (invalid_arg, m)
copy m (some d) dst_idx (some s) src_idx rights =
    if leb max_caps_per_cnode dst_idx || leb max_caps_per_cnode src_idx
    then (invalid_arg, m)
    else elim (lookup (m s) src_idx) [
      | none ↦ (invalid_cap, m)
      | some i ↦ copy_from m d dst_idx ((m s).slots i) rights
    ]

-- The part of `cnode_mint` after the lookup of its source capability.
unfoldable pub mint_from : Store → ℕ → ℕ → Cap → ℕ → ℕ → KError × Store
mint_from m d dst_idx sc rights badge =
    if not (has_right sc rights_grant)
    then (no_rights, m)
    else if ((m d).slots dst_idx).is_valid
    then (revoke_needed, m)
    else if not (derive sc rights badge).is_valid
    then (invalid_cap, m)
    else (ok, insert m d dst_idx (derive sc rights badge))

-- `cnode_mint`
unfoldable pub mint : Store → Pointer → ℕ → Pointer → ℕ → ℕ → ℕ → KError × Store
mint m none dst_idx src src_idx rights badge = (invalid_arg, m)
mint m (some d) dst_idx none src_idx rights badge = (invalid_arg, m)
mint m (some d) dst_idx (some s) src_idx rights badge =
    if leb max_caps_per_cnode dst_idx || leb max_caps_per_cnode src_idx
    then (invalid_arg, m)
    else elim (lookup (m s) src_idx) [
      | none ↦ (invalid_cap, m)
      | some i ↦ mint_from m d dst_idx ((m s).slots i) rights badge
    ]

-- `dst->slots[j] = *sc; memset(sc, 0, sizeof(cap_t));` with `sc` at slot `i` of `s`
abbrev pub transfer : Store → ℕ → ℕ → ℕ → ℕ → Store
transfer m d j s i =
    let m' = set m d (record (m d) { slots = set (m d).slots j ((m s).slots i) }) in
    set m' s (record (m' s) { slots = set (m' s).slots i zero_cap })

-- `cnode_move`. It does not check `dst_idx`: `none` is the access out of the table's bounds.
unfoldable pub move : Store → Pointer → ℕ → Pointer → ℕ → Option (KError × Store)
move m none dst_idx src src_idx = some (invalid_arg, m)
move m (some d) dst_idx none src_idx = some (invalid_arg, m)
move m (some d) dst_idx (some s) src_idx = elim (lookup (m s) src_idx) [
  | none ↦ some (invalid_cap, m)
  | some i ↦
      if leb max_caps_per_cnode dst_idx
      then none
      else if ((m d).slots dst_idx).is_valid
      then some (revoke_needed, m)
      else some (ok, transfer m d dst_idx s i)
]

-- `memset(&cn->slots[idx], 0, sizeof(cap_t)); cn->used--;`
abbrev pub remove : Store → ℕ → ℕ → Store
remove m p idx =
    set m p (record (m p) { slots = set (m p).slots idx zero_cap; used = sub32 (m p).used 1 })

-- `cnode_delete`
unfoldable pub delete : Store → Pointer → ℕ → KError × Store
delete m none idx = (invalid_arg, m)
delete m (some p) idx =
    if leb max_caps_per_cnode idx
    then (invalid_arg, m)
    else if not ((m p).slots idx).is_valid
    then (invalid_cap, m)
    else (ok, remove m p idx)
