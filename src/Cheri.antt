-- ===== src/Cheri.antt =====
-- kernel/include/cheri.h and kernel/src/cheri.c in the build without `__CHERI_PURE_CAPABILITY__`:
-- a hardware capability is a struct that the code checks at run time.
pub mod Bounds
use moonlight_os.Prelude.{
  ℕ, zero, suc, ◌+◌, ◌^◌, Bool, true, false, not, ◌&&◌, ◌||◌, Option, none, some, Array, set, ◌==◌,
  ◌!=◌, ltb, if◌then◌else◌, bit_and, add64, sub64,
}

-- `sim_cap_t`
pub record SimCap : Type 0 where
  pub base : ℕ
  pub top : ℕ
  pub addr : ℕ
  pub perms : ℕ
  pub otype : ℕ
  pub tag : Bool
  pub sealed : Bool

-- `(sim_cap_t){0}`
abbrev pub zero_sim_cap : SimCap
zero_sim_cap = record {
  base = 0;
  top = 0;
  addr = 0;
  perms = 0;
  otype = 0;
  tag = false;
  sealed = false;
}

abbrev pub tag_get : SimCap → Bool
tag_get c = c.tag

abbrev pub base_get : SimCap → ℕ
base_get c = c.base

abbrev pub length_get : SimCap → ℕ
length_get c = sub64 c.top c.base

abbrev pub perm_load : ℕ
perm_load = 1

abbrev pub perm_store : ℕ
perm_store = 2

abbrev pub perm_load_cap : ℕ
perm_load_cap = 8

abbrev pub perm_store_cap : ℕ
perm_store_cap = 16

abbrev pub otype_cnode : ℕ
otype_cnode = 0x100

abbrev pub otype_tcb : ℕ
otype_tcb = 0x101

abbrev pub otype_vspace : ℕ
otype_vspace = 0x102

abbrev pub otype_endpoint : ℕ
otype_endpoint = 0x103

abbrev pub otype_notification : ℕ
otype_notification = 0x104

abbrev pub otype_frame : ℕ
otype_frame = 0x105

abbrev pub otype_sched_context : ℕ
otype_sched_context = 0x106

abbrev pub otype_time_partition : ℕ
otype_time_partition = 0x107

-- `cheri_cap_is_valid`
unfoldable pub cap_is_valid : SimCap → ℕ → ℕ → ℕ → Bool
cap_is_valid cap base len perms =
    if not cap.tag
    then false
    else if cap.sealed
    then false
    else if cap.base != base
    then false
    else if cap.top != add64 base len
    then false
    else if bit_and cap.perms perms != perms
    then false
    else true

-- `memcpy(d, src, n)` of kernel/src/minilib.c, on a memory of bytes. `src` is the source buffer,
-- which the callers never overlap with the destination.
unfoldable pub memcpy : ℕ → (Array ℕ) → ℕ → Array ℕ → Array ℕ
memcpy d src zero mem = mem
memcpy d src (suc n) mem = memcpy (add64 d 1) (λ i. src (i + 1)) n (set mem d (src 0))

-- `cheri_memcpy_capped`: the pointer that it returns (`none` for NULL) and the memory.
unfoldable pub memcpy_capped : SimCap → Array ℕ → ℕ → Array ℕ → Option ℕ × Array ℕ
memcpy_capped dst src len mem =
    if not dst.tag || dst.sealed
    then (none, mem)
    else if ltb dst.top (add64 dst.addr len)
    then (none, mem)
    else if ltb dst.addr dst.base
    then (none, mem)
    else (some dst.addr, memcpy dst.addr src len mem)
