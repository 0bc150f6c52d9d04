-- ===== src/Cap.antt =====
-- kernel/include/cap.h and kernel/src/cap.c: capabilities, their derivation and retype.
pub mod Rights
pub mod Retype
use moonlight_os.Prelude.{
  ℕ, ◌+◌, ◌/◌, ◌%◌, ◌^◌, Bool, true, false, not, ◌==◌, ◌!=◌, ltb, if◌then◌else◌, bit_and, add64,
  add32, sub32, sub64,
}
use moonlight_os.Prelude.Bits.{bit_not}
use moonlight_os.Cheri.{SimCap, zero_sim_cap, otype_frame}

abbrev pub max_caps_per_cnode : ℕ
max_caps_per_cnode = 256

abbrev pub rights_read : ℕ
rights_read = 1

abbrev pub rights_write : ℕ
rights_write = 2

abbrev pub rights_grant : ℕ
rights_grant = 4

-- `cap_type_t`. System calls cast any number to it, so a type is a number.
abbrev pub cap_null : ℕ
cap_null = 0

abbrev pub cap_untyped : ℕ
cap_untyped = 1

abbrev pub cap_cnode : ℕ
cap_cnode = 2

abbrev pub cap_tcb : ℕ
cap_tcb = 3

abbrev pub cap_vspace : ℕ
cap_vspace = 4

abbrev pub cap_frame : ℕ
cap_frame = 5

abbrev pub cap_endpoint : ℕ
cap_endpoint = 6

abbrev pub cap_notification : ℕ
cap_notification = 7

abbrev pub cap_irq : ℕ
cap_irq = 8

abbrev pub cap_iommu : ℕ
cap_iommu = 9

abbrev pub cap_sched_context : ℕ
cap_sched_context = 10

abbrev pub cap_time_partition : ℕ
cap_time_partition = 11

-- The union `u` of `cap_t`, as the 64-bit words of its storage (little endian): its members overlap,
-- so a value written as one member is read as another.
pub record CapUnion : Type 0 where
  pub word0 : ℕ
  pub word1 : ℕ
  pub word2 : ℕ
  pub word3 : ℕ

abbrev pub zero_union : CapUnion
zero_union = record { word0 = 0; word1 = 0; word2 = 0; word3 = 0 }

-- `u.untyped.paddr`, `u.frame.paddr`, `u.tcb.tcb_ptr`, `u.vspace.root_pt` and `u.endpoint.ep_ptr` are
-- all the first word.
abbrev pub pointer : CapUnion → ℕ
pointer u = u.word0

-- `u.untyped.size`
abbrev pub untyped_size : CapUnion → ℕ
untyped_size u = u.word1

-- `u.frame.perms`
abbrev pub frame_perms : CapUnion → ℕ
frame_perms u = u.word1 % 256

-- `u.frame.color`
abbrev pub frame_color : CapUnion → ℕ
frame_color u = u.word1 / 2 ^ 16 % 2 ^ 16

-- `u.irq.irq`, `u.iommu.dev_id`
abbrev pub low_word : CapUnion → ℕ
low_word u = u.word0 % 2 ^ 32

-- `cap_t`
pub record Cap : Type 0 where
  pub type : ℕ
  pub rights : ℕ
  pub badge : ℕ
  pub is_sealed : Bool
  pub is_valid : Bool
  pub color : ℕ
  pub u : CapUnion
  pub hw_cap : SimCap

-- `(cap_t){0}`
abbrev pub zero_cap : Cap
zero_cap = record {
  type = 0;
  rights = 0;
  badge = 0;
  is_sealed = false;
  is_valid = false;
  color = 0;
  u = zero_union;
  hw_cap = zero_sim_cap;
}

-- `cap_has_right`
unfoldable pub has_right : Cap → ℕ → Bool
has_right c r = bit_and c.rights r == r

-- `cap_is_valid`, of a pointer that is not NULL
unfoldable pub is_valid : Cap → Bool
is_valid c =
    if not c.is_valid
    then false
    else if c.type == cap_null
    then false
    else if not c.hw_cap.tag
    then false
    else true

-- `cap_derive`
unfoldable pub derive : Cap → ℕ → ℕ → Cap
derive parent new_rights new_badge =
    if bit_and new_rights (bit_not 32 parent.rights) != 0
    then record parent { is_valid = false }
    else record parent { rights = new_rights; badge = new_badge }

-- `cap_can_retype`
unfoldable pub can_retype : Cap → ℕ → ℕ → Bool
can_retype untyped new_type size =
    if untyped.type != cap_untyped
    then false
    else if not untyped.is_valid
    then false
    else if ltb (untyped_size untyped.u) size
    then false
    else if new_type == cap_untyped
    then false
    else if bit_and size (sub64 size 1) != 0
    then false
    else if ltb size 4096
    then false
    else true

-- `OTYPE_FRAME + (new_type - CAP_FRAME)` on `uint32_t`
abbrev pub otype_of : ℕ → ℕ
otype_of new_type = add32 otype_frame (sub32 new_type cap_frame)

-- `cap_retype`
unfoldable pub retype : Cap → ℕ → ℕ → ℕ → Cap
retype untyped new_type paddr size =
    if not (can_retype untyped new_type size) then zero_cap else record zero_cap {
      type = new_type;
      rights = 0xF;
      is_valid = true;
      is_sealed = true;
      u = record zero_union { word0 = paddr };
      hw_cap = record zero_sim_cap {
        base = paddr;
        top = add64 paddr size;
        addr = paddr;
        tag = true;
        sealed = true;
        otype = otype_of new_type;
      };
    }
