-- ===== src/Irq.antt =====
-- kernel/include/irq.h and kernel/src/irq.c: interrupt lines and their pending mask.
pub mod Pending
use moonlight_os.Prelude.{
  ℕ, ◌/◌, ◌%◌, ◌^◌, Bool, true, false, not, Array, set, fill, ◌==◌, ◌!=◌, leb, if◌then◌else◌,
  bit_or,
}
use moonlight_os.Types.{KError, ok, invalid_cap, invalid_arg, revoke_needed}
use moonlight_os.Cap.{Cap, cap_irq, low_word}

abbrev pub max_irqs : ℕ
max_irqs = 64

-- `irq_entry_t`
pub record IrqEntry : Type 0 where
  pub valid : Bool
  pub bound : Bool
  pub irq_num : ℕ
  pub owner_tcb : ℕ
  pub notification_cap : ℕ
  pub badge : ℕ
  pub partition_id : ℕ

abbrev pub zero_entry : IrqEntry
zero_entry = record {
  valid = false;
  bound = false;
  irq_num = 0;
  owner_tcb = 0;
  notification_cap = 0;
  badge = 0;
  partition_id = 0;
}

-- `irq_state_t`; the pending mask is one 64-bit word.
pub record IrqState : Type 0 where
  pub irqs : Array IrqEntry
  pub pending_mask : ℕ

-- `irq_bind`
unfoldable pub bind : IrqState → Cap → ℕ → ℕ → ℕ → KError × IrqState
bind s irq_cap tcb_id ntfn_cptr badge =
    let irq = low_word irq_cap.u in
    if irq_cap.type != cap_irq
    then (invalid_cap, s)
    else if not irq_cap.is_valid
    then (invalid_cap, s)
    else if leb max_irqs irq
    then (invalid_arg, s)
    else if (s.irqs irq).bound
    then (revoke_needed, s)
    else (
      ok,
      record s {
        irqs = set s.irqs irq (record (s.irqs irq) {
          valid = true;
          bound = true;
          irq_num = irq;
          owner_tcb = tcb_id;
          notification_cap = ntfn_cptr;
          badge = badge;
        });
      },
    )

-- `irq_unbind`
unfoldable pub unbind : IrqState → ℕ → KError × IrqState
unbind s irq_num =
    if leb max_irqs irq_num
    then (invalid_arg, s)
    else if not (s.irqs irq_num).bound
    then (invalid_arg, s)
    else (ok, record s { irqs = set s.irqs irq_num zero_entry })

-- `irq_handle`
unfoldable pub handle : IrqState → ℕ → IrqState
handle s irq_num =
    if leb max_irqs irq_num
    then s
    else if not (s.irqs irq_num).bound
    then s
    else record s { pending_mask = bit_or s.pending_mask (2 ^ (irq_num % 64)) }

-- `irq_is_pending`
unfoldable pub is_pending : IrqState → ℕ → Bool
is_pending s irq_num =
    if leb max_irqs irq_num then false else s.pending_mask / 2 ^ (irq_num % 64) % 2 != 0
