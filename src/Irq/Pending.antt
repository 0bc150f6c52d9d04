-- ===== src/Irq/Pending.antt =====
-- Which interrupts are pending (kernel/src/irq.c).
use moonlight_os.Prelude.{
  ℕ, ◌%◌, ◌^◌, ◌<◌, ◌≡◌, sym, ◌∙◌, arith, true, ap, Array, ◌&&◌, ◌==◌, ◌!=◌, if◌then◌else◌, bit_or,
}
use moonlight_os.Prelude.Bits.{bit}
use moonlight_os.Prelude.BitOr.{bit_lem, bit-bit_or, bit-le, bit-pow}
use moonlight_os.Types.{ok}
use moonlight_os.Cap.{Cap, cap_irq, low_word}
use moonlight_os.Irq.{IrqEntry, IrqState, bind, unbind, handle, is_pending, max_irqs}

-- The bit of a line.
is_pending-bit :
    (s : IrqState) (i : ℕ) → i < max_irqs → is_pending s i ≡ (bit s.pending_mask i != 0)
unfolding is_pending
is_pending-bit s i h =
    let line : i % 64 ≡ i = omega arith in
    let shifted = bit_lem s.pending_mask i in rw (line, ← shifted) (ground arith)

handle-mask :
    (s : IrqState) (irq : ℕ)
    → irq < max_irqs
    → (handle s irq).pending_mask
      ≡ (if (s.irqs irq).bound then bit_or s.pending_mask (2 ^ irq) else s.pending_mask)
unfolding handle
handle-mask s irq h = let line : irq % 64 ≡ irq = omega arith in rw line (ground arith)

-- An interrupt on a bound line makes that line pending and leaves every other line as it was; on a line
-- that is not bound it changes nothing.
pub handle_lem :
    (s : IrqState) (irq i : ℕ)
    → irq < max_irqs
    → i < max_irqs
    → is_pending (handle s irq) i
      ≡ (if (s.irqs irq).bound && (irq == i) then true else is_pending s i)
handle_lem s irq i h hi =
    rw (is_pending-bit (handle s irq) i hi, is_pending-bit s i hi, handle-mask s irq h)
      (ground
        (arith, bit-bit_or s.pending_mask (2 ^ irq) i, bit-pow irq i, bit-le s.pending_mask i))

handle-entries : (s : IrqState) (irq : ℕ) → (handle s irq).irqs ≡ s.irqs
unfolding handle
handle-entries s irq = ground arith

rebind_mask :
    (s : IrqState) (cap : Cap) (irq tcb ntfn badge : ℕ)
    → irq < max_irqs
    → (s.irqs irq).bound ≡ true
    → cap.type ≡ cap_irq
    → cap.is_valid ≡ true
    → low_word cap.u ≡ irq
    → let s₁ = handle s irq in
      let (e₂, s₂) = unbind s₁ irq in
      let (e₃, s₃) = bind s₂ cap tcb ntfn badge in
      (e₂ ≡ ok) × (e₃ ≡ ok) × ((s₃.irqs irq).owner_tcb ≡ tcb) × (s₃.pending_mask ≡ s₁.pending_mask)
unfolding unbind bind
rebind_mask s cap irq tcb ntfn badge h bound type valid line =
    rw line (ground (arith, ap (λ (f : Array IrqEntry). (f irq).bound) (handle-entries s irq)))

-- Releasing a line does not clear its pending bit: after an interrupt on a bound line, its release, and a
-- new binding by a valid capability for it, the new owner finds an interrupt pending that is not its own.
pub rebind-pending :
    (s : IrqState) (cap : Cap) (irq tcb ntfn badge : ℕ)
    → irq < max_irqs
    → (s.irqs irq).bound ≡ true
    → cap.type ≡ cap_irq
    → cap.is_valid ≡ true
    → low_word cap.u ≡ irq
    → let s₁ = handle s irq in
      let (e₂, s₂) = unbind s₁ irq in
      let (e₃, s₃) = bind s₂ cap tcb ntfn badge in
      (e₂ ≡ ok) × (e₃ ≡ ok) × ((s₃.irqs irq).owner_tcb ≡ tcb) × (is_pending s₃ irq ≡ true)
rebind-pending s cap irq tcb ntfn badge h bound type valid line =
    let (released, rebound, owner, mask) =
      rebind_mask s cap irq tcb ntfn badge h bound type valid line in
    (
      released,
      rebound,
      owner,
      is_pending-bit _ irq h
          ∙ rw mask
              (sym (is_pending-bit (handle s irq) irq h) ∙ handle_lem s irq irq h h ∙ ground arith),
    )
