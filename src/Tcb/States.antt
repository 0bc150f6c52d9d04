-- ===== src/Tcb/States.antt =====
-- The transitions between the states of a thread (kernel/src/tcb.c).
use moonlight_os.Prelude.{ℕ, ◌≡◌, ◌≢◌, ◌⊎◌, inl, inr, refl, arith, true, false}
use moonlight_os.Types.{ok, is_ok}
use moonlight_os.Cheri.{SimCap}
use moonlight_os.Tcb.{
  State, inactive, runnable, blocked_send, blocked_recv, blocked_reply, Tcb, set_regs, suspend,
  resume, waits_for_ipc, wake_from_ipc,
}

waiting :
    (s : State)
    → ((s ≡ blocked_recv) ⊎ (s ≡ blocked_reply)) × (waits_for_ipc s ≡ true)
      ⊎ (s ≢ blocked_recv) × (s ≢ blocked_reply) × (waits_for_ipc s ≡ false)
waiting blocked_recv = inl (inl refl, refl)
waiting blocked_reply = inl (inr refl, refl)
waiting inactive = inr (λ e. cc, λ e. cc, refl)
waiting runnable = inr (λ e. cc, λ e. cc, refl)
waiting blocked_send = inr (λ e. cc, λ e. cc, refl)

-- A wake-up succeeds exactly for a thread that waits to receive or for a reply. It leaves such a thread
-- runnable with no fault recorded, and any other thread as it was.
pub wake_from_ipc_lem :
    (t : Tcb)
    → (((t.state ≡ blocked_recv) ⊎ (t.state ≡ blocked_reply))
        × (is_ok (wake_from_ipc t).0 ≡ true)
        × ((wake_from_ipc t).1.state ≡ runnable)
        × ((wake_from_ipc t).1.fault_addr ≡ 0)
        × ((wake_from_ipc t).1.fault_type ≡ 0))
      ⊎ ((t.state ≢ blocked_recv)
          × (t.state ≢ blocked_reply)
          × (is_ok (wake_from_ipc t).0 ≡ false)
          × ((wake_from_ipc t).1 ≡ t))
unfolding wake_from_ipc
wake_from_ipc_lem t = elim (waiting t.state) [
  | inl (awaits, yes_waits) ↦ inl (
    awaits,
    rw (yes_waits, wake_from_ipc) refl,
    rw (yes_waits, wake_from_ipc) refl,
    rw (yes_waits, wake_from_ipc) refl,
    rw (yes_waits, wake_from_ipc) refl,
  )
  | inr (receives, replies, no_waits) ↦
      inr (receives, replies, rw (no_waits, wake_from_ipc) refl, rw (no_waits, wake_from_ipc) refl)
]

-- The calls on a thread.
pub data Call : Type 0 where
  suspends resumes_it wakes : Call

abbrev pub after : Tcb → Call → Tcb
after t suspends = suspend t
after t resumes_it = resume t
after t wakes = (wake_from_ipc t).1

-- No call blocks a thread, and a thread that is suspended stays inactive until it is resumed: a
-- wake-up from IPC does not start it.
pub after-inactive :
    (t : Tcb) (c : Call)
    → t.state ≡ inactive
    → ((after t c).state ≡ inactive) ⊎ ((c ≡ resumes_it) × ((after t c).state ≡ runnable))
unfolding suspend resume wake_from_ipc
after-inactive t suspends e = ground arith
after-inactive t resumes_it e = ground arith
after-inactive t wakes e = ground arith

-- Registers are set only with two tagged capabilities, and then nothing but they changes.
pub set_regs_lem :
    (t : Tcb) (pc sp : ℕ) (pcc csp : SimCap)
    → ((pcc.tag ≡ true)
        × (csp.tag ≡ true)
        × (set_regs t pc sp pcc csp ≡ (ok, record t { pc = pc; sp = sp; pcc = pcc; csp = csp })))
      ⊎ (((pcc.tag ≡ false) ⊎ (csp.tag ≡ false))
          × (is_ok (set_regs t pc sp pcc csp).0 ≡ false)
          × ((set_regs t pc sp pcc csp).1 ≡ t))
unfolding set_regs
set_regs_lem t pc sp pcc csp = ground arith
