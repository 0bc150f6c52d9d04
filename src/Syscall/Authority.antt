-- ===== src/Syscall/Authority.antt =====
-- The capabilities that an invocation leaves (kernel/src/syscall.c).
use moonlight_os.Prelude.{ℕ, ◌+◌, ◌%◌, ◌^◌, ◌<◌, ◌≡◌, inl, inr, arith, some, Bool-cases}
use moonlight_os.Types.{KError}
use moonlight_os.Cap.{Cap, is_valid, pointer, untyped_size}
use moonlight_os.Cnode.Derived.{AllWords, copy-Kept, mint-Kept, delete-Kept}
use moonlight_os.Tcb.{suspend}
use moonlight_os.Syscall.{
  Kernel, Layout, byte, dest_slot, invoke_copy, invoke_mint, invoke_delete, invoke_bind,
  resume_or_wake,
}
use moonlight_os.Syscall.Invoke.{
  InvokeOp, untyped_retype, cnode_copy, cnode_mint, cnode_move, cnode_delete, tcb_configure,
  tcb_resume, tcb_suspend, vspace_map, vspace_unmap, frame_map, sched_bind, other_op, dispatch,
  handle_invoke,
}
use moonlight_os.Syscall.Invoke.Authority.{
  AllGranted, same-AllGranted, retype_into-AllGranted, from-Kept, invoke_copy-cases,
  invoke_mint-cases, invoke_delete-cases, invoke_move-AllGranted, invoke_tcb-same,
  invoke_configure-same, invoke_map-same, invoke_unmap-same, invoke_bind-same,
}

some-inj {ℓ} : {A : Type ℓ} {a b : A} → some a ≡ some b → b ≡ a
some-inj e = cc

-- What an invocation needs: masks of 32 bits, and an untyped region that does not wrap.
pub record IsInvokable (k : Kernel) (cap : Cap) : Type 0 where
  pub words : AllWords k.cnodes
  pub rights : cap.rights < 2 ^ 32
  pub region : pointer cap.u + untyped_size cap.u < 2 ^ 64

module _ (k : Kernel) (c : Cap) (w : IsInvokable k c) where
  unchanged : (k' : Kernel) → k'.cnodes ≡ k.cnodes → AllGranted k.cnodes c k'.cnodes
  unchanged k' same = rw same (same-AllGranted k.cnodes c)

  dispatch-AllGranted :
      (m : Layout) (op : InvokeOp) (arg1 arg2 arg3 : ℕ) (r : KError × Kernel)
      → dispatch m k c op arg1 arg2 arg3 ≡ some r
      → AllGranted k.cnodes c r.1.cnodes
  unfolding dispatch
  dispatch-AllGranted m untyped_retype arg1 arg2 arg3 r e =
      rw (some-inj e) (retype_into-AllGranted k c (arg2 % 2 ^ 32) arg3 (dest_slot arg1) w.region)
  dispatch-AllGranted m cnode_copy arg1 arg2 arg3 r e = rw (some-inj e) (
      from-Kept k.cnodes c (invoke_copy k c arg2 arg3).1.cnodes _ (invoke_copy-cases k c arg2 arg3)
        (copy-Kept k.cnodes k.root (byte arg3 0) k.root (byte arg2 0) c.rights w.words w.rights))
  dispatch-AllGranted m cnode_mint arg1 arg2 arg3 r e = rw (some-inj e) (
      from-Kept k.cnodes c (invoke_mint k c arg2 arg3).1.cnodes _ (invoke_mint-cases k c arg2 arg3)
        (mint-Kept k.cnodes k.root (byte arg3 0) k.root (byte arg2 0) c.rights (byte arg2 8) w.words
          w.rights))
  dispatch-AllGranted m cnode_move arg1 arg2 arg3 r e =
      invoke_move-AllGranted k c arg2 arg3 r w.words e
  dispatch-AllGranted m cnode_delete arg1 arg2 arg3 r e = rw (some-inj e) (
      from-Kept k.cnodes c (invoke_delete k c arg2).1.cnodes _ (invoke_delete-cases k c arg2)
        (delete-Kept k.cnodes k.root (byte arg2 0) w.words))
  dispatch-AllGranted m tcb_configure arg1 arg2 arg3 r e =
      unchanged r.1 (invoke_configure-same m k c arg1 arg2 arg3 r e)
  dispatch-AllGranted m tcb_resume arg1 arg2 arg3 r e =
      unchanged r.1 (invoke_tcb-same m k c resume_or_wake r e)
  dispatch-AllGranted m tcb_suspend arg1 arg2 arg3 r e =
      unchanged r.1 (invoke_tcb-same m k c suspend r e)
  dispatch-AllGranted m vspace_map arg1 arg2 arg3 r e =
      unchanged r.1 (invoke_map-same m k c arg2 arg3 r e)
  dispatch-AllGranted m vspace_unmap arg1 arg2 arg3 r e =
      unchanged r.1 (invoke_unmap-same m k c arg2 arg3 r e)
  dispatch-AllGranted m frame_map arg1 arg2 arg3 r e =
      unchanged r.1 (invoke_map-same m k c arg2 arg3 r e)
  dispatch-AllGranted m sched_bind arg1 arg2 arg3 r e =
      rw (some-inj e)
        (unchanged (invoke_bind k c arg1 arg2 arg3).1 (invoke_bind-same k c arg1 arg2 arg3))
  dispatch-AllGranted m other_op arg1 arg2 arg3 r e = rw (some-inj e) (same-AllGranted k.cnodes c)

-- After any invocation that makes no access out of bounds, every valid capability of every table attenuates
-- one that the tables held before, or the invoked capability is valid and untyped and the new one is of another
-- type and lies in its region; given masks of 32 bits and a region that does not wrap.
pub handle_invoke-AllGranted :
    (m : Layout) (k : Kernel) (cap : Cap) (op : InvokeOp) (arg1 arg2 arg3 : ℕ) (r : KError × Kernel)
    → IsInvokable k cap
    → handle_invoke m k cap op arg1 arg2 arg3 ≡ some r
    → AllGranted k.cnodes cap r.1.cnodes
unfolding handle_invoke
handle_invoke-AllGranted m k c op arg1 arg2 arg3 r w e = elim (Bool-cases (is_valid c)) [
  | inl good ↦ dispatch-AllGranted k c w m op arg1 arg2 arg3 r (rw (good, handle_invoke) at e)
  | inr bad ↦ let same : r.1.cnodes ≡ k.cnodes = ground arith in unchanged k c w r.1 same
]
