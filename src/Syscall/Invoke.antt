-- ===== src/Syscall/Invoke.antt =====
-- kernel/src/syscall.c: the dispatch of capability invocations.
pub mod Authority
use moonlight_os.Prelude.{
  ℕ, ◌+◌, ◌*◌, ◌/◌, ◌%◌, ◌^◌, Bool, true, false, not, ◌&&◌, ◌||◌, Option, none, some, Array, set,
  fill, ◌==◌, ◌!=◌, ltb, leb, if◌then◌else◌,
}
use moonlight_os.Types.{
  KError, ok, invalid_cap, no_rights, invalid_arg, partition_denied, wcet_exceeded, code, is_ok,
  ipc_msg_max, ipc_caps_max, IpcMsg, zero_msg,
}
use moonlight_os.Cap.{Cap, is_valid, has_right, pointer, cap_endpoint}
use moonlight_os.Tcb.{
  Tcb, State, inactive, blocked_recv, blocked_reply, max_tcbs, is_runnable, suspend,
}
use moonlight_os.Sched.{max_sched_contexts, wcet_check}
use moonlight_os.Endpoint.{Endpoint, send, recv}
use moonlight_os.Syscall.{
  Kernel, Layout, TrapFrame, byte, find_cap, Result, set_thread, retype_into, dest_slot,
  invoke_copy, invoke_mint, invoke_delete, invoke_move, resume_or_wake, invoke_tcb,
  invoke_configure, invoke_map, invoke_unmap, invoke_bind,
}

-- `invoke_op_t`, and any other number
pub data InvokeOp : Type 0 where
  untyped_retype cnode_copy cnode_mint cnode_move cnode_delete tcb_configure tcb_resume
        tcb_suspend :
      InvokeOp
  vspace_map vspace_unmap frame_map sched_bind other_op : InvokeOp

abbrev pub op_of : ℕ → InvokeOp
op_of n =
    if n == 0
    then untyped_retype
    else if n == 1
    then cnode_copy
    else if n == 2
    then cnode_mint
    else if n == 3
    then cnode_move
    else if n == 4
    then cnode_delete
    else if n == 5
    then tcb_configure
    else if n == 6
    then tcb_resume
    else if n == 7
    then tcb_suspend
    else if n == 8
    then vspace_map
    else if n == 9
    then vspace_unmap
    else if n == 10
    then frame_map
    else if n == 11
    then sched_bind
    else other_op

-- The switch of `handle_invoke`.
unfoldable pub dispatch : Layout → Kernel → Cap → InvokeOp → ℕ → ℕ → ℕ → Result
dispatch m k cap untyped_retype arg1 arg2 arg3 =
    some (retype_into k cap (arg2 % 2 ^ 32) arg3 (dest_slot arg1))
dispatch m k cap cnode_copy arg1 arg2 arg3 = some (invoke_copy k cap arg2 arg3)
dispatch m k cap cnode_mint arg1 arg2 arg3 = some (invoke_mint k cap arg2 arg3)
dispatch m k cap cnode_move arg1 arg2 arg3 = invoke_move k cap arg2 arg3
dispatch m k cap cnode_delete arg1 arg2 arg3 = some (invoke_delete k cap arg2)
dispatch m k cap tcb_configure arg1 arg2 arg3 = invoke_configure m k cap arg1 arg2 arg3
dispatch m k cap tcb_resume arg1 arg2 arg3 = invoke_tcb m k cap resume_or_wake
dispatch m k cap tcb_suspend arg1 arg2 arg3 = invoke_tcb m k cap suspend
dispatch m k cap vspace_map arg1 arg2 arg3 = invoke_map m k cap arg2 arg3
dispatch m k cap vspace_unmap arg1 arg2 arg3 = invoke_unmap m k cap arg2 arg3
dispatch m k cap frame_map arg1 arg2 arg3 = invoke_map m k cap arg2 arg3
dispatch m k cap sched_bind arg1 arg2 arg3 = some (invoke_bind k cap arg1 arg2 arg3)
dispatch m k cap other_op arg1 arg2 arg3 = some (invalid_arg, k)

-- `handle_invoke`, of a capability that is not NULL
unfoldable pub handle_invoke : Layout → Kernel → Cap → InvokeOp → ℕ → ℕ → ℕ → Result
handle_invoke m k cap op arg1 arg2 arg3 =
    if not (is_valid cap) then some (invalid_cap, k) else dispatch m k cap op arg1 arg2 arg3
