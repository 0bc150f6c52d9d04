-- ===== src/Tests/Syscalls.antt =====
-- Examples for kernel/src/syscall.c.
use moonlight_os.Prelude.{◌%◌, ◌≡◌, ◌⊎◌, refl, arith, true, false, some, set, fill}
use moonlight_os.Types.{KError, is_ok, zero_msg}
use moonlight_os.Cheri.{zero_sim_cap}
use moonlight_os.Cap.{Cap, zero_cap, zero_union, cap_untyped, is_valid}
use moonlight_os.Cnode.{zero_cnode}
use moonlight_os.Tcb.{Tcb, zero_tcb, runnable}
use moonlight_os.Sched.{zero_partition, zero_context}
use moonlight_os.Endpoint.{Endpoint}
use moonlight_os.Mdb.{init}
use moonlight_os.Vspace.{zero_vspace}
use moonlight_os.Syscall.{Kernel, Layout, TrapFrame, retype_into}
use moonlight_os.Syscall.Invoke.{untyped_retype, handle_invoke, dispatch}
use moonlight_os.Syscall.Invoke.Authority.{AllGranted}
use moonlight_os.Syscall.Authority.{IsInvokable, handle_invoke-AllGranted}
use moonlight_os.Syscall.Calls.{sys_of, lookup_cap, syscall_handler}
use moonlight_os.Syscall.Guards.{IsServed, syscall_handler-IsServed}

abbrev untyped : Cap
untyped = record zero_cap {
  type = cap_untyped;
  rights = 15;
  is_valid = true;
  u = record zero_union { word0 = 0x8000_0000; word1 = 0x10000 };
  hw_cap = record zero_sim_cap { tag = true };
}

abbrev endpoint : Endpoint
endpoint = record {
  has_sender = false;
  has_receiver = false;
  sender_tcb = 0;
  receiver_tcb = 0;
  pending_msg = zero_msg;
  pending = false;
  queue = fill 0;
  queue_msgs = fill zero_msg;
  q_head = 0;
  q_tail = 0;
  q_len = 0;
  badge = 0;
}

-- Thread 1 runs, on a context with budget, and announces four capabilities in its buffer.
abbrev caller : Tcb
caller = record zero_tcb {
  id = 1;
  state = runnable;
  cspace = some 0;
  ipc_buffer = record zero_msg { caps = 4 };
}

abbrev kernel : Kernel
kernel = record {
  threads = set (fill zero_tcb) 1 caller;
  endpoints = fill endpoint;
  sched = record {
    partitions = fill zero_partition;
    num_partitions = 1;
    major_frame_start = 0;
    current_partition = 0;
    contexts =
        set (fill zero_context) 0
          (record zero_context { bound = true; tcb_id = 1; remaining_us = 100 });
  };
  mdb = init;
  cnodes =
      set (fill zero_cnode) 0
        (record zero_cnode { radix = 8; slots = set (fill zero_cap) 1 untyped; used = 1 });
  root = 0;
  vspaces = fill zero_vspace;
  tables = record {
    pages = fill (fill 0);
    alloc = record { base = 0; next = 0; top = 0; frames = fill zero_cap; frame_count = 0 };
    pool = 0;
    fallback_next = 0;
  };
}

abbrev layout : Layout
layout = record {
  endpoint_at = λ p. some (p % 64);
  tcb_at = λ p. some (p % 128);
  vspace_at = λ p. some 0;
}

-- Invocation 0 (retype) of the capability at slot 1, of a frame of one page, into slot 7.
abbrev trap : TrapFrame
trap = record { a0 = 1; a1 = 0x700; a2 = 5; a3 = 0x1000; a7 = 5 }

kernel-IsInvokable : IsInvokable kernel untyped
kernel-IsInvokable = record {
  words = λ p i. ground arith;
  rights = omega arith;
  region = omega arith;
}

retyped :
    handle_invoke layout kernel untyped untyped_retype 0x700 5 0x1000
    ≡ some (retype_into kernel untyped 5 0x1000 7)
unfolding handle_invoke dispatch is_valid
retyped = refl

handle_invoke-AllGranted_example :
    AllGranted kernel.cnodes untyped (retype_into kernel untyped 5 0x1000 7).1.cnodes
handle_invoke-AllGranted_example =
    handle_invoke-AllGranted layout kernel untyped untyped_retype 0x700 5 0x1000
      (retype_into kernel untyped 5 0x1000 7) kernel-IsInvokable retyped

syscall_handler-IsServed_example :
    ((e : KError) × (is_ok e ≡ false)
      × (syscall_handler layout kernel 1 trap 0 0 ≡ some (e, trap.a0, kernel)))
    ⊎ IsServed kernel 1 trap (sys_of 5) (lookup_cap kernel caller trap (sys_of 5))
syscall_handler-IsServed_example =
    syscall_handler-IsServed layout kernel 1 trap 0 0 (omega arith) (omega arith)
