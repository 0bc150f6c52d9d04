-- ===== src/Boot.antt =====
-- kernel/src/boot.c on the target: what the kernel sets up before it parks.
pub mod Paging
pub mod Schedule
pub mod Processes
use moonlight_os.Prelude.{
  ℕ, ◌+◌, ◌-◌, ◌*◌, ◌/◌, ◌%◌, ◌^◌, Bool, true, false, Option, none, some, Array, set, fill, leb,
  ltb, if◌then◌else◌, not, add64, sub64,
}
use moonlight_os.Types.{KError, ok, is_ok, page_size}
use moonlight_os.Cheri.{zero_sim_cap}
use moonlight_os.Cap.{Cap, zero_cap, zero_union, cap_untyped}
use moonlight_os.Cnode
use moonlight_os.Mdb
use moonlight_os.Cnode.{Cnode, Store}
use moonlight_os.Alloc.{FrameAlloc}
use moonlight_os.Mdb.{MdbTree}
use moonlight_os.Sched
use moonlight_os.Alloc
use moonlight_os.Sched.{SchedState, partition_create}
use moonlight_os.Tcb.{Tcb, TcbTable, zero_tcb, resume}
use moonlight_os.Process.{Tables, CreateArgs, create}
use moonlight_os.Vspace.{Vspace, PtState, init_with_alloc, map}

-- `sched_init` and the three calls of `sched_partition_create`, whose results are not looked at.
unfoldable pub boot_sched : SchedState
boot_sched =
    let s1 = (partition_create Sched.init 0 0 6000 1).1 in
    let s2 = (partition_create s1 1 6000 2000 3).1 in (partition_create s2 2 8000 2000 2).1

-- `k_base` and `k_start`
abbrev pub k_base : ℕ
k_base = 0x8000_0000

-- `uart_base`
abbrev pub uart_base : ℕ
uart_base = 0x1000_0000

-- `k_size`, by the end of the kernel that the linker gives.
abbrev pub k_size : ℕ → ℕ
k_size k_end =
    let rounded = add64 (sub64 k_end k_base) (page_size - 1) / page_size * page_size in
    if ltb rounded 0x40_0000 then 0x40_0000 else rounded

-- The memory of the page tables when the allocator is initialised.
abbrev pub boot_memory : Array (Array ℕ) → ℕ → PtState
boot_memory pages pool = record {
  pages = pages;
  alloc = Alloc.init 0x8040_0000 0x40_0000;
  pool = pool;
  fallback_next = 0;
}

-- The mapping of the UART, after that of the kernel (`none`: the kernel halts).
abbrev pub map_uart : KError × Vspace × PtState → Option (Vspace × PtState)
map_uart r =
    if not (is_ok r.0)
    then none
    else let u = map r.1 r.2 uart_base uart_base page_size 3 0 in
      if not (is_ok u.0) then none else some (u.1, u.2)

-- The address space of the kernel (`none`: the kernel halts).
unfoldable pub boot_paging : ℕ → PtState → Option (Vspace × PtState)
boot_paging k_end s =
    let r = init_with_alloc 1 0 true s in
    if not (is_ok r.0) then none else map_uart (map r.1 r.2 k_base k_base (k_size k_end) 7 0)

-- `ut`, the untyped capability in slot 0 of the root table.
abbrev pub root_untyped : Cap
root_untyped = record zero_cap {
  type = cap_untyped;
  is_valid = true;
  is_sealed = true;
  rights = 0xFF;
  u = record zero_union { word0 = 0x9000_0000; word1 = 0x40_0000 };
  hw_cap = record zero_sim_cap {
    base = 0x9000_0000;
    top = 0x9040_0000;
    addr = 0x9000_0000;
    tag = true;
    sealed = true;
  };
}

-- The root table with `ut`, after `cnode_init(&g_root_cnode, 0, 8)`.
unfoldable pub boot_root : Store → ℕ → Store
boot_root m root =
    let m' = (Cnode.init m (some root) 0 8).1 in
    set m' root (record (m' root) { slots = set (m' root).slots 0 root_untyped; used = 1 })

-- The tables for the processes, with the allocator as paging has left it.
abbrev pub boot_tables : FrameAlloc → Tables
boot_tables a = record {
  tcbs = record { threads = fill zero_tcb; count = 0 };
  alloc = a;
  sched = boot_sched;
  mdb = (Mdb.insert Mdb.init 0xFFFF 0 root_untyped 0).2;
}

-- The arguments of the four processes, which differ in some fields.
abbrev pub boot_args : ℕ → ℕ → ℕ → ℕ → ℕ → ℕ → CreateArgs
boot_args pc sp_top partition priority budget period = record {
  parent_cnode = 0;
  untyped_cptr = 0;
  partition_id = partition;
  budget_us = budget;
  period_us = period;
  priority = priority;
  pc = pc;
  sp_top = sp_top;
  stack_size = 4096;
}

-- `process_create`, and `tcb_resume` if it succeeds.
unfoldable pub spawn : Tables → CreateArgs → Tables
spawn k args =
    let r = create k args 0 in
    if is_ok r.0
    then record r.2 {
      tcbs = record r.2.tcbs { threads = set r.2.tcbs.threads r.1 (resume (r.2.tcbs.threads r.1)) };
    }
    else r.2

-- The hello thread, `mem_server`, `sched_server` and `vfs_server`, all with the code `user_hello`.
unfoldable pub boot_processes : ℕ → Tables → Tables
boot_processes user_hello k =
    let k1 = spawn k (boot_args user_hello 0x8050_0000 0 10 1000 5000) in
    let k2 = spawn k1 (boot_args user_hello 0x8060_0000 0 5 500 2000) in
    let k3 = spawn k2 (boot_args user_hello 0x8070_0000 1 5 500 2000) in
    spawn k3 (boot_args user_hello 0x8080_0000 2 5 500 2000)
