-- ===== src/Syscall.antt =====
-- kernel/include/syscall.h and kernel/src/syscall.c on the target: the dispatcher of system calls.
pub mod Invoke
pub mod Calls
pub mod Authority
pub mod Guards
use moonlight_os.Prelude.{
  ℕ, ◌+◌, ◌*◌, ◌/◌, ◌%◌, ◌^◌, Bool, true, false, not, ◌&&◌, ◌||◌, Option, none, some, Array, set,
  fill, ◌==◌, ◌!=◌, ltb, leb, if◌then◌else◌, add32,
}
use moonlight_os.Types.{
  KError, ok, invalid_cap, no_rights, invalid_arg, revoke_needed, partition_denied, wcet_exceeded,
  code, is_ok, page_size, ipc_msg_max, ipc_caps_max, IpcMsg, zero_msg,
}
use moonlight_os.Cap.{
  Cap, is_valid, has_right, can_retype, retype, pointer, frame_perms, frame_color, cap_cnode,
  cap_tcb, cap_vspace, cap_frame, cap_endpoint, max_caps_per_cnode,
}
use moonlight_os.Cnode.{Cnode, Store, insert}
use moonlight_os.Tcb.{
  Tcb, State, inactive, blocked_recv, blocked_reply, max_tcbs, is_runnable, suspend, resume,
  configure, wake_from_ipc,
}
use moonlight_os.Sched.{SchedState, max_sched_contexts, context_bind, wcet_check}
use moonlight_os.Endpoint.{Endpoint, send, recv}
use moonlight_os.Mdb.{MdbTree}
use moonlight_os.Vspace.{Vspace, PtState, map, unmap}

-- The globals `g_tcbs`, `g_endpoints`, `g_sched`, `g_mdb`, the capability tables with the address of
-- `g_root_cnode`, and the address spaces with their page tables.
pub record Kernel : Type 0 where
  pub threads : Array Tcb
  pub endpoints : Array Endpoint
  pub sched : SchedState
  pub mdb : MdbTree
  pub cnodes : Store
  pub root : ℕ
  pub vspaces : Array Vspace
  pub tables : PtState

-- Which object stands at an address, as the pointers in capabilities name it; `none` for no object.
pub record Layout : Type 0 where
  pub endpoint_at : ℕ → Option ℕ
  pub tcb_at : ℕ → Option ℕ
  pub vspace_at : ℕ → Option ℕ

-- The registers of `trap_frame_t` that the handler reads.
pub record TrapFrame : Type 0 where
  pub a0 : ℕ
  pub a1 : ℕ
  pub a2 : ℕ
  pub a3 : ℕ
  pub a7 : ℕ

-- `(x >> n) & 0xFF`
abbrev pub byte : ℕ → ℕ → ℕ
byte x n = x / 2 ^ n % 256

-- `cnode_lookup(cn, idx)` and the capability at the slot; `none` for NULL
abbrev pub find_cap : Cnode → ℕ → Option Cap
find_cap cn idx = elim (moonlight_os.Cnode.lookup cn idx) [
  | none ↦ none
  | some i ↦ some (cn.slots i)
]

-- Results of a system call: `none` is an access out of the bounds of an object.
abbrev pub Result : Type 0
Result = Option (KError × Kernel)

abbrev pub set_thread : Kernel → ℕ → Tcb → Kernel
set_thread k i t = record k { threads = set k.threads i t }

-- `INV_UNTYPED_RETYPE` with its slot
unfoldable pub retype_into : Kernel → Cap → ℕ → ℕ → ℕ → KError × Kernel
retype_into k cap new_type size slot =
    if not (can_retype cap new_type size)
    then (invalid_arg, k)
    else let new_cap = retype cap new_type (pointer cap.u) size in
      if not new_cap.is_valid
      then (invalid_cap, k)
      else if leb max_caps_per_cnode slot
      then (invalid_arg, k)
      else if ((k.cnodes k.root).slots slot).is_valid
      then (revoke_needed, k)
      else (
        ok,
        record k {
          cnodes = insert k.cnodes k.root slot new_cap;
          mdb = (moonlight_os.Mdb.insert k.mdb 0 slot new_cap 0).2;
        },
      )

-- `if (dest_slot == 0) dest_slot = 5;`
abbrev pub dest_slot : ℕ → ℕ
dest_slot arg1 = if byte arg1 8 == 0 then 5 else byte arg1 8

-- The store that an operation on capability tables returns, in the kernel.
abbrev pub with_cnodes : Kernel → KError × Store → KError × Kernel
with_cnodes k r = (r.0, record k { cnodes = r.1 })

-- `INV_CNODE_COPY`, `INV_CNODE_MINT` and `INV_CNODE_DELETE`, which all act on the root table
unfoldable pub invoke_copy : Kernel → Cap → ℕ → ℕ → KError × Kernel
invoke_copy k cap arg2 arg3 =
    if cap.type != cap_cnode
    then (invalid_cap, k)
    else with_cnodes k (
        moonlight_os.Cnode.copy k.cnodes (some k.root) (byte arg3 0) (some k.root) (byte arg2 0)
          cap.rights)

unfoldable pub invoke_mint : Kernel → Cap → ℕ → ℕ → KError × Kernel
invoke_mint k cap arg2 arg3 =
    if cap.type != cap_cnode
    then (invalid_cap, k)
    else with_cnodes k (
        moonlight_os.Cnode.mint k.cnodes (some k.root) (byte arg3 0) (some k.root) (byte arg2 0)
          cap.rights (byte arg2 8))

unfoldable pub invoke_delete : Kernel → Cap → ℕ → KError × Kernel
invoke_delete k cap arg2 =
    if cap.type != cap_cnode
    then (invalid_cap, k)
    else with_cnodes k (moonlight_os.Cnode.delete k.cnodes (some k.root) (byte arg2 0))

-- `INV_CNODE_MOVE`
unfoldable pub invoke_move : Kernel → Cap → ℕ → ℕ → Result
invoke_move k cap arg2 arg3 =
    if cap.type != cap_cnode
    then some (invalid_cap, k)
    else elim (moonlight_os.Cnode.move k.cnodes (some k.root) (byte arg3 0) (some k.root)
        (byte arg2 0)) [ none ↦ none | some r ↦ some (with_cnodes k r) ]

-- What `INV_TCB_RESUME` does to a thread.
abbrev pub resume_or_wake : Tcb → Tcb
resume_or_wake t = elim t.state [ inactive ↦ resume t | _ ↦ (wake_from_ipc t).1 ]

-- `INV_TCB_RESUME` and `INV_TCB_SUSPEND`
unfoldable pub invoke_tcb : Layout → Kernel → Cap → (Tcb → Tcb) → Result
invoke_tcb m k cap f =
    if cap.type != cap_tcb then some (invalid_cap, k) else elim (m.tcb_at (pointer cap.u)) [
      | none ↦ none
      | some i ↦ some (ok, set_thread k i (f (k.threads i)))
    ]

-- `INV_TCB_CONFIGURE` from its two lookups on
unfoldable pub configure_with : Layout → Kernel → Cap → ℕ → Option Cap → Option Cap → Result
configure_with m k cap arg3 none vspace_cap = some (invalid_cap, k)
configure_with m k cap arg3 (some cspace_cap) none = some (invalid_cap, k)
configure_with m k cap arg3 (some cspace_cap) (some vspace_cap) =
    if (cspace_cap.type != cap_cnode) || (vspace_cap.type != cap_vspace)
    then some (invalid_cap, k)
    else elim (m.tcb_at (pointer cap.u)) [
      | none ↦ none
      | some i ↦
          let r =
            configure (k.threads i) (some k.root) (pointer vspace_cap.u) (byte arg3 0)
              (byte arg3 8) in
          some (r.0, set_thread k i r.1)
    ]

unfoldable pub invoke_configure : Layout → Kernel → Cap → ℕ → ℕ → ℕ → Result
invoke_configure m k cap arg1 arg2 arg3 =
    if cap.type != cap_tcb
    then some (invalid_cap, k)
    else configure_with m k cap arg3 (find_cap (k.cnodes k.root) (byte arg1 16))
        (find_cap (k.cnodes k.root) (byte arg2 0))

-- `INV_VSPACE_MAP` and `INV_FRAME_MAP`, from the lookup of the frame on
unfoldable pub map_frame : Layout → Kernel → Cap → ℕ → Option Cap → Result
map_frame m k cap vaddr none = some (invalid_cap, k)
map_frame m k cap vaddr (some f) =
    if f.type != cap_frame then some (invalid_cap, k) else elim (m.vspace_at (pointer cap.u)) [
      | none ↦ none
      | some i ↦
          let r =
            map (k.vspaces i) k.tables vaddr (pointer f.u) page_size (frame_perms f.u)
              (frame_color f.u) in
          some (r.0, record k { vspaces = set k.vspaces i r.1; tables = r.2 })
    ]

unfoldable pub invoke_map : Layout → Kernel → Cap → ℕ → ℕ → Result
invoke_map m k cap arg2 arg3 =
    if cap.type != cap_vspace
    then some (invalid_cap, k)
    else map_frame m k cap arg2 (find_cap (k.cnodes k.root) (byte arg3 0))

-- `INV_VSPACE_UNMAP`
unfoldable pub invoke_unmap : Layout → Kernel → Cap → ℕ → ℕ → Result
invoke_unmap m k cap arg2 arg3 =
    if cap.type != cap_vspace then some (invalid_cap, k) else elim (m.vspace_at (pointer cap.u)) [
      | none ↦ none
      | some i ↦
          let r = unmap (k.vspaces i) k.tables arg2 arg3 in some (r.0, record k { tables = r.1 })
    ]

-- `INV_SCHED_BIND`
unfoldable pub invoke_bind : Kernel → Cap → ℕ → ℕ → ℕ → KError × Kernel
invoke_bind k cap arg1 arg2 arg3 =
    if not (is_valid cap)
    then (invalid_cap, k)
    else let r =
        context_bind k.sched (byte arg1 8) (byte arg1 16) (byte arg1 24) arg2 arg3 (byte arg1 32) in
      (r.0, record k { sched = r.1 })
