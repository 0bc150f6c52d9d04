-- ===== src/Tcb.antt =====
-- kernel/include/tcb.h and kernel/src/tcb.c: thread control blocks and their states.
pub mod States
use moonlight_os.Prelude.{
  ℕ, Bool, true, false, not, ◌&&◌, ◌||◌, Option, none, some, Array, set, if◌then◌else◌,
}
use moonlight_os.Types.{KError, ok, invalid_cap, invalid_arg, IpcMsg, zero_msg}
use moonlight_os.Cheri.{SimCap, zero_sim_cap}

-- `tcb_state_t`
pub data State : Type 0 where
  inactive runnable blocked_send blocked_recv blocked_reply : State

-- `tcb_t`. The capability space is a pointer to a table (`none` for NULL).
pub record Tcb : Type 0 where
  pub id : ℕ
  pub state : State
  pub pc : ℕ
  pub sp : ℕ
  pub csp : SimCap
  pub pcc : SimCap
  pub cspace : Option ℕ
  pub vspace_root : ℕ
  pub asid : ℕ
  pub time_partition : ℕ
  pub sched_context : ℕ
  pub priority : ℕ
  pub ipc_buffer : IpcMsg
  pub bound_notification : ℕ
  pub bound_endpoint : ℕ
  pub fault_addr : ℕ
  pub fault_type : ℕ

-- `memset(tcb, 0, sizeof(*tcb))`
abbrev pub zero_tcb : Tcb
zero_tcb = record {
  id = 0;
  state = inactive;
  pc = 0;
  sp = 0;
  csp = zero_sim_cap;
  pcc = zero_sim_cap;
  cspace = none;
  vspace_root = 0;
  asid = 0;
  time_partition = 0;
  sched_context = 0;
  priority = 0;
  ipc_buffer = zero_msg;
  bound_notification = 0;
  bound_endpoint = 0;
  fault_addr = 0;
  fault_type = 0;
}

abbrev pub max_tcbs : ℕ
max_tcbs = 128

-- `tcb_table_t`
pub record TcbTable : Type 0 where
  pub threads : Array Tcb
  pub count : ℕ

-- `tcb_configure`: its error and `*tcb`. Here and below the thread pointer is not NULL: every call in
-- the kernel passes the address of an entry of the table.
unfoldable pub configure : Tcb → Option ℕ → ℕ → ℕ → ℕ → KError × Tcb
configure tcb none vspace_root asid partition = (invalid_arg, tcb)
configure tcb (some cspace) vspace_root asid partition = (
  ok,
  record tcb {
    cspace = some cspace;
    vspace_root = vspace_root;
    asid = asid;
    time_partition = partition;
    state = inactive;
  },
)

-- `tcb_set_regs`
unfoldable pub set_regs : Tcb → ℕ → ℕ → SimCap → SimCap → KError × Tcb
set_regs tcb pc sp pcc csp =
    if not pcc.tag || not csp.tag
    then (invalid_cap, tcb)
    else (ok, record tcb { pc = pc; sp = sp; pcc = pcc; csp = csp })

-- `tcb_suspend`
unfoldable pub suspend : Tcb → Tcb
suspend tcb = record tcb { state = inactive }

-- The states that `tcb_resume` makes runnable.
abbrev pub resumes : State → State
resumes inactive = runnable
resumes blocked_recv = runnable
resumes blocked_send = runnable
resumes blocked_reply = runnable
resumes runnable = runnable

-- `tcb_resume`
unfoldable pub resume : Tcb → Tcb
resume tcb = record tcb { state = resumes tcb.state }

abbrev pub is_runnable_state : State → Bool
is_runnable_state runnable = true
is_runnable_state _ = false

-- `tcb_is_runnable`
abbrev pub is_runnable : Tcb → Bool
is_runnable tcb = is_runnable_state tcb.state

abbrev pub waits_for_ipc : State → Bool
waits_for_ipc blocked_recv = true
waits_for_ipc blocked_reply = true
waits_for_ipc _ = false

-- `tcb_wake_from_ipc`
unfoldable pub wake_from_ipc : Tcb → KError × Tcb
wake_from_ipc tcb =
    if not (waits_for_ipc tcb.state)
    then (invalid_arg, tcb)
    else (ok, record tcb { state = runnable; fault_addr = 0; fault_type = 0 })
