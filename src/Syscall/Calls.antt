-- ===== src/Syscall/Calls.antt =====
-- kernel/src/syscall.c: the system calls.
use moonlight_os.Prelude.{
  ℕ, ◌%◌, ◌^◌, Bool, true, false, not, ◌&&◌, ◌||◌, Option, none, some, set, ◌==◌, ◌!=◌, ltb, leb,
  if◌then◌else◌,
}
use moonlight_os.Types.{
  KError, ok, invalid_cap, no_rights, invalid_arg, partition_denied, wcet_exceeded, code, is_ok,
  ipc_msg_max, ipc_caps_max, IpcMsg, zero_msg,
}
use moonlight_os.Cap.{Cap, has_right, pointer, cap_endpoint}
use moonlight_os.Tcb.{Tcb, blocked_recv, blocked_reply, max_tcbs, is_runnable}
use moonlight_os.Sched.{max_sched_contexts, wcet_check}
use moonlight_os.Endpoint.{send, recv}
use moonlight_os.Syscall.{Kernel, Layout, TrapFrame, find_cap, set_thread, byte}
use moonlight_os.Syscall.Invoke.{handle_invoke, op_of}

-- How the switch of `syscall_handler` ends: with a `return`, or with a `break` and `err`.
pub data Outcome : Type 0 where
  returned : (e : KError) (k : Kernel) → Outcome
  finished : (e : KError) (k : Kernel) → Outcome

-- `msg.words[i] = tcb->ipc_buffer.words[i]` for each `i` below the length, in `msg = {0}`
abbrev pub message : Tcb → ℕ → IpcMsg
message t length = record zero_msg {
  length = length;
  words = λ i. if ltb i length then t.ipc_buffer.words i else 0;
}

-- The message of `SYS_SEND`, with the capability pointers.
abbrev pub message_with_caps : Tcb → ℕ → IpcMsg
message_with_caps t length = record (message t length) {
  caps = t.ipc_buffer.caps;
  cap_ptrs = λ i. if ltb i t.ipc_buffer.caps then t.ipc_buffer.cap_ptrs i else 0;
}

-- `SYS_CALL` on the endpoint `e`
unfoldable pub call_on : Kernel → ℕ → ℕ → ℕ → Outcome
call_on k cur e length =
    if ltb ipc_msg_max length
    then returned invalid_arg k
    else let r = send (k.endpoints e) k.threads cur (message (k.threads cur) length) in
      let k' = record k { endpoints = set k.endpoints e r.1; threads = r.2 } in
      if is_ok r.0
      then finished ok (set_thread k' cur (record (k'.threads cur) { state = blocked_reply }))
      else finished r.0 k'

-- `SYS_SEND` on the endpoint `e`: the copy of the capability pointers is not bounded.
unfoldable pub send_on : Kernel → ℕ → ℕ → ℕ → Option Outcome
send_on k cur e length =
    if ltb ipc_msg_max length
    then some (returned invalid_arg k)
    else if ltb ipc_caps_max (k.threads cur).ipc_buffer.caps
    then none
    else let r = send (k.endpoints e) k.threads cur (message_with_caps (k.threads cur) length) in
      some (finished r.0 (record k { endpoints = set k.endpoints e r.1; threads = r.2 }))

-- The message that is delivered to the buffer of a thread.
abbrev pub deliver : Tcb → IpcMsg → Tcb
deliver t out = record t {
  ipc_buffer = record t.ipc_buffer {
    words = λ i. if ltb i out.length then out.words i else t.ipc_buffer.words i;
    length = out.length;
  };
}

-- `SYS_REPLY_RECV` on the endpoint `e`. Its copy of the words is not bounded
-- either. `endpoint_recv` returns no error.
unfoldable pub recv_on : Kernel → ℕ → ℕ → Option Outcome
recv_on k cur e =
    let ep = k.endpoints e in
    let r = recv ep k.threads cur zero_msg in
    let k' = record k { endpoints = set k.endpoints e r.2; threads = r.3 } in
    if ep.pending || ltb 0 ep.q_len
    then if ltb ipc_msg_max r.1.length
      then none
      else some (finished r.0 (set_thread k' cur (deliver (k'.threads cur) r.1)))
    else some (finished r.0 (set_thread k' cur (record (k'.threads cur) { state = blocked_recv })))

-- The endpoint that a capability names, for `SYS_CALL`, `SYS_REPLY_RECV` and `SYS_SEND`.
unfoldable pub on_endpoint : Layout → Kernel → Cap → (ℕ → Option Outcome) → Option Outcome
on_endpoint m k cap f =
    if cap.type != cap_endpoint
    then some (returned invalid_cap k)
    else elim (m.endpoint_at (pointer cap.u)) [ none ↦ none | some e ↦ f e ]

-- `syscall_t`, and `SYS_SEAL`, which has no case
pub data Sys : Type 0 where
  sys_call sys_reply_recv sys_send sys_yield sys_seal sys_invoke : Sys

abbrev pub sys_of : ℕ → Sys
sys_of n =
    if n == 0
    then sys_call
    else if n == 1
    then sys_reply_recv
    else if n == 2
    then sys_send
    else if n == 3
    then sys_yield
    else if n == 4
    then sys_seal
    else sys_invoke

-- The switch of `syscall_handler`, for a capability that is not NULL.
unfoldable pub serve : Layout → Kernel → ℕ → TrapFrame → Sys → Cap → Option Outcome
serve m k cur frame sys_call cap =
    if not (has_right cap 3)
    then some (returned no_rights k)
    else on_endpoint m k cap (λ e. some (call_on k cur e (byte frame.a1 0)))
serve m k cur frame sys_reply_recv cap = on_endpoint m k cap (recv_on k cur)
serve m k cur frame sys_send cap = on_endpoint m k cap (λ e. send_on k cur e (byte frame.a1 0))
serve m k cur frame sys_yield cap = some (finished ok k)
serve m k cur frame sys_seal cap = some (finished invalid_arg k)
serve m k cur frame sys_invoke cap =
    elim (handle_invoke m k cap (op_of (byte frame.a1 0)) frame.a1 frame.a2 frame.a3) [
      | none ↦ none
      | some r ↦ some (finished r.0 r.1)
    ]

-- The capability that `syscall_handler` looks up: the caller's, or for an invocation of slot 0 one of the
-- root table.
unfoldable pub lookup_cap : Kernel → Tcb → TrapFrame → Sys → Option Cap
lookup_cap k t frame sys =
    let own : Option Cap = elim t.cspace [
      | none ↦ none
      | some p ↦ find_cap (k.cnodes p) (frame.a0 % 2 ^ 32)
    ] in
    elim own [
      | some cap ↦ some cap
      | none ↦ elim sys [
        | sys_invoke ↦
            if frame.a0 % 2 ^ 32 == 0 then find_cap (k.cnodes k.root) (frame.a1 % 2 ^ 32) else none
        | _ ↦ none
      ]
    ]

-- The switch after the checks of the capability and of the budget.
unfoldable pub checked : Layout → Kernel → ℕ → TrapFrame → Sys → Option Cap → Option Outcome
checked m k cur frame sys cap =
    let t = k.threads cur in
    let run : Option Outcome = elim cap [
      | none ↦ some (finished ok k)
      | some c ↦ serve m k cur frame sys c
    ] in
    if leb max_sched_contexts t.sched_context
    then none
    else if (k.sched.contexts t.sched_context).remaining_us == 0
    then some (returned wcet_exceeded k)
    else run

abbrev pub is_yield : Sys → Bool
is_yield sys_yield = true
is_yield _ = false

abbrev pub is_null : Option Cap → Bool
is_null none = true
is_null (some _) = false

-- The checks of `syscall_handler`, and its switch.
unfoldable pub guarded : Layout → Kernel → ℕ → TrapFrame → Sys → Option Cap → Option Outcome
guarded m k cur frame sys cap =
    if ltb 5 (frame.a7 % 2 ^ 32)
    then some (returned invalid_arg k)
    else if leb max_tcbs cur
    then none
    else if not (is_runnable (k.threads cur)) && not (is_yield sys)
    then some (returned partition_denied k)
    else if not (is_yield sys) && is_null cap
    then some (returned invalid_cap k)
    else checked m k cur frame sys cap

-- `syscall_handler` up to the end of the switch.
unfoldable pub handle : Layout → Kernel → ℕ → TrapFrame → Option Outcome
handle m k cur frame =
    let sys = sys_of (frame.a7 % 2 ^ 32) in
    guarded m k cur frame sys (lookup_cap k (k.threads cur) frame sys)

-- `syscall_handler`, with the times that it reads on entry and at the end: its error, `frame->a0` and the
-- kernel. The frame is not NULL.
unfoldable pub syscall_handler :
    Layout → Kernel → ℕ → TrapFrame → ℕ → ℕ → Option (KError × ℕ × Kernel)
syscall_handler m k cur frame entry_us now = elim (handle m k cur frame) [
  | none ↦ none
  | some (returned e k') ↦ some (e, frame.a0, k')
  | some (finished e k') ↦
      if not (wcet_check now entry_us)
      then some (wcet_exceeded, frame.a0, k')
      else some (e, code e, k')
]
