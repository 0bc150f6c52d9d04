-- ===== src/Endpoint.antt =====
-- kernel/include/endpoint.h and kernel/src/endpoint.c: synchronous message passing.
pub mod Ring
pub mod Channel
pub mod Refine
use moonlight_os.Prelude.{ℕ, ◌+◌, ◌%◌, Bool, true, false, Array, set, ◌==◌, ltb, leb, if◌then◌else◌}
use moonlight_os.Types.{KError, ok, invalid_arg, overflow, IpcMsg, ipc_msg_max, ipc_caps_max}
use moonlight_os.Tcb.{Tcb, State, blocked_send, max_tcbs, resume, wake_from_ipc}

-- `endpoint_t`
pub record Endpoint : Type 0 where
  pub has_sender : Bool
  pub has_receiver : Bool
  pub sender_tcb : ℕ
  pub receiver_tcb : ℕ
  pub pending_msg : IpcMsg
  pub pending : Bool
  pub queue : Array ℕ
  pub queue_msgs : Array IpcMsg
  pub q_head : ℕ
  pub q_tail : ℕ
  pub q_len : ℕ
  pub badge : ℕ

abbrev pub max_endpoints : ℕ
max_endpoints = 64

-- `if (recvr < MAX_TCBS) tcb_wake_from_ipc(&g_tcbs.threads[recvr], sender);`
unfoldable pub wake_receiver : Array Tcb → ℕ → Array Tcb
wake_receiver threads recvr =
    if ltb recvr max_tcbs then set threads recvr (wake_from_ipc (threads recvr)).1 else threads

abbrev pub is_blocked_send : State → Bool
is_blocked_send blocked_send = true
is_blocked_send _ = false

-- `if (sender < MAX_TCBS && its state is TCB_BLOCKED_SEND) tcb_resume(&g_tcbs.threads[sender]);`
unfoldable pub wake_sender : Array Tcb → ℕ → Array Tcb
wake_sender threads sender =
    if ltb sender max_tcbs
    then if is_blocked_send (threads sender).state
      then set threads sender (resume (threads sender))
      else threads
    else threads

-- `endpoint_send`: its error, the endpoint and the thread table. No pointer is NULL in the kernel's
-- calls.
unfoldable pub send : Endpoint → Array Tcb → ℕ → IpcMsg → KError × Endpoint × Array Tcb
send ep threads sender msg =
    if ltb ipc_msg_max msg.length
    then (invalid_arg, ep, threads)
    else if ltb ipc_caps_max msg.caps
    then (invalid_arg, ep, threads)
    else if ep.has_receiver
    then (
      ok,
      record ep { pending_msg = msg; pending = true; has_receiver = false },
      wake_receiver threads ep.receiver_tcb,
    )
    else if leb 16 ep.q_len
    then (overflow, ep, threads)
    else (
      ok,
      record ep {
        queue = set ep.queue ep.q_tail sender;
        queue_msgs = set ep.queue_msgs ep.q_tail msg;
        q_tail = (ep.q_tail + 1) % 16;
        q_len = (ep.q_len + 1) % 256;
        pending_msg = msg;
        pending = true;
      },
      threads,
    )

-- The branch of `endpoint_recv` with a message in the queue.
unfoldable pub dequeue : Endpoint → Endpoint
dequeue ep =
    let head = (ep.q_head + 1) % 16 in
    let len = (ep.q_len + 255) % 256 in
    if len == 0
    then record ep { q_head = head; q_len = len; pending = false }
    else record ep { q_head = head; q_len = len; pending_msg = ep.queue_msgs head }

-- `endpoint_recv`: its error, `*out`, the endpoint and the thread table.
unfoldable pub recv : Endpoint → Array Tcb → ℕ → IpcMsg → KError × IpcMsg × Endpoint × Array Tcb
recv ep threads receiver out =
    if ltb 0 ep.q_len
    then (ok, ep.queue_msgs ep.q_head, dequeue ep, wake_sender threads (ep.queue ep.q_head))
    else if ep.pending
    then (ok, ep.pending_msg, record ep { pending = false; has_receiver = false }, threads)
    else (ok, out, record ep { has_receiver = true; receiver_tcb = receiver }, threads)

-- `endpoint_call`
unfoldable pub call : Endpoint → Array Tcb → ℕ → IpcMsg → KError × Endpoint × Array Tcb
unfolding send
call ep threads caller msg = send ep threads caller msg
