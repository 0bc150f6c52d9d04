-- ===== src/Endpoint/Refine.antt =====
-- The endpoint of kernel/src/endpoint.c implements the channel.
use moonlight_os.Prelude.{
  ℕ, zero, suc, ◌+◌, ◌-◌, ◌%◌, ◌≤◌, ◌<◌, ◌≡◌, refl, ap, arith, true, false, ◌&&◌, ◌||◌, List, [],
  ◌∷◌, Option, none, some, Array, ◌==◌, ltb, if◌then◌else◌,
}
use moonlight_os.Types.{KError, ok, IpcMsg}
use native.Mathlib.Decide.{dec_lt}
use moonlight_os.Tcb.{Tcb}
use moonlight_os.Endpoint.{Endpoint, send, recv, dequeue}
use moonlight_os.Endpoint.Ring.{IsRing, entries, entries-snoc, entries-next, contents}
use moonlight_os.Endpoint.Channel
use moonlight_os.Endpoint.Channel.{Channel, length}

-- The channel that an endpoint is.
abbrev pub view : Endpoint → Channel
view ep = record {
  queue = contents ep;
  mailbox = if (ep.q_len == 0) && ep.pending then some ep.pending_msg else none;
  waiting = if ep.has_receiver then some ep.receiver_tcb else none;
}

length-entries :
    (q : Array ℕ) (ms : Array IpcMsg) (head n k : ℕ) → length (entries q ms head n k) ≡ n
unfolding entries
length-entries q ms head zero k = refl
length-entries q ms head (suc n) k = ap suc (length-entries q ms head n (k + 1))

-- A send, whatever it returns, keeps the ring's indices right.
pub send-IsRing :
    (ep : Endpoint) (threads : Array Tcb) (sender : ℕ) (msg : IpcMsg)
    → IsRing ep
    → IsRing (send ep threads sender msg).1
unfolding send
send-IsRing ep threads sender msg r = ground arith

pub recv-IsRing :
    (ep : Endpoint) (threads : Array Tcb) (receiver : ℕ) (out : IpcMsg)
    → IsRing ep
    → IsRing (recv ep threads receiver out).2
unfolding recv dequeue
recv-IsRing ep threads receiver out r = ground arith

-- A send does to the channel what the channel's own send does, and returns the same.
pub send-view :
    (ep : Endpoint) (threads : Array Tcb) (sender : ℕ) (msg : IpcMsg)
    → IsRing ep
    → Channel.send (view ep) sender msg
      ≡ ((send ep threads sender msg).0, view (send ep threads sender msg).1)
unfolding send Channel.send
send-view ep threads sender msg r = ground (
  arith,
  length-entries ep.queue ep.queue_msgs ep.q_head ep.q_len 0,
  entries-snoc ep.queue ep.queue_msgs ep.q_head ep.q_len 0 sender ep.q_tail msg,
)

entries-split :
    (q : Array ℕ) (ms : Array IpcMsg) (head n : ℕ)
    → head < 16
    → 0 < n
    → entries q ms head n 0 ≡ (q head, ms head) ∷ entries q ms ((head + 1) % 16) (n - 1) 0
unfolding entries
entries-split q ms head zero h pos = absurd (omega arith)
entries-split q ms head (suc n) h pos =
    let here : (head + 0) % 16 ≡ head = omega arith in
    let rest : suc n - 1 ≡ n = omega arith in rw (here, rest, entries-next q ms head n 0) refl

entries-none : (q : Array ℕ) (ms : Array IpcMsg) (head n : ℕ) → n ≡ 0 → entries q ms head n 0 ≡ []
unfolding entries
entries-none q ms head n e = rw e

len_step : (n : ℕ) → 0 < n → n ≤ 16 → (n + 255) % 256 ≡ n - 1
len_step n pos small = omega arith

-- What a receiver gets: a message, or nothing yet.
abbrev pub delivered : Endpoint → IpcMsg → Option IpcMsg
delivered ep m = if ltb 0 ep.q_len || ep.pending then some m else none

-- A receive does to the channel what the channel's own receive does, and delivers the same.
pub recv-view :
    (ep : Endpoint) (threads : Array Tcb) (receiver : ℕ) (out : IpcMsg)
    → IsRing ep
    → Channel.recv (view ep) receiver
      ≡ (delivered ep (recv ep threads receiver out).1, view (recv ep threads receiver out).2)
unfolding recv dequeue Channel.recv
recv-view ep threads receiver out r = elim (dec_lt 0 ep.q_len) [
  | yes queued ↦
      rw (entries-split ep.queue ep.queue_msgs ep.q_head ep.q_len r.head queued)
        (ground (arith, len_step ep.q_len queued r.len))
  | no empty ↦
      let none_left : ep.q_len ≡ 0 = omega arith in
      rw (entries-none ep.queue ep.queue_msgs ep.q_head ep.q_len none_left)
        (ground (arith, entries-none ep.queue ep.queue_msgs ep.q_head ep.q_len none_left))
]

-- What clients do with an endpoint, and what each sees.
pub data Op : Type 0 where
  sends : ℕ → IpcMsg → Op
  recvs : ℕ → Op

pub data Reply : Type 0 where
  sent : KError → Reply
  got : Option IpcMsg → Reply

pub run : Endpoint → Array Tcb → IpcMsg → List Op → List Reply
run ep threads out [] = []
run ep threads out (sends sender msg ∷ ops) =
    let (e, ep', threads') = send ep threads sender msg in sent e ∷ run ep' threads' out ops
run ep threads out (recvs receiver ∷ ops) =
    let (e, m, ep', threads') = recv ep threads receiver out in
    got (delivered ep m) ∷ run ep' threads' out ops

pub run_channel : Channel → List Op → List Reply
run_channel c [] = []
run_channel c (sends sender msg ∷ ops) =
    let (e, c') = Channel.send c sender msg in sent e ∷ run_channel c' ops
run_channel c (recvs receiver ∷ ops) =
    let (m, c') = Channel.recv c receiver in got m ∷ run_channel c' ops

-- Any sequence of sends and receives on an endpoint with a well-formed ring returns and delivers what the
-- abstract channel, a queue of at most 16 messages with a mailbox, returns and delivers.
pub run-refines :
    (ops : List Op) (ep : Endpoint) (threads : Array Tcb) (out : IpcMsg)
    → IsRing ep
    → run ep threads out ops ≡ run_channel (view ep) ops
unfolding run run_channel
run-refines [] ep threads out r = refl
run-refines (sends sender msg ∷ ops) ep threads out r = rw (send-view ep threads sender msg r) (
    ap (λ (rest : List Reply). sent (send ep threads sender msg).0 ∷ rest)
      (run-refines ops _ _ out (send-IsRing ep threads sender msg r)))
run-refines (recvs receiver ∷ ops) ep threads out r = rw (recv-view ep threads receiver out r) (
    ap (λ (rest : List Reply). got (delivered ep (recv ep threads receiver out).1) ∷ rest)
      (run-refines ops _ _ out (recv-IsRing ep threads receiver out r)))

-- A message for a waiting receiver is lost if another is sent before the receiver has fetched it: where the
-- ring is well formed and both messages fit, both sends succeed, the receiver gets the second message, and
-- neither the queue nor the mailbox holds the first.
pub send-loses :
    (ep : Endpoint) (threads : Array Tcb) (a b receiver : ℕ) (m₁ m₂ out : IpcMsg)
    → IsRing ep
    → ep.has_receiver ≡ true
    → Channel.fits m₁ ≡ true
    → Channel.fits m₂ ≡ true
    → let (e₁, ep₁, threads₁) = send ep threads a m₁ in
      let (e₂, ep₂, threads₂) = send ep₁ threads₁ b m₂ in
      let (e₃, m, ep₃, threads₃) = recv ep₂ threads₂ receiver out in
      (e₁ ≡ ok) × (e₂ ≡ ok) × (m ≡ m₂) × (ep₃.q_len ≡ 0) × (ep₃.pending ≡ false)
unfolding send recv dequeue
send-loses ep threads a b receiver m₁ m₂ out r w f₁ f₂ = ground (arith, r.waits w)
