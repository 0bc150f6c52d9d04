-- ===== src/Process/Purge/Loop.antt =====
-- The loop of the clean-up of an endpoint (kernel/src/process.c).
use moonlight_os.Prelude.{
  ℕ, zero, suc, ◌+◌, ◌-◌, ◌%◌, ◌≤◌, ◌<◌, ◌≡◌, inl, inr, refl, ap, ◌∙◌, arith, true, false, ◌!=◌,
  if◌then◌else◌, ◌&&◌, List, [], ◌∷◌, ◌==◌, leb, leb→le, Bool-cases,
}
use mathlib.Core.Path.{ap₂}
use moonlight_os.Types.{IpcMsg}
use moonlight_os.Endpoint.{Endpoint}
use moonlight_os.Endpoint.Ring.{entries, contents}
use moonlight_os.Process.{drop_entry, purge_from}
use moonlight_os.Process.Purge.{others, shift-below, entries-shift}

-- The entries from `q` to the end of the queue.
abbrev pub rest_from : Endpoint → ℕ → List (ℕ × IpcMsg)
rest_from ep q = entries ep.queue ep.queue_msgs ep.q_head (ep.q_len - q) q

-- What the loop from `q` makes of an endpoint.
pub record Purged (ep : Endpoint) (tcb_id q : ℕ) (r : Endpoint) : Type 0 where
  pub head : r.q_head ≡ ep.q_head
  pub low : q ≤ r.q_len
  pub high : r.q_len ≤ ep.q_len
  pub tail : ep.q_tail ≡ (ep.q_head + ep.q_len) % 16 → r.q_tail ≡ (r.q_head + r.q_len) % 16
  pub kept : rest_from r q ≡ others tcb_id (rest_from ep q)
  pub queue_below :
      (j : ℕ) → j < q → r.queue ((r.q_head + j) % 16) ≡ ep.queue ((ep.q_head + j) % 16)
  pub msgs_below :
      (j : ℕ) → j < q → r.queue_msgs ((r.q_head + j) % 16) ≡ ep.queue_msgs ((ep.q_head + j) % 16)
  pub receiver : (r.has_receiver ≡ ep.has_receiver) × (r.receiver_tcb ≡ ep.receiver_tcb)
  pub pending : ep.pending ≡ false → r.pending ≡ false
  pub mailbox : r.pending ≡ (if (r.q_len == 0) && (ep.q_len != 0) then false else ep.pending)
  pub message : r.pending_msg ≡ ep.pending_msg

pub rest_from-all : (ep : Endpoint) → rest_from ep 0 ≡ contents ep
rest_from-all ep =
    let all : ep.q_len - 0 ≡ ep.q_len = omega arith in
    ap (λ (n : ℕ). entries ep.queue ep.queue_msgs ep.q_head n 0) all

rest_from-end : (ep : Endpoint) (q : ℕ) → ep.q_len ≤ q → rest_from ep q ≡ []
unfolding entries
rest_from-end ep q done = let none_left : ep.q_len - q ≡ 0 = omega arith in rw none_left refl

rest_from-step :
    (ep : Endpoint) (q : ℕ)
    → q < ep.q_len
    → rest_from ep q
      ≡ (ep.queue ((ep.q_head + q) % 16), ep.queue_msgs ((ep.q_head + q) % 16))
        ∷ rest_from ep (q + 1)
unfolding entries
rest_from-step ep q more =
    let one_left : ep.q_len - q ≡ suc (ep.q_len - (q + 1)) = omega arith in rw one_left refl

stop-Purged : (ep : Endpoint) (tcb_id q : ℕ) → q ≤ ep.q_len → ep.q_len ≤ q → Purged ep tcb_id q ep
unfolding others
stop-Purged ep tcb_id q le done = record {
  head = refl;
  low = le;
  high = omega arith;
  tail = λ e. e;
  kept = rw (rest_from-end ep q done) refl;
  queue_below = λ j h. refl;
  msgs_below = λ j h. refl;
  receiver = (refl, refl);
  pending = λ e. e;
  mailbox = ground arith;
  message = refl;
}

others-kept :
    (ep : Endpoint) (tcb_id q : ℕ)
    → q < ep.q_len
    → (ep.queue ((ep.q_head + q) % 16) == tcb_id) ≡ false
    → (ep.queue ((ep.q_head + q) % 16), ep.queue_msgs ((ep.q_head + q) % 16))
        ∷ others tcb_id (rest_from ep (q + 1))
      ≡ others tcb_id (rest_from ep q)
unfolding others
others-kept ep tcb_id q more miss = rw (rest_from-step ep q more, miss, others) refl

others-dropped :
    (ep : Endpoint) (tcb_id q : ℕ)
    → q < ep.q_len
    → ep.q_len ≤ 16
    → (ep.queue ((ep.q_head + q) % 16) == tcb_id) ≡ true
    → others tcb_id (rest_from (drop_entry ep q) q) ≡ others tcb_id (rest_from ep q)
unfolding others drop_entry
others-dropped ep tcb_id q more small hit =
    let fewer : ep.q_len - 1 - q ≡ ep.q_len - (q + 1) = omega arith in
    ap (others tcb_id) (
      entries-shift ep.queue ep.queue_msgs ep.q_head (ep.q_len - 1 - q) (ep.q_len - 1 - q) q q
        (omega arith) (omega arith) (omega arith)
      ∙ ap (λ (n : ℕ). entries ep.queue ep.queue_msgs ep.q_head n (q + 1)) fewer)
    ∙ rw (rest_from-step ep q more, hit, others) refl

skip-Purged :
    (ep : Endpoint) (tcb_id q : ℕ) (r : Endpoint)
    → q < ep.q_len
    → (ep.queue ((ep.q_head + q) % 16) == tcb_id) ≡ false
    → Purged ep tcb_id (q + 1) r
    → Purged ep tcb_id q r
skip-Purged ep tcb_id q r more miss p = record {
  head = p.head;
  low = let low = p.low in omega arith;
  high = p.high;
  tail = p.tail;
  kept =
      rest_from-step r q (let low = p.low in omega arith)
      ∙ ap₂ (λ (a : ℕ × IpcMsg) (es : List (ℕ × IpcMsg)). a ∷ es)
          (ap₂ (λ (a : ℕ) (b : IpcMsg). (a, b)) (p.queue_below q (omega arith))
            (p.msgs_below q (omega arith)))
          p.kept
      ∙ others-kept ep tcb_id q more miss;
  queue_below = λ j h. p.queue_below j (omega arith);
  msgs_below = λ j h. p.msgs_below j (omega arith);
  receiver = p.receiver;
  pending = p.pending;
  mailbox = p.mailbox;
  message = p.message;
}

drop-Purged :
    (ep : Endpoint) (tcb_id q : ℕ) (r : Endpoint)
    → q < ep.q_len
    → ep.q_len ≤ 16
    → (ep.queue ((ep.q_head + q) % 16) == tcb_id) ≡ true
    → Purged (drop_entry ep q) tcb_id q r
    → Purged ep tcb_id q r
unfolding drop_entry
drop-Purged ep tcb_id q r more small hit p = record {
  head = p.head;
  low = p.low;
  high = let high = p.high in omega arith;
  tail = λ e. p.tail refl;
  kept = p.kept ∙ others-dropped ep tcb_id q more small hit;
  queue_below = λ j h.
      p.queue_below j h ∙ shift-below (ep.q_len - 1 - q) ep.q_head q j ep.queue (omega arith) h;
  msgs_below = λ j h.
      p.msgs_below j h ∙ shift-below (ep.q_len - 1 - q) ep.q_head q j ep.queue_msgs (omega arith) h;
  receiver = p.receiver;
  pending = λ e. p.pending (ground arith);
  mailbox = (let high = p.high in let inner = p.mailbox in ground arith);
  message = p.message;
}

drop_entry-len : (ep : Endpoint) (q : ℕ) → (drop_entry ep q).q_len ≡ ep.q_len - 1
unfolding drop_entry
drop_entry-len ep q = refl

drop_entry-queue : (ep : Endpoint) (q : ℕ) → (drop_entry ep q).q_head ≡ ep.q_head
unfolding drop_entry
drop_entry-queue ep q = refl

pub purge_from-Purged :
    (fuel : ℕ) (ep : Endpoint) (tcb_id q : ℕ)
    → q ≤ ep.q_len
    → ep.q_len ≤ 16
    → ep.q_len ≤ fuel + q
    → Purged ep tcb_id q (purge_from fuel ep tcb_id q)
unfolding purge_from
purge_from-Purged zero ep tcb_id q le small enough = stop-Purged ep tcb_id q le (omega arith)
purge_from-Purged (suc fuel) ep tcb_id q le small enough = elim (Bool-cases (leb ep.q_len q)) [
  | inl done ↦ rw (done, purge_from) (stop-Purged ep tcb_id q le (leb→le ep.q_len q done))
  | inr more ↦
      let less : q < ep.q_len = ground arith in
      elim (Bool-cases (ep.queue ((ep.q_head + q) % 16) == tcb_id)) [
        | inl hit ↦
            rw (more, hit, purge_from)
              (drop-Purged ep tcb_id q (purge_from fuel (drop_entry ep q) tcb_id q) less small hit (
                purge_from-Purged fuel (drop_entry ep q) tcb_id q
                  (omega (arith, drop_entry-len ep q)) (omega (arith, drop_entry-len ep q))
                  (omega (arith, drop_entry-len ep q))))
        | inr miss ↦
            rw (more, miss, purge_from)
              (skip-Purged ep tcb_id q (purge_from fuel ep tcb_id (q + 1)) less miss
                (purge_from-Purged fuel ep tcb_id (q + 1) (omega arith) small (omega arith)))
      ]
]
