-- ===== src/Process/Purge/Cleanup.antt =====
-- The effect of the clean-up on an endpoint and its queue (kernel/src/process.c).
use moonlight_os.Prelude.{ℕ, ◌≡◌, false, not, ◌||◌, ◌!=◌, if◌then◌else◌, ◌&&◌, ◌==◌}
use moonlight_os.Endpoint.{Endpoint}
use moonlight_os.Endpoint.Ring.{IsRing, contents}
use moonlight_os.Process.Purge.{others}

-- What cleaning up makes of the ring of an endpoint.
pub record Cleaned (tcb_id : ℕ) (ep r : Endpoint) : Type 0 where
  pub ring : IsRing r
  pub kept : contents r ≡ others tcb_id (contents ep)
  pub forgotten : ((r.has_receiver && (r.receiver_tcb == tcb_id)) ≡ false)
  pub receiver : r.has_receiver ≡ (ep.has_receiver && not (ep.receiver_tcb == tcb_id))
  pub mailbox : r.pending ≡ (
      if (ep.has_receiver && (ep.receiver_tcb == tcb_id)) || ((r.q_len == 0) && (ep.q_len != 0))
      then false
      else ep.pending)
  pub message : r.pending_msg ≡ ep.pending_msg
