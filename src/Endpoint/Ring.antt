-- ===== src/Endpoint/Ring.antt =====
-- The ring of queued messages of an endpoint (kernel/src/endpoint.c), read as a list.
use moonlight_os.Prelude.{
  ℕ, zero, suc, ◌+◌, ◌%◌, ◌≤◌, ◌<◌, ◌≡◌, ◌≢◌, refl, ap, arith, true, false, List, [], ◌∷◌, ◌++◌,
  Array, set, set_self, set_ne,
}
use mathlib.Core.Path.{ap₂}
use moonlight_os.Types.{IpcMsg}
use moonlight_os.Endpoint.{Endpoint}

-- The ring's indices, and the mode of the endpoint: a receiver waits only where no message does.
pub record IsRing (ep : Endpoint) : Type 0 where
  pub head : ep.q_head < 16
  pub len : ep.q_len ≤ 16
  pub tail : ep.q_tail ≡ (ep.q_head + ep.q_len) % 16
  pub waits : ep.has_receiver ≡ true → (ep.q_len ≡ 0) × (ep.pending ≡ false)

-- `n` entries of a ring from the slot `head + k`.
unfoldable pub entries : Array ℕ → Array IpcMsg → ℕ → ℕ → ℕ → List (ℕ × IpcMsg)
entries queue msgs head zero k = []
entries queue msgs head (suc n) k =
    (queue ((head + k) % 16), msgs ((head + k) % 16)) ∷ entries queue msgs head n (k + 1)

-- The queued messages with their senders, oldest first.
abbrev pub contents : Endpoint → List (ℕ × IpcMsg)
contents ep = entries ep.queue ep.queue_msgs ep.q_head ep.q_len 0

-- A write at the tail adds an entry at the end.
pub entries-snoc :
    (q : Array ℕ) (ms : Array IpcMsg) (head n k x t : ℕ) (m : IpcMsg)
    → k + n < 16
    → t ≡ (head + (k + n)) % 16
    → entries (set q t x) (set ms t m) head (suc n) k ≡ entries q ms head n k ++ (x, m) ∷ []
unfolding entries
entries-snoc q ms head zero k x t m small e =
    let here : t ≡ (head + k) % 16 = omega arith in
    ap₂ (λ (a : ℕ) (b : IpcMsg). (a, b) ∷ []) (rw (← here) (set_self q t x))
      (rw (← here) (set_self ms t m))
entries-snoc q ms head (suc n) k x t m small e =
    let there : t ≢ (head + k) % 16 = omega arith in
    ap₂ (λ (a : ℕ × IpcMsg) (rest : List (ℕ × IpcMsg)). a ∷ rest)
      (ap₂ (λ (a : ℕ) (b : IpcMsg). (a, b)) (set_ne q t _ x there) (set_ne ms t _ m there))
      (entries-snoc q ms head n (k + 1) x t m (omega arith) (omega arith))

-- Moving the head on by one drops the first entry.
pub entries-next :
    (q : Array ℕ) (ms : Array IpcMsg) (head n k : ℕ)
    → entries q ms ((head + 1) % 16) n k ≡ entries q ms head n (k + 1)
unfolding entries
entries-next q ms head zero k = refl
entries-next q ms head (suc n) k =
    let same : ((head + 1) % 16 + k) % 16 ≡ (head + (k + 1)) % 16 = omega arith in
    rw same (
      ap
        (λ (rest : List (ℕ × IpcMsg)).
          (q ((head + (k + 1)) % 16), ms ((head + (k + 1)) % 16)) ∷ rest)
        (entries-next q ms head n (k + 1)))
