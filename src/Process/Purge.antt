-- ===== src/Process/Purge.antt =====
-- Cleaning up an endpoint drops the messages of one thread and keeps the others (kernel/src/process.c).
pub mod Loop
pub mod Cleanup
use native.Mathlib.Decide.{ℕ_discrete}
use moonlight_os.Prelude.{
  ℕ, zero, suc, ◌+◌, ◌-◌, ◌*◌, ◌%◌, ◌≤◌, ◌<◌, ◌≡◌, ◌≢◌, ◌⊎◌, inl, inr, refl, sym, ap, ◌∙◌, arith,
  Bool, true, false, not, ◌&&◌, ◌||◌, List, [], ◌∷◌, Array, set, set_self, set_ne, ◌==◌, ltb, leb,
  le→ltb, if◌then◌else◌, Bool-cases,
}
use mathlib.Core.Path.{ap₂}
use moonlight_os.Types.{IpcMsg}
use moonlight_os.Endpoint.{Endpoint}
use moonlight_os.Endpoint.Ring.{IsRing, entries, contents}
use moonlight_os.Process.{shift, drop_entry, purge_from, forget_receiver, cleanup}

module _ {ℓ} {A : Type ℓ} where
  -- A write at one place of the ring is not seen at another.
  set-elsewhere :
      (a : Array A) (head k j : ℕ) (v : A)
      → k < 16
      → j < 16
      → k ≢ j
      → set a ((head + k) % 16) v ((head + j) % 16) ≡ a ((head + j) % 16)
  set-elsewhere a head k j v hk hj other = set_ne a _ _ v (omega arith)

  pub shift-below :
      (n head k j : ℕ) (a : Array A)
      → k + n < 16
      → j < k
      → shift n head k a ((head + j) % 16) ≡ a ((head + j) % 16)
  unfolding shift
  shift-below zero head k j a small below = refl
  shift-below (suc n) head k j a small below =
      shift-below n head (k + 1) j (set a ((head + k) % 16) (a ((head + k + 1) % 16))) (omega arith)
        (omega arith)
      ∙ set-elsewhere a head k j (a ((head + k + 1) % 16)) (omega arith) (omega arith) (omega arith)

  -- Each entry moved is the one after it.
  pub shift-next :
      (n head k j : ℕ) (a : Array A)
      → k + n < 16
      → k ≤ j
      → j < k + n
      → shift n head k a ((head + j) % 16) ≡ a ((head + (j + 1)) % 16)
  unfolding shift
  shift-next zero head k j a small lo hi = absurd (omega arith)
  shift-next (suc n) head k j a small lo hi = elim (ℕ_discrete k j) [
    | yes here ↦ rw (← here) (
        shift-below n head (k + 1) k (set a ((head + k) % 16) (a ((head + k + 1) % 16)))
          (omega arith) (omega arith)
        ∙ set_self a ((head + k) % 16) (a ((head + k + 1) % 16))
        ∙ ap (λ (x : ℕ). a (x % 16)) (omega arith))
    | no later ↦
        shift-next n head (k + 1) j (set a ((head + k) % 16) (a ((head + k + 1) % 16)))
          (omega arith) (omega arith) (omega arith)
        ∙ set-elsewhere a head k (j + 1) (a ((head + k + 1) % 16)) (omega arith) (omega arith)
            (omega arith)
  ]

-- The messages that are not from a thread.
unfoldable pub others : ℕ → List (ℕ × IpcMsg) → List (ℕ × IpcMsg)
others tcb_id [] = []
others tcb_id (e ∷ es) = if e.0 == tcb_id then others tcb_id es else e ∷ others tcb_id es

-- Shifting `n` entries down from `k` removes the first of the `n + 1` entries from `k`.
pub entries-shift :
    (queue : Array ℕ) (msgs : Array IpcMsg) (head n m k j : ℕ)
    → k + n < 16
    → k ≤ j
    → j + m ≤ k + n
    → entries (shift n head k queue) (shift n head k msgs) head m j
      ≡ entries queue msgs head m (j + 1)
unfolding entries
entries-shift queue msgs head n zero k j small lo hi = refl
entries-shift queue msgs head n (suc m) k j small lo hi =
    ap₂ (λ (a : ℕ × IpcMsg) (rest : List (ℕ × IpcMsg)). a ∷ rest)
      (ap₂ (λ (a : ℕ) (b : IpcMsg). (a, b)) (shift-next n head k j queue small lo (omega arith))
        (shift-next n head k j msgs small lo (omega arith)))
      (entries-shift queue msgs head n m k (j + 1) small (omega arith) (omega arith))
