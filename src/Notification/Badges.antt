-- ===== src/Notification/Badges.antt =====
-- Signals are coalesced, and none is lost before it is fetched (kernel/src/notification.c).
use Prim.Native.Nat.{max}
use native.Mathlib.Decide.{ℕ_discrete}
use moonlight_os.Prelude.{ne→==, ℕ, ◌≡◌, ◌≢◌, ◌⊎◌, inl, inr, ◌↔◌, refl, arith, true, List, [], ◌∷◌}
use moonlight_os.Prelude.Bits.{bit}
use moonlight_os.Prelude.BitOr.{bit-bit_or, bit-le, bit-zero, zero-bit_or}
use moonlight_os.Types.{ok}
use moonlight_os.Notification.{Notification, signal, wait, poll}

-- Signals in turn, a refused one included.
pub signal_all : Notification → List ℕ → Notification
signal_all n [] = n
signal_all n (b ∷ bs) = signal_all (signal n b).1 bs

-- One of the badges has the bit.
abbrev pub AnySet : ℕ → List ℕ → Type 0
AnySet i [] = ⊥
AnySet i (b ∷ bs) = (bit b i ≡ 1) ⊎ AnySet i bs

signal-bit :
    (n : Notification) (b i : ℕ) → bit (signal n b).1.badge i ≡ max (bit n.badge i) (bit b i)
unfolding signal
signal-bit n b i = elim (ℕ_discrete b 0) [
  | yes zero_badge ↦ rw zero_badge (omega (arith, bit-zero i))
  | no some_badge ↦ rw (ne→== b 0 some_badge) (bit-bit_or n.badge b i)
]

signal_all-bit :
    (bs : List ℕ) (n : Notification) (i : ℕ)
    → (bit (signal_all n bs).badge i ≡ 1) ↔ ((bit n.badge i ≡ 1) ⊎ AnySet i bs)
unfolding signal_all
signal_all-bit [] n i = (λ h. inl h, λ h. elim h [ inl e ↦ e | inr impossible ↦ absurd impossible ])
signal_all-bit (b ∷ bs) n i =
    let rest = signal_all-bit bs (signal n b).1 i in
    let first = signal-bit n b i in
    (
      λ h. elim (rest.0 h) [ inl here ↦ either here first | inr later ↦ inr (inr later) ],
      λ h. rest.1 (elim h [
        | inl old ↦ inl (omega (arith, first, bit-le b i))
        | inr (inl new) ↦ inl (omega (arith, first, bit-le n.badge i))
        | inr (inr later) ↦ inr later
      ]),
    )
  where
    either :
        bit (signal n b).1.badge i ≡ 1
        → bit (signal n b).1.badge i ≡ max (bit n.badge i) (bit b i)
        → (bit n.badge i ≡ 1) ⊎ ((bit b i ≡ 1) ⊎ AnySet i bs)
    either here first = elim (ℕ_discrete (bit n.badge i) 1) [
      | yes old ↦ inl old
      | no not_old ↦ inr (inl (omega (arith, bit-le n.badge i, bit-le b i)))
    ]

-- A bit is in the badge that a poll returns exactly if it was pending or is in one of the signals
-- before it, and the poll leaves no badge pending.
pub poll-signal_all :
    (bs : List ℕ) (n : Notification) (i : ℕ)
    → ((bit (poll (signal_all n bs)).1 i ≡ 1) ↔ ((bit n.badge i ≡ 1) ⊎ AnySet i bs))
      × ((poll (signal_all n bs)).2.badge ≡ 0)
unfolding poll
poll-signal_all bs n i = (signal_all-bit bs n i, refl)

-- A wait returns the pending badge and clears it, or records the waiter when no badge is pending; then
-- a signal makes the next wait return at once.
pub wait-signal :
    (n : Notification) (waiter out b : ℕ)
    → n.badge ≡ 0
    → b ≢ 0
    → let (e₁, out₁, n₁) = wait n waiter out in
      let (e₂, n₂) = signal n₁ b in
      let (e₃, out₃, n₃) = wait n₂ waiter out₁ in
      (n₁.waiter_tcb ≡ waiter) × (e₂ ≡ ok) × (out₃ ≡ b) × (n₃.badge ≡ 0) × (n₃.has_waiter ≡ true)
unfolding wait signal
wait-signal n waiter out b idle signalled = ground (arith, zero-bit_or b)
