-- ===== src/Syscall/Invoke/Authority.antt =====
-- Which capabilities an invocation can leave in the capability tables (kernel/src/syscall.c).
use moonlight_os.Prelude.{
  ℕ, ◌+◌, ◌^◌, ◌<◌, ◌≡◌, ◌⊎◌, inl, inr, arith, true, Option, some, Option-cases,
}
use moonlight_os.Types.{KError}
use moonlight_os.Cap.{Cap, pointer, untyped_size, can_retype, retype}
use moonlight_os.Cap.Rights.{IsAttenuation}
use moonlight_os.Cap.Retype.{IsCarved, retype-IsCarved}
use moonlight_os.Cnode.{Store, insert, copy, mint, move, delete}
use moonlight_os.Cnode.Derived.{AllWords, Kept, Sourced-slot, insert-slots, move-Kept}
use moonlight_os.Tcb.{Tcb}
use moonlight_os.Syscall.{
  Kernel, Layout, byte, find_cap, retype_into, invoke_copy, invoke_mint, invoke_delete, invoke_move,
  invoke_tcb, configure_with, invoke_configure, map_frame, invoke_map, invoke_unmap, invoke_bind,
}

-- Where a capability may come from: it attenuates one of the tables, or it is carved from the one invoked.
abbrev pub Granted : Store → Cap → Cap → Type 0
Granted m cap c =
    ((q : ℕ) × (j : ℕ) × IsAttenuation ((m q).slots j) c)
    ⊎ ((t : ℕ) × (size : ℕ) × IsCarved cap c t size)

abbrev pub AllGranted : Store → Cap → Store → Type 0
AllGranted m cap m' = (p i : ℕ) → ((m' p).slots i).is_valid ≡ true → Granted m cap ((m' p).slots i)

Kept-AllGranted : (m : Store) (cap : Cap) (m' : Store) → Kept m m' → AllGranted m cap m'
Kept-AllGranted m c m' kept p i valid = inl (kept.source p i valid)

pub same-AllGranted : (m : Store) (cap : Cap) → AllGranted m cap m
same-AllGranted m c p i valid = inl (Sourced-slot m p i valid)

retype_into-cases :
    (k : Kernel) (cap : Cap) (t size slot : ℕ)
    → ((retype_into k cap t size slot).1.cnodes ≡ k.cnodes)
      ⊎ ((can_retype cap t size ≡ true)
          × ((retype_into k cap t size slot).1.cnodes
              ≡ insert k.cnodes k.root slot (retype cap t (pointer cap.u) size)))
unfolding retype_into
retype_into-cases k c t size slot = ground arith

carved :
    (c : Cap) (t size : ℕ)
    → pointer c.u + untyped_size c.u < 2 ^ 64
    → can_retype c t size ≡ true
    → IsCarved c (retype c t (pointer c.u) size) t size
carved c t size room allowed = elim (retype-IsCarved c t size room) [
  | inl (_, is) ↦ is
  | inr (refused, _) ↦ absurd (ground arith)
]

pub retype_into-AllGranted :
    (k : Kernel) (cap : Cap) (t size slot : ℕ)
    → pointer cap.u + untyped_size cap.u < 2 ^ 64
    → AllGranted k.cnodes cap (retype_into k cap t size slot).1.cnodes
retype_into-AllGranted k c t size slot room p i = elim (retype_into-cases k c t size slot) [
  | inl same ↦ rw same (same-AllGranted k.cnodes c p i)
  | inr (allowed, new) ↦
      rw new (elim (insert-slots k.cnodes k.root slot (retype c t (pointer c.u) size) p i) [
        | inl here ↦ rw here (λ valid. inr (t, size, carved c t size room allowed))
        | inr old ↦ rw old (λ valid. inl (Sourced-slot k.cnodes p i valid))
      ])
]

-- Either the tables are as they were, or an operation on tables made them.
pub from-Kept :
    (m : Store) (cap : Cap) (m' m'' : Store)
    → (m' ≡ m) ⊎ (m' ≡ m'')
    → Kept m m''
    → AllGranted m cap m'
from-Kept m c m' m'' (inl same) kept = rw same (same-AllGranted m c)
from-Kept m c m' m'' (inr new) kept = rw new (Kept-AllGranted m c m'' kept)

pub invoke_copy-cases :
    (k : Kernel) (cap : Cap) (arg2 arg3 : ℕ)
    → ((invoke_copy k cap arg2 arg3).1.cnodes ≡ k.cnodes)
      ⊎ ((invoke_copy k cap arg2 arg3).1.cnodes
          ≡ (copy k.cnodes (some k.root) (byte arg3 0) (some k.root) (byte arg2 0) cap.rights).1)
unfolding invoke_copy
invoke_copy-cases k c arg2 arg3 = ground arith

pub invoke_mint-cases :
    (k : Kernel) (cap : Cap) (arg2 arg3 : ℕ)
    → ((invoke_mint k cap arg2 arg3).1.cnodes ≡ k.cnodes)
      ⊎ ((invoke_mint k cap arg2 arg3).1.cnodes
          ≡ (mint k.cnodes
              (some k.root)
              (byte arg3 0)
              (some k.root)
              (byte arg2 0)
              cap.rights
              (byte arg2 8)).1)
unfolding invoke_mint
invoke_mint-cases k c arg2 arg3 = ground arith

pub invoke_delete-cases :
    (k : Kernel) (cap : Cap) (arg2 : ℕ)
    → ((invoke_delete k cap arg2).1.cnodes ≡ k.cnodes)
      ⊎ ((invoke_delete k cap arg2).1.cnodes ≡ (delete k.cnodes (some k.root) (byte arg2 0)).1)
unfolding invoke_delete
invoke_delete-cases k c arg2 = ground arith

invoke_move-cases :
    (k : Kernel) (cap : Cap) (arg2 arg3 : ℕ) (r : KError × Kernel)
    → invoke_move k cap arg2 arg3 ≡ some r
    → (r.1.cnodes ≡ k.cnodes)
      ⊎ ((x : KError × Store) × (move k.cnodes
              (some k.root)
              (byte arg3 0)
              (some k.root)
              (byte arg2 0)
            ≡ some x)
          × (r.1.cnodes ≡ x.1))
unfolding invoke_move
invoke_move-cases k c arg2 arg3 r e =
    elim (Option-cases (move k.cnodes (some k.root) (byte arg3 0) (some k.root) (byte arg2 0))) [
      | inl out ↦ ground arith
      | inr (x, found) ↦ ground arith
    ]

pub invoke_move-AllGranted :
    (k : Kernel) (cap : Cap) (arg2 arg3 : ℕ) (r : KError × Kernel)
    → AllWords k.cnodes
    → invoke_move k cap arg2 arg3 ≡ some r
    → AllGranted k.cnodes cap r.1.cnodes
invoke_move-AllGranted k c arg2 arg3 r w e = elim (invoke_move-cases k c arg2 arg3 r e) [
  | inl same ↦ rw same (same-AllGranted k.cnodes c)
  | inr ((err, m'), ran, new) ↦
      from-Kept k.cnodes c r.1.cnodes m' (inr new)
        (move-Kept k.cnodes m' k.root (byte arg3 0) k.root (byte arg2 0) err w ran)
]

pub invoke_tcb-same :
    (m : Layout) (k : Kernel) (cap : Cap) (f : Tcb → Tcb) (r : KError × Kernel)
    → invoke_tcb m k cap f ≡ some r
    → r.1.cnodes ≡ k.cnodes
unfolding invoke_tcb
invoke_tcb-same m k c f r e = ground arith

configure_with-same :
    (m : Layout) (k : Kernel) (cap : Cap) (arg3 : ℕ) (a b : Option Cap) (r : KError × Kernel)
    → configure_with m k cap arg3 a b ≡ some r
    → r.1.cnodes ≡ k.cnodes
unfolding configure_with
configure_with-same m k c arg3 a b r e = ground arith

pub invoke_configure-same :
    (m : Layout) (k : Kernel) (cap : Cap) (arg1 arg2 arg3 : ℕ) (r : KError × Kernel)
    → invoke_configure m k cap arg1 arg2 arg3 ≡ some r
    → r.1.cnodes ≡ k.cnodes
unfolding invoke_configure
invoke_configure-same m k c arg1 arg2 arg3 r e = ground (
  arith,
  configure_with-same m k c arg3 (find_cap (k.cnodes k.root) (byte arg1 16))
      (find_cap (k.cnodes k.root) (byte arg2 0)) r,
)

map_frame-same :
    (m : Layout) (k : Kernel) (cap : Cap) (vaddr : ℕ) (f : Option Cap) (r : KError × Kernel)
    → map_frame m k cap vaddr f ≡ some r
    → r.1.cnodes ≡ k.cnodes
unfolding map_frame
map_frame-same m k c vaddr f r e = ground arith

pub invoke_map-same :
    (m : Layout) (k : Kernel) (cap : Cap) (arg2 arg3 : ℕ) (r : KError × Kernel)
    → invoke_map m k cap arg2 arg3 ≡ some r
    → r.1.cnodes ≡ k.cnodes
unfolding invoke_map
invoke_map-same m k c arg2 arg3 r e =
    ground (arith, map_frame-same m k c arg2 (find_cap (k.cnodes k.root) (byte arg3 0)) r)

pub invoke_unmap-same :
    (m : Layout) (k : Kernel) (cap : Cap) (arg2 arg3 : ℕ) (r : KError × Kernel)
    → invoke_unmap m k cap arg2 arg3 ≡ some r
    → r.1.cnodes ≡ k.cnodes
unfolding invoke_unmap
invoke_unmap-same m k c arg2 arg3 r e = ground arith

pub invoke_bind-same :
    (k : Kernel) (cap : Cap) (arg1 arg2 arg3 : ℕ)
    → (invoke_bind k cap arg1 arg2 arg3).1.cnodes ≡ k.cnodes
unfolding invoke_bind
invoke_bind-same k c arg1 arg2 arg3 = ground arith
