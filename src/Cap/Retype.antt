-- ===== src/Cap/Retype.antt =====
-- `cap_can_retype` and `cap_retype` of kernel/src/cap.c.
use native.Mathlib.Decide.{ℕ_discrete}
use native.Mathlib.Nat.{pow-suc}
use mathlib.Core.Path.{ap₂}
use moonlight_os.Cheri.{
  otype_cnode, otype_tcb, otype_vspace, otype_endpoint, otype_notification, otype_frame,
  otype_sched_context, otype_time_partition,
}
use moonlight_os.Prelude.{
  ◌==◌, if◌then◌else◌, Option, some, none, ◌⊎◌, inl, inr, Bool-cases, ℕ, zero, suc, ◌+◌, ◌-◌, ◌/◌,
  ◌%◌, ◌^◌, ◌≤◌, ◌<◌, ◌≡◌, ◌≢◌, ◌↔◌, ap, refl, arith, true, false, bit_and, sub64,
}
use moonlight_os.Prelude.Bits.{bit_and-digit, zero-bit_and}
use moonlight_os.Cap.{
  Cap, can_retype, retype, cap_untyped, cap_cnode, cap_tcb, cap_vspace, cap_endpoint,
  cap_notification, cap_frame, cap_sched_context, cap_time_partition, otype_of, zero_cap, pointer,
  untyped_size,
}

bit_and-self_below : (f n : ℕ) → n ≤ f → bit_and n n ≡ n
bit_and-self_below f zero h = zero-bit_and 0
bit_and-self_below zero (suc n) h = absurd (omega arith)
bit_and-self_below (suc f) (suc n) h =
    omega (arith, bit_and-digit (suc n) (suc n), bit_and-self_below f (suc n / 2) (omega arith))

lower_even : (n : ℕ) → 0 < n → n % 2 ≡ 0 → (n - 1) / 2 ≡ n / 2 - 1
lower_even n pos even = omega arith

odd_case : (n : ℕ) → n % 2 ≢ 0 → bit_and n (n - 1) ≡ 0 → n / 2 ≡ 0
odd_case n odd e =
    let same : (n - 1) / 2 ≡ n / 2 = omega arith in
    let rest = bit_and-digit n (n - 1) in
    omega (arith, ap (bit_and (n / 2)) same, rest, bit_and-self_below (n / 2) (n / 2) (omega arith))

-- `(n & (n-1)) == 0` finds the powers of two.
power_of_and : (f n : ℕ) → n ≤ f → 0 < n → bit_and n (n - 1) ≡ 0 → (k : ℕ) × (n ≡ 2 ^ k)
power_of_and zero n h pos e = absurd (omega arith)
power_of_and (suc f) n h pos e = elim (ℕ_discrete (n % 2) 0) [
  | yes even ↦
      let (k, half) =
        power_of_and f (n / 2) (omega arith) (omega arith)
          (rw (← lower_even n pos even) (omega (arith, bit_and-digit n (n - 1)))) in
      (suc k, omega (arith, half, pow-suc 2 k))
  | no odd ↦ (0, omega (arith, odd_case n odd e))
]

and_of_power : (k : ℕ) → bit_and (2 ^ k) (2 ^ k - 1) ≡ 0
and_of_power zero = refl
and_of_power (suc k) =
    let low : (2 ^ suc k - 1) / 2 ≡ 2 ^ k - 1 = omega (arith, pow-suc 2 k) in
    let high : 2 ^ suc k / 2 ≡ 2 ^ k = omega (arith, pow-suc 2 k) in
    omega (
      arith,
      bit_and-digit (2 ^ suc k) (2 ^ suc k - 1),
      ap₂ bit_and high low,
      and_of_power k,
      pow-suc 2 k,
    )

-- A retype that is allowed: the whole condition.
pub record CanRetype (untyped : Cap) (new_type size : ℕ) : Type 0 where
  pub type : untyped.type ≡ cap_untyped
  pub valid : untyped.is_valid ≡ true
  pub fits : size ≤ untyped_size untyped.u
  pub object : new_type ≢ cap_untyped
  pub power : (k : ℕ) × (size ≡ 2 ^ k)
  pub page : 4096 ≤ size

can_retype-passed :
    (c : Cap) (t size : ℕ)
    → can_retype c t size ≡ true
    → (c.type ≡ cap_untyped)
      × (c.is_valid ≡ true)
      × (size ≤ untyped_size c.u)
      × (t ≢ cap_untyped)
      × (bit_and size (sub64 size 1) ≡ 0)
      × (4096 ≤ size)
unfolding can_retype
can_retype-passed c t size e = ground arith

can_retype-allowed :
    (c : Cap) (t size : ℕ)
    → c.type ≡ cap_untyped
    → c.is_valid ≡ true
    → size ≤ untyped_size c.u
    → t ≢ cap_untyped
    → bit_and size (sub64 size 1) ≡ 0
    → 4096 ≤ size
    → can_retype c t size ≡ true
unfolding can_retype
can_retype-allowed c t size type valid fits object mask page = ground arith

sub64-one : (n : ℕ) → 0 < n → n < 2 ^ 64 → sub64 n 1 ≡ n - 1
sub64-one n pos h = omega arith

-- `cap_can_retype` accepts exactly a valid untyped capability that is large enough, a new type other
-- than untyped, and a size that is a power of two of at least a page, given a size of 64 bits.
pub can_retype_iff :
    (c : Cap) (t size : ℕ) → size < 2 ^ 64 → (can_retype c t size ≡ true) ↔ CanRetype c t size
can_retype_iff c t size h = (
  λ e.
      let (type, valid, fits, object, mask, page) = can_retype-passed c t size e in
      record {
        type = type;
        valid = valid;
        fits = fits;
        object = object;
        power =
            power_of_and size size (omega arith) (omega arith)
              (rw (sub64-one size (omega arith) h) at mask);
        page = page;
      },
  λ r.
      can_retype-allowed c t size r.type r.valid r.fits r.object
        (rw (sub64-one size (omega (arith, r.page)) h, r.power.1) (and_of_power r.power.0)) r.page,
)

-- What a retype makes of a valid untyped capability: a sealed, tagged capability of the new type, which is not
-- untyped, with all four rights, whose bounds lie in the untyped region.
pub record IsCarved (untyped c : Cap) (new_type size : ℕ) : Type 0 where
  pub source : (untyped.type ≡ cap_untyped) × (untyped.is_valid ≡ true)
  pub object : new_type ≢ cap_untyped
  pub type : c.type ≡ new_type
  pub valid : c.is_valid ≡ true
  pub sealed : (c.is_sealed ≡ true) × (c.hw_cap.sealed ≡ true)
  pub tagged : c.hw_cap.tag ≡ true
  pub rights : c.rights ≡ 15
  pub low : pointer untyped.u ≤ c.hw_cap.base
  pub exact : c.hw_cap.top ≡ c.hw_cap.base + size
  pub high : c.hw_cap.top ≤ pointer untyped.u + untyped_size untyped.u

-- Retyping a region from its start is refused with the null capability, or the region's capability is valid and
-- untyped, and the result is a capability within the region, if the region does not run past the end of the
-- address space.
pub retype-IsCarved :
    (c : Cap) (t size : ℕ)
    → pointer c.u + untyped_size c.u < 2 ^ 64
    → ((can_retype c t size ≡ true) × IsCarved c (retype c t (pointer c.u) size) t size)
      ⊎ ((can_retype c t size ≡ false) × (retype c t (pointer c.u) size ≡ zero_cap))
unfolding retype
retype-IsCarved c t size fits = elim (Bool-cases (can_retype c t size)) [
  | inl e ↦ let passed = can_retype-passed c t size e in inl (e, ground (arith, passed))
  | inr e ↦ inr (e, ground arith)
]

-- The sealing type that kernel/include/cheri.h gives an object type.
abbrev pub declared_otype : ℕ → Option ℕ
declared_otype t =
    if t == cap_cnode
    then some otype_cnode
    else if t == cap_tcb
    then some otype_tcb
    else if t == cap_vspace
    then some otype_vspace
    else if t == cap_endpoint
    then some otype_endpoint
    else if t == cap_notification
    then some otype_notification
    else if t == cap_frame
    then some otype_frame
    else if t == cap_sched_context
    then some otype_sched_context
    else if t == cap_time_partition
    then some otype_time_partition
    else none

otype-frame : (t d : ℕ) → declared_otype t ≡ some d → (otype_of t ≡ d) ↔ (t ≡ cap_frame)
otype-frame t d decl = ground arith

-- Of the object types that have a sealing type, an accepted retype seals with it for frames only.
pub retype-otype_iff :
    (c : Cap) (t size d paddr : ℕ)
    → can_retype c t size ≡ true
    → declared_otype t ≡ some d
    → ((retype c t paddr size).hw_cap.otype ≡ d) ↔ (t ≡ cap_frame)
unfolding retype
retype-otype_iff c t size d paddr e decl = rw e (otype-frame t d decl)
