-- ===== src/Iommu/Confined.antt =====
-- Devices stay inside the capabilities of their windows (kernel/src/iommu.c).
use native.Mathlib.Decide.{ℕ_discrete}
use moonlight_os.Prelude.{
  ℕ, ◌+◌, ◌/◌, ◌^◌, ◌≤◌, ◌<◌, ◌≡◌, ◌≢◌, inl, inr, refl, arith, Bool, true, false, none, some, set,
  set_self, set_ne, ◌&&◌, ◌==◌, ◌!=◌, if◌then◌else◌, Option-cases, bit_and, first, first-some,
  IsFirst, add32, sub32, not,
}
use moonlight_os.Prelude.Bits.{
  bit, bit_not, bit_and-digit, bit_and-not_iff, bit_and-zero, IsSubmask,
}
use moonlight_os.Prelude.BitOr.{bit-le}
use moonlight_os.Types.{ok, is_ok, error-cases}
use moonlight_os.Cheri.{perm_load, perm_store}
use moonlight_os.Cap.{Cap, cap_iommu}
use moonlight_os.Iommu.{
  IommuState, IommuWindow, zero_window, new_window, map_error, map_slot, map, unmap, covers, check,
  max_iommu_windows,
}

-- A window lies in the bounds of a valid IOMMU capability, with no more than its rights.
pub record IsConfined (w : IommuWindow) : Type 0 where
  pub cap_valid : w.cap.is_valid ≡ true
  pub cap_type : w.cap.type ≡ cap_iommu
  pub cap_tagged : w.cap.hw_cap.tag ≡ true
  pub low : w.cap.hw_cap.base ≤ w.paddr_base
  pub high : w.paddr_base + w.size ≤ w.cap.hw_cap.top
  pub top : w.cap.hw_cap.top < 2 ^ 64
  pub rights : IsSubmask 32 w.perms w.cap.rights

abbrev pub AllConfined : IommuState → Type 0
AllConfined io = (i : ℕ) → (io.windows i).valid ≡ true → IsConfined (io.windows i)

-- What a caller of `iommu_map` passes: a capability with ordered bounds, a range that does not wrap, and
-- 32-bit masks.
pub record IsRequest (cap : Cap) (paddr size perms : ℕ) : Type 0 where
  pub bounds : (cap.hw_cap.base ≤ cap.hw_cap.top) × (cap.hw_cap.top < 2 ^ 64)
  pub range : paddr + size < 2 ^ 64
  pub masks : (perms < 2 ^ 32) × (cap.rights < 2 ^ 32)

map_error-ok :
    (io : IommuState) (cap : Cap) (paddr size perms : ℕ)
    → IsRequest cap paddr size perms
    → map_error io cap paddr size perms ≡ ok
    → (cap.is_valid ≡ true)
      × (cap.type ≡ cap_iommu)
      × (cap.hw_cap.tag ≡ true)
      × (cap.hw_cap.base ≤ paddr)
      × (paddr + size ≤ cap.hw_cap.top)
      × (bit_and perms (bit_not 32 cap.rights) ≡ 0)
unfolding map_error
map_error-ok io cap paddr size perms r e = ground arith

new-IsConfined :
    (io : IommuState) (w : IommuWindow) (cap : Cap) (dev paddr size perms : ℕ)
    → IsRequest cap paddr size perms
    → map_error io cap paddr size perms ≡ ok
    → IsConfined (new_window w cap dev paddr size perms)
new-IsConfined io w cap dev paddr size perms r e =
    let (valid, type, tagged, low, high, masked) = map_error-ok io cap paddr size perms r e in
    record {
      cap_valid = valid;
      cap_type = type;
      cap_tagged = tagged;
      low = low;
      high = high;
      top = r.bounds.1;
      rights = (bit_and-not_iff 32 perms cap.rights r.masks.0 r.masks.1).0 masked;
    }

-- Writing one confined or invalid window keeps all windows confined.
set-AllConfined :
    (io : IommuState) (k count : ℕ) (w : IommuWindow)
    → AllConfined io
    → (w.valid ≡ true → IsConfined w)
    → AllConfined (record io { windows = set io.windows k w; count = count })
set-AllConfined io k count w all new i = elim (ℕ_discrete k i) [
  | yes here ↦ rw (← here, set_self io.windows k w) new
  | no other ↦ rw (set_ne io.windows k i w other) (all i)
]

map_slot-AllConfined :
    (io : IommuState) (cap : Cap) (dev paddr size perms : ℕ)
    → IsRequest cap paddr size perms
    → map_error io cap paddr size perms ≡ ok
    → AllConfined io
    → AllConfined (map_slot io cap dev paddr size perms).1
unfolding map_slot
map_slot-AllConfined io cap dev paddr size perms r e all =
    elim (Option-cases (first (λ i. not (io.windows i).valid) max_iommu_windows 0)) [
      | inl full ↦ rw (full, map_slot) all
      | inr (k, free) ↦
          rw (free, map_slot)
            (set-AllConfined io k (add32 io.count 1)
              (new_window (io.windows k) cap dev paddr size perms) all
              (λ _. new-IsConfined io (io.windows k) cap dev paddr size perms r e))
    ]

pub map-refused :
    (io : IommuState) (cap : Cap) (dev paddr size perms : ℕ)
    → is_ok (map_error io cap paddr size perms) ≡ false
    → (map io cap dev paddr size perms).1 ≡ io
unfolding map
map-refused io cap dev paddr size perms bad = ground arith

pub map-passed :
    (io : IommuState) (cap : Cap) (dev paddr size perms : ℕ)
    → map_error io cap paddr size perms ≡ ok
    → map io cap dev paddr size perms ≡ map_slot io cap dev paddr size perms
unfolding map
map-passed io cap dev paddr size perms e = ground arith

-- Mapping, whatever it returns, keeps every window in the bounds and rights of its capability, where the
-- capability's bounds are ordered, the requested range does not wrap, and the masks have 32 bits.
pub map-AllConfined :
    (io : IommuState) (cap : Cap) (dev paddr size perms : ℕ)
    → IsRequest cap paddr size perms
    → AllConfined io
    → AllConfined (map io cap dev paddr size perms).1
map-AllConfined io cap dev paddr size perms r all =
    elim (error-cases (map_error io cap paddr size perms)) [
      | inl good ↦
          rw (map-passed io cap dev paddr size perms good)
            (map_slot-AllConfined io cap dev paddr size perms r good all)
      | inr bad ↦ rw (map-refused io cap dev paddr size perms bad) all
    ]

pub unmap-AllConfined :
    (io : IommuState) (dev paddr : ℕ) → AllConfined io → AllConfined (unmap io dev paddr).1
unfolding unmap
unmap-AllConfined io dev paddr all =
    elim (Option-cases (
      first
        (λ i.
          (io.windows i).valid
          && ((io.windows i).dev_id == dev)
          && ((io.windows i).paddr_base == paddr))
        max_iommu_windows 0)) [
          | inl absent ↦ rw (absent, unmap) all
          | inr (k, found) ↦
              rw (found, unmap) (set-AllConfined io k (sub32 io.count 1) zero_window all (λ h. cc))
        ]

-- The bit of the rights that an access needs.
abbrev pub need_bit : Bool → ℕ
need_bit true = 1
need_bit false = 0

store_bit : (p : ℕ) → bit_and p perm_store ≢ 0 → bit p 1 ≡ 1
unfolding bit
store_bit p h = omega (arith, bit_and-digit p 2, bit_and-digit (p / 2) 1, bit_and-zero (p / 2 / 2))

load_bit : (p : ℕ) → bit_and p perm_load ≢ 0 → bit p 0 ≡ 1
unfolding bit
load_bit p h = omega (arith, bit_and-digit p 1, bit_and-zero (p / 2))

access_bit :
    (p : ℕ) (is_write : Bool)
    → (bit_and p (if is_write then perm_store else perm_load) != 0) ≡ true
    → bit p (need_bit is_write) ≡ 1
access_bit p true e = store_bit p (λ z. cc)
access_bit p false e = load_bit p (λ z. cc)

abbrev pub covered : IommuState → ℕ → ℕ → ℕ → ℕ → Bool
covered io dev paddr len i = covers (io.windows i) dev paddr len

-- A device access that a capability permits.
pub record IsPermitted (cap : Cap) (paddr len : ℕ) (is_write : Bool) : Type 0 where
  pub valid : cap.is_valid ≡ true
  pub type : cap.type ≡ cap_iommu
  pub tagged : cap.hw_cap.tag ≡ true
  pub low : cap.hw_cap.base ≤ paddr
  pub high : paddr + len ≤ cap.hw_cap.top
  pub right : bit cap.rights (need_bit is_write) ≡ 1

covers-valid :
    (w : IommuWindow) (dev paddr len : ℕ) → covers w dev paddr len ≡ true → w.valid ≡ true
covers-valid w dev paddr len hit = ground arith

need_bit-le : (is_write : Bool) → need_bit is_write < 32
need_bit-le true = omega arith
need_bit-le false = omega arith

covers-lem :
    (w : IommuWindow) (dev paddr len : ℕ)
    → covers w dev paddr len ≡ true
    → IsConfined w
    → paddr + len < 2 ^ 64
    → (w.valid ≡ true)
      × (w.dev_id ≡ dev)
      × (w.paddr_base ≤ paddr)
      × (paddr + len ≤ w.cap.hw_cap.top)
covers-lem w dev paddr len hit c nowrap =
    let low = c.low in let high = c.high in let top = c.top in ground arith

check-found :
    (io : IommuState) (dev paddr len i : ℕ) (is_write : Bool)
    → first (covered io dev paddr len) max_iommu_windows 0 ≡ some i
    → check io dev paddr len is_write ≡ true
    → (bit_and (io.windows i).perms (if is_write then perm_store else perm_load) != 0) ≡ true
unfolding check
check-found io dev paddr len i is_write found e = rw (← e, check, found) refl

pub check-absent :
    (io : IommuState) (dev paddr len : ℕ) (is_write : Bool)
    → first (covered io dev paddr len) max_iommu_windows 0 ≡ none
    → check io dev paddr len is_write ≡ false
unfolding check
check-absent io dev paddr len is_write absent = rw (absent, check) refl

squeeze : {a b : ℕ} → a ≡ 1 → a ≤ b → b ≤ 1 → b ≡ 1
squeeze one up down = omega arith

permits :
    (io : IommuState) (dev paddr len i : ℕ) (is_write : Bool)
    → AllConfined io
    → paddr + len < 2 ^ 64
    → IsFirst (covered io dev paddr len) 0 max_iommu_windows i
    → bit (io.windows i).perms (need_bit is_write) ≡ 1
    → (i : ℕ) × (i < max_iommu_windows)
      × ((io.windows i).valid ≡ true)
      × ((io.windows i).dev_id ≡ dev)
      × IsPermitted (io.windows i).cap paddr len is_write
permits io dev paddr len i is_write all nowrap f b =
    let w = io.windows i in
    let c = all i (covers-valid w dev paddr len f.hit) in
    let (valid, device, low, high) = covers-lem w dev paddr len f.hit c nowrap in
    (
      i,
      f.high,
      valid,
      device,
      record {
        valid = c.cap_valid;
        type = c.cap_type;
        tagged = c.cap_tagged;
        low = let below = c.low in omega arith;
        high = high;
        right =
            squeeze b (c.rights (need_bit is_write) (need_bit-le is_write))
              (bit-le w.cap.rights (need_bit is_write));
      },
    )

-- An access that the check lets through is in a valid window of the device, and the capability of that
-- window permits it, if the windows are confined and the range of the access does not wrap.
pub check-IsPermitted :
    (io : IommuState) (dev paddr len : ℕ) (is_write : Bool)
    → AllConfined io
    → paddr + len < 2 ^ 64
    → check io dev paddr len is_write ≡ true
    → (i : ℕ) × (i < max_iommu_windows)
      × ((io.windows i).valid ≡ true)
      × ((io.windows i).dev_id ≡ dev)
      × IsPermitted (io.windows i).cap paddr len is_write
check-IsPermitted io dev paddr len is_write all nowrap e =
    elim (Option-cases (first (covered io dev paddr len) max_iommu_windows 0)) [
      | inl absent ↦ let no = check-absent io dev paddr len is_write absent in absurd (ground arith)
      | inr (i, found) ↦
          permits io dev paddr len i is_write all nowrap
            (first-some (covered io dev paddr len) max_iommu_windows 0 i found)
            (access_bit (io.windows i).perms is_write
              (check-found io dev paddr len i is_write found e))
    ]
