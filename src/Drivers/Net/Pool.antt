-- ===== src/Drivers/Net/Pool.antt =====
-- The network driver reaches only its own pool of memory (userspace/drivers/virtio_net.c over
-- kernel/src/iommu.c).
use native.Mathlib.Decide.{ℕ_discrete}
use mathlib.Core.Path.{subst}
use moonlight_os.Prelude.{
  ℕ, ◌+◌, ◌^◌, ◌≤◌, ◌<◌, ◌≡◌, ◌≢◌, inl, inr, refl, arith, Bool, true, false, not, ◌&&◌, ◌==◌,
  Bool-cases, Option-cases, set, set_self, set_ne, first, first-some, List, [], ◌∷◌, add32, sub32,
  bit_or,
}
use moonlight_os.Types.{error-cases}
use moonlight_os.Cheri.{perm_load, perm_store}
use moonlight_os.Cap.{Cap}
use moonlight_os.Iommu
use moonlight_os.Iommu.{
  IommuState, IommuWindow, new_window, zero_window, covers, map_slot, map_error, max_iommu_windows,
}
use moonlight_os.Iommu.Confined.{
  AllConfined, IsRequest, IsPermitted, map-AllConfined, unmap-AllConfined, check-IsPermitted,
  map-refused, map-passed, check-absent,
}
use moonlight_os.Drivers.Net.{
  NetDriver, set_iommu, bind_to, dma_refuses, dma_map, dma_unmap, dma_check,
}

-- A window of the driver: in its pool, and under its capability.
pub record IsOwn (d : NetDriver) (w : IommuWindow) : Type 0 where
  pub low : d.dma_base ≤ w.paddr_base
  pub high : w.paddr_base + w.size ≤ d.dma_base + d.dma_len
  pub cap : w.cap ≡ d.iommu_cap

abbrev pub AllOwn : NetDriver → IommuState → Type 0
AllOwn d io =
    (i : ℕ)
    → (io.windows i).valid ≡ true
    → (io.windows i).dev_id ≡ d.dev_id
    → IsOwn d (io.windows i)

set-AllOwn :
    (d : NetDriver) (io : IommuState) (k count : ℕ) (w : IommuWindow)
    → AllOwn d io
    → (w.valid ≡ true → w.dev_id ≡ d.dev_id → IsOwn d w)
    → AllOwn d (record io { windows = set io.windows k w; count = count })
set-AllOwn d io k count w all new i = elim (ℕ_discrete k i) [
  | yes here ↦ rw (← here, set_self io.windows k w) new
  | no other ↦ rw (set_ne io.windows k i w other) (all i)
]

map_slot-AllOwn :
    (d : NetDriver) (io : IommuState) (paddr size perms : ℕ)
    → d.dma_base ≤ paddr
    → paddr + size ≤ d.dma_base + d.dma_len
    → AllOwn d io
    → AllOwn d (map_slot io d.iommu_cap d.dev_id paddr size perms).1
unfolding map_slot
map_slot-AllOwn d io paddr size perms low high all =
    elim (Option-cases (first (λ i. not (io.windows i).valid) max_iommu_windows 0)) [
      | inl full ↦ rw (full, map_slot) all
      | inr (k, free) ↦
          rw (free, map_slot)
            (set-AllOwn d io k (add32 io.count 1)
              (new_window (io.windows k) d.iommu_cap d.dev_id paddr size perms) all
              (λ _ _. record { low = low; high = high; cap = refl }))
    ]

map-AllOwn :
    (d : NetDriver) (io : IommuState) (paddr size perms : ℕ)
    → d.dma_base ≤ paddr
    → paddr + size ≤ d.dma_base + d.dma_len
    → AllOwn d io
    → AllOwn d (Iommu.map io d.iommu_cap d.dev_id paddr size perms).1
map-AllOwn d io paddr size perms low high all =
    elim (error-cases (map_error io d.iommu_cap paddr size perms)) [
      | inl good ↦
          rw (map-passed io d.iommu_cap d.dev_id paddr size perms good)
            (map_slot-AllOwn d io paddr size perms low high all)
      | inr bad ↦ rw (map-refused io d.iommu_cap d.dev_id paddr size perms bad) all
    ]

unmap-AllOwn :
    (d : NetDriver) (io : IommuState) (dev paddr : ℕ)
    → AllOwn d io
    → AllOwn d (Iommu.unmap io dev paddr).1
unfolding Iommu.unmap
unmap-AllOwn d io dev paddr all =
    elim (Option-cases (
      first
        (λ i.
          (io.windows i).valid
          && ((io.windows i).dev_id == dev)
          && ((io.windows i).paddr_base == paddr))
        max_iommu_windows 0)) [
          | inl absent ↦ rw (absent, Iommu.unmap) all
          | inr (k, found) ↦
              rw (found, Iommu.unmap)
                (set-AllOwn d io k (sub32 io.count 1) zero_window all (λ v _. cc))
        ]

dma_refuses-passed :
    (d : NetDriver) (paddr size : ℕ)
    → dma_refuses d paddr size ≡ false
    → paddr + size < 2 ^ 64
    → d.dma_base + d.dma_len < 2 ^ 64
    → (d.dma_base ≤ paddr) × (paddr + size ≤ d.dma_base + d.dma_len)
unfolding dma_refuses
dma_refuses-passed d paddr size e nowrap fits = ground arith

-- What the driver asks for between the binding and an access.
pub data Request : Type 0 where
  map_buffer : ℕ → ℕ → ℕ → Request
  unmap_buffer : ℕ → Request

unfoldable pub serve : NetDriver → IommuState → Request → IommuState
serve d io (map_buffer paddr size perms) = (dma_map d io paddr size perms).1
serve d io (unmap_buffer paddr) = (dma_unmap d io paddr).1

unfoldable pub serve_all : NetDriver → IommuState → List Request → IommuState
serve_all d io [] = io
serve_all d io (r ∷ rs) = serve_all d (serve d io r) rs

-- The ranges do not wrap, and the masks have 32 bits.
abbrev pub AllSmall : List Request → Type 0
AllSmall [] = Unit {0}
AllSmall (map_buffer paddr size perms ∷ rs) =
    ((paddr + size < 2 ^ 64) × (perms < 2 ^ 32)) × AllSmall rs
AllSmall (unmap_buffer paddr ∷ rs) = AllSmall rs

-- A capability with ordered bounds and a 32-bit mask of rights.
record IsSane (cap : Cap) : Type 0 where
  bounds : (cap.hw_cap.base ≤ cap.hw_cap.top) × (cap.hw_cap.top < 2 ^ 64)
  mask : cap.rights < 2 ^ 32

request-IsRequest :
    (cap : Cap) (paddr size perms : ℕ)
    → IsSane cap
    → paddr + size < 2 ^ 64
    → perms < 2 ^ 32
    → IsRequest cap paddr size perms
request-IsRequest cap paddr size perms s fits small = record {
  bounds = s.bounds;
  range = fits;
  masks = (small, s.mask);
}

-- What the windows satisfy between requests.
record IsGuarded (d : NetDriver) (io : IommuState) : Type 0 where
  own : AllOwn d io
  confined : AllConfined io

dma_unmap-there :
    (d : NetDriver) (io : IommuState) (paddr : ℕ)
    → d.has_iommu ≡ true
    → (dma_unmap d io paddr).1 ≡ (Iommu.unmap io d.dev_id paddr).1
unfolding dma_unmap
dma_unmap-there d io paddr e = ground arith

dma_unmap-missing :
    (d : NetDriver) (io : IommuState) (paddr : ℕ)
    → d.has_iommu ≡ false
    → (dma_unmap d io paddr).1 ≡ io
unfolding dma_unmap
dma_unmap-missing d io paddr e = ground arith

module _ (d : NetDriver) (sane : IsSane d.iommu_cap) (fits : d.dma_base + d.dma_len < 2 ^ 64) where
  dma_map-IsGuarded :
      (io : IommuState) (paddr size perms : ℕ)
      → paddr + size < 2 ^ 64
      → perms < 2 ^ 32
      → IsGuarded d io
      → IsGuarded d (dma_map d io paddr size perms).1
  unfolding dma_map
  dma_map-IsGuarded io paddr size perms nowrap small g =
      elim (Bool-cases (dma_refuses d paddr size)) [
        | inl refused ↦ rw refused g
        | inr passed ↦
            let (low, high) = dma_refuses-passed d paddr size passed nowrap fits in
            rw passed (record {
              own = map-AllOwn d io paddr size perms low high g.own;
              confined =
                  map-AllConfined io d.iommu_cap d.dev_id paddr size perms
                    (request-IsRequest d.iommu_cap paddr size perms sane nowrap small) g.confined;
            })
      ]

  dma_unmap-IsGuarded :
      (io : IommuState) (paddr : ℕ) → IsGuarded d io → IsGuarded d (dma_unmap d io paddr).1
  dma_unmap-IsGuarded io paddr g = elim (Bool-cases d.has_iommu) [
    | inl there ↦ rw (dma_unmap-there d io paddr there) (record {
      own = unmap-AllOwn d io d.dev_id paddr g.own;
      confined = unmap-AllConfined io d.dev_id paddr g.confined;
    })
    | inr missing ↦ rw (dma_unmap-missing d io paddr missing) g
  ]

  serve_all-IsGuarded :
      (io : IommuState) (rs : List Request)
      → AllSmall rs
      → IsGuarded d io
      → IsGuarded d (serve_all d io rs)
  unfolding serve_all serve
  serve_all-IsGuarded io [] small g = g
  serve_all-IsGuarded io (map_buffer paddr size perms ∷ rs) ((nowrap, mask), small) g =
      serve_all-IsGuarded (dma_map d io paddr size perms).1 rs small
        (dma_map-IsGuarded io paddr size perms nowrap mask g)
  serve_all-IsGuarded io (unmap_buffer paddr ∷ rs) small g =
      serve_all-IsGuarded (dma_unmap d io paddr).1 rs small (dma_unmap-IsGuarded io paddr g)

-- The access is in the pool, and the driver's capability permits it.
pub record IsReached (base len : ℕ) (cap : Cap) (paddr n : ℕ) (is_write : Bool) : Type 0 where
  pub low : base ≤ paddr
  pub high : paddr + n ≤ base + len
  pub permitted : IsPermitted cap paddr n is_write

covers-window :
    (w : IommuWindow) (dev paddr n : ℕ)
    → covers w dev paddr n ≡ true
    → paddr + n < 2 ^ 64
    → w.paddr_base + w.size < 2 ^ 64
    → (w.paddr_base ≤ paddr) × (paddr + n ≤ w.paddr_base + w.size)
covers-window w dev paddr n e nowrap fits = ground arith

covers-ours :
    (w : IommuWindow) (dev paddr n : ℕ)
    → covers w dev paddr n ≡ true
    → (w.valid ≡ true) × (w.dev_id ≡ dev)
covers-ours w dev paddr n e = ground arith

check-window :
    (io : IommuState) (dev paddr n : ℕ) (is_write : Bool)
    → Iommu.check io dev paddr n is_write ≡ true
    → (i : ℕ) × (covers (io.windows i) dev paddr n ≡ true)
unfolding Iommu.check
check-window io dev paddr n is_write e =
    elim (Option-cases (first (λ i. covers (io.windows i) dev paddr n) max_iommu_windows 0)) [
      | inl absent ↦
          let refused = check-absent io dev paddr n is_write absent in absurd (ground arith)
      | inr (i, found) ↦
          (i, (first-some (λ i. covers (io.windows i) dev paddr n) max_iommu_windows 0 i found).hit)
    ]

set_iommu-bound :
    (d d' : NetDriver) (io io' : IommuState) (cap : Cap) (dev base len : ℕ)
    → set_iommu d io cap dev base len ≡ (true, d', io')
    → (d' ≡ record (bind_to d cap dev base len) { iommu_bound = true })
      × (io' ≡ (Iommu.map io cap dev base len (bit_or perm_load perm_store)).1)
unfolding set_iommu
set_iommu-bound d d' io io' cap dev base len e = ground arith

guarded-IsReached :
    (d : NetDriver) (io : IommuState) (paddr n : ℕ) (is_write : Bool)
    → IsGuarded d io
    → d.dma_base + d.dma_len < 2 ^ 64
    → paddr + n < 2 ^ 64
    → dma_check d io paddr n is_write ≡ true
    → IsReached d.dma_base d.dma_len d.iommu_cap paddr n is_write
unfolding dma_check
guarded-IsReached d io paddr n is_write g fits nowrap e =
    let passed : Iommu.check io d.dev_id paddr n is_write ≡ true = ground arith in
    let (i, c) = check-window io d.dev_id paddr n is_write passed in
    let (valid, ours) = covers-ours (io.windows i) d.dev_id paddr n c in
    let own = g.own i valid ours in
    let (low, high) =
      covers-window (io.windows i) d.dev_id paddr n c nowrap (omega (arith, own.high)) in
    let (j, _, valid', ours', permitted) =
      check-IsPermitted io d.dev_id paddr n is_write g.confined nowrap passed in
    record {
      low = omega (arith, own.low);
      high = omega (arith, own.high);
      permitted =
          subst (λ c. IsPermitted c paddr n is_write) ((g.own j valid' ours').cap) permitted;
    }

module _ (d d' : NetDriver) (io io' : IommuState) (cap : Cap) (dev base len : ℕ)
    (confined : AllConfined io)
    (unused : (i : ℕ) → (io.windows i).valid ≡ true → (io.windows i).dev_id ≢ dev)
    (bounds : (cap.hw_cap.base ≤ cap.hw_cap.top) × (cap.hw_cap.top < 2 ^ 64))
    (mask : cap.rights < 2 ^ 32) (fits : base + len < 2 ^ 64)
    (bound : set_iommu d io cap dev base len ≡ (true, d', io')) where
  abbrev bound_driver : NetDriver
  bound_driver = record (bind_to d cap dev base len) { iommu_bound = true }

  bound-IsGuarded :
      IsGuarded bound_driver (Iommu.map io cap dev base len (bit_or perm_load perm_store)).1
  bound-IsGuarded = record {
    own =
        map-AllOwn bound_driver io base len (bit_or perm_load perm_store) (omega arith)
          (omega arith) (λ i valid ours. absurd (unused i valid ours));
    confined =
        map-AllConfined io cap dev base len (bit_or perm_load perm_store)
          (record { bounds = bounds; range = fits; masks = (omega arith, mask) }) confined;
  }

  -- Once the driver is bound to an IOMMU that had no window of its device, and whose windows in use all stay in the
  -- bounds, below 2^64, and the rights of valid and tagged IOMMU capabilities, and over any series of its
  -- requests to map and unmap buffers, every access that `net_driver_dma_check` lets through is inside the pool
  -- of the binding, and the capability of the binding permits it. The ranges of the pool, of the requests and of
  -- the access do not wrap, the masks have 32 bits, and the bounds of the capability are ordered and below 2^64.
  pub dma_check-IsReached :
      (rs : List Request) (paddr n : ℕ) (is_write : Bool)
      → AllSmall rs
      → paddr + n < 2 ^ 64
      → dma_check d' (serve_all d' io' rs) paddr n is_write ≡ true
      → IsReached base len cap paddr n is_write
  dma_check-IsReached rs paddr n is_write small nowrap e =
      let (ed, ei) = set_iommu-bound d d' io io' cap dev base len bound in
      let io₁ = (Iommu.map io cap dev base len (bit_or perm_load perm_store)).1 in
      let checked : dma_check bound_driver (serve_all bound_driver io₁ rs) paddr n is_write ≡ true =
        rw (← ed, ← ei) e in
      guarded-IsReached bound_driver (serve_all bound_driver io₁ rs) paddr n is_write
        (serve_all-IsGuarded bound_driver (record { bounds = bounds; mask = mask }) fits io₁ rs
          small bound-IsGuarded)
        fits nowrap checked
