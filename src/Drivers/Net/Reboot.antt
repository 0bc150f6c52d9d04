-- ===== src/Drivers/Net/Reboot.antt =====
-- What a reboot of the network driver leaves behind (userspace/drivers/virtio_net.c).
use moonlight_os.Prelude.{
  ℕ, ◌≡◌, ◌≢◌, inl, inr, refl, arith, Bool, true, ◌&&◌, ◌==◌, Bool-cases, Option-cases, set_ne,
  first, first-some,
}
use moonlight_os.Iommu
use moonlight_os.Iommu.{IommuState, IommuWindow, zero_window, max_iommu_windows}
use moonlight_os.Drivers.Net.{NetDriver, reboot}

abbrev taken : IommuWindow → ℕ → ℕ → Bool
taken w dev paddr = w.valid && (w.dev_id == dev) && (w.paddr_base == paddr)

taken-paddr : (w : IommuWindow) (dev paddr : ℕ) → taken w dev paddr ≡ true → w.paddr_base ≡ paddr
taken-paddr w dev paddr e = ground arith

unmap-other :
    (io : IommuState) (dev paddr i : ℕ)
    → (io.windows i).paddr_base ≢ paddr
    → (Iommu.unmap io dev paddr).1.windows i ≡ io.windows i
unfolding Iommu.unmap
unmap-other io dev paddr i ne =
    elim (Option-cases (first (λ j. taken (io.windows j) dev paddr) max_iommu_windows 0)) [
      | inl absent ↦ rw (absent, Iommu.unmap) refl
      | inr (k, found) ↦
          let f = first-some (λ j. taken (io.windows j) dev paddr) max_iommu_windows 0 k found in
          let at = taken-paddr (io.windows k) dev paddr f.hit in
          rw (found, Iommu.unmap) (set_ne io.windows k i zero_window (λ e. ne (rw (← e) at)))
    ]

-- A reboot takes back the window at the start of the pool only: every window at another address, which the
-- driver mapped for a buffer, is still there, and the device still reaches it.
pub reboot-keeps :
    (d : NetDriver) (io : IommuState) (i : ℕ)
    → (io.windows i).paddr_base ≢ d.dma_base
    → (reboot d io).1.windows i ≡ io.windows i
unfolding reboot
reboot-keeps d io i ne = elim (Bool-cases (d.has_iommu && d.iommu_bound)) [
  | inl bound ↦ rw bound (unmap-other io d.dev_id d.dma_base i ne)
  | inr free ↦ rw free refl
]
