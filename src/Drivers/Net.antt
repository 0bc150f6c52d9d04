-- ===== src/Drivers/Net.antt =====
-- userspace/drivers/virtio_net.c: the network driver and its windows of the IOMMU, in the build without CHERI
-- hardware.
pub mod Pool
pub mod Reboot
use moonlight_os.Prelude.{
  ℕ, ◌%◌, ◌&&◌, ◌||◌, Bool, true, false, not, ◌==◌, ◌!=◌, ltb, leb, if◌then◌else◌, add64, bit_or,
}
use moonlight_os.Types.{KError, ok, is_ok, page_size}
use moonlight_os.Cheri.{SimCap, zero_sim_cap, tag_get, length_get, perm_load, perm_store}
use moonlight_os.Cap.{Cap, zero_cap, cap_iommu}
use moonlight_os.Iommu
use moonlight_os.Iommu.{IommuState}

-- `drv_caps_t`
pub record DrvCaps : Type 0 where
  pub mmio_base : ℕ
  pub mmio_len : ℕ
  pub irq : ℕ

-- The variables of the file. Of the pointers to the registers and to the IOMMU it is recorded whether they are
-- set; the IOMMU is the one that is passed along.
pub record NetDriver : Type 0 where
  pub caps : DrvCaps
  pub has_regs : Bool
  pub has_iommu : Bool
  pub iommu_cap : Cap
  pub dev_id : ℕ
  pub dma_base : ℕ
  pub dma_len : ℕ
  pub iommu_bound : Bool

-- The capability that `net_driver_init` builds for the registers.
abbrev pub mmio_cap : DrvCaps → SimCap
mmio_cap c = record zero_sim_cap {
  base = c.mmio_base;
  top = add64 c.mmio_base c.mmio_len;
  addr = c.mmio_base;
  tag = true;
  perms = bit_or perm_load perm_store;
}

-- `net_driver_init`
unfoldable pub init : NetDriver → DrvCaps → Bool × NetDriver
init d c =
    let d' = record d { caps = c } in
    if ltb c.mmio_len 0x1000 || (c.mmio_base == 0)
    then (false, d')
    else if ltb c.mmio_base 0x1000_0000 || ltb 0x2000_0000 (add64 c.mmio_base c.mmio_len)
    then (false, d')
    else if not (tag_get (mmio_cap c))
    then (false, d')
    else if ltb (length_get (mmio_cap c)) c.mmio_len
    then (false, d')
    else (true, record d' { has_regs = true })

-- The assignments of `net_driver_set_iommu` before the call.
abbrev pub bind_to : NetDriver → Cap → ℕ → ℕ → ℕ → NetDriver
bind_to d cap dev_id paddr size = record d {
  has_iommu = true;
  iommu_cap = cap;
  dev_id = dev_id;
  dma_base = paddr;
  dma_len = size;
  iommu_bound = false;
}

-- The end of `net_driver_set_iommu`, after the call.
abbrev pub bound_if : KError × IommuState → NetDriver → Bool × NetDriver × IommuState
bound_if (e, io) d = if is_ok e then (true, record d { iommu_bound = true }, io) else (false, d, io)

-- `net_driver_set_iommu` with a pointer that is not NULL.
unfoldable pub set_iommu : NetDriver → IommuState → Cap → ℕ → ℕ → ℕ → Bool × NetDriver × IommuState
set_iommu d io cap dev_id paddr size =
    if cap.type != cap_iommu
    then (false, d, io)
    else if not cap.is_valid || not (tag_get cap.hw_cap)
    then (false, d, io)
    else bound_if (Iommu.map io cap dev_id paddr size (bit_or perm_load perm_store))
        (bind_to d cap dev_id paddr size)

-- The checks of `net_driver_dma_map`.
unfoldable pub dma_refuses : NetDriver → ℕ → ℕ → Bool
dma_refuses d paddr size =
    not d.has_iommu
    || not d.iommu_bound
    || (size % page_size != 0)
    || (paddr % page_size != 0)
    || ltb paddr d.dma_base
    || ltb (add64 d.dma_base d.dma_len) (add64 paddr size)

-- `net_driver_dma_map`
unfoldable pub dma_map : NetDriver → IommuState → ℕ → ℕ → ℕ → Bool × IommuState
dma_map d io paddr size perms =
    if dma_refuses d paddr size
    then (false, io)
    else let (e, io') = Iommu.map io d.iommu_cap d.dev_id paddr size perms in (is_ok e, io')

-- `net_driver_dma_unmap`
unfoldable pub dma_unmap : NetDriver → IommuState → ℕ → Bool × IommuState
dma_unmap d io paddr =
    if not d.has_iommu
    then (false, io)
    else let (e, io') = Iommu.unmap io d.dev_id paddr in (is_ok e, io')

-- `net_driver_dma_check`
unfoldable pub dma_check : NetDriver → IommuState → ℕ → ℕ → Bool → Bool
dma_check d io paddr len is_write =
    if not d.has_iommu then false else Iommu.check io d.dev_id paddr len is_write

-- Where `net_driver_handle_irq` returns.
pub data Handled : Type 0 where
  no_registers no_window no_store acknowledged : Handled

-- `net_driver_handle_irq`, which reads a register and changes nothing.
unfoldable pub handle_irq : NetDriver → IommuState → Handled
handle_irq d io =
    if not d.has_regs
    then no_registers
    else if d.iommu_bound && (d.dma_base != 0)
    then if not (Iommu.check io d.dev_id d.dma_base 512 false)
      then no_window
      else if not (Iommu.check io d.dev_id d.dma_base 512 true)
      then no_store
      else acknowledged
    else acknowledged

-- The first `if` of `net_driver_reboot`.
abbrev pub unbind : NetDriver → IommuState → NetDriver × IommuState
unbind d io =
    if d.has_iommu && d.iommu_bound
    then (record d { iommu_bound = false }, (Iommu.unmap io d.dev_id d.dma_base).1)
    else (d, io)

-- `net_driver_reboot`
unfoldable pub reboot : NetDriver → IommuState → NetDriver × IommuState
reboot d io =
    let (d', io') = unbind d io in
    ((init (record d' { has_iommu = false; dma_base = 0; dma_len = 0 }) d.caps).1, io')
