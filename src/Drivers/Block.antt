-- ===== src/Drivers/Block.antt =====
-- userspace/drivers/block.c: the block driver, in the build without CHERI hardware.
pub mod Transfers
use moonlight_os.Prelude.{
  ℕ, ◌+◌, ◌%◌, ◌^◌, ◌||◌, Bool, true, false, not, ◌==◌, ◌!=◌, ltb, leb, if◌then◌else◌, add64,
  bit_or, Array, set, Option, none, some,
}

-- `blk_caps_t`
pub record BlkCaps : Type 0 where
  pub mmio_base : ℕ
  pub mmio_len : ℕ
  pub irq : ℕ
  pub iommu_cap : ℕ

-- The variables of the file; `regs` are the words from the address `blk_regs`, which is 0 before the first
-- initialisation.
pub record BlockDriver : Type 0 where
  pub caps : BlkCaps
  pub blk_regs : ℕ
  pub regs : Array ℕ
  pub dma_pool : ℕ
  pub dma_pool_size : ℕ

-- `block_driver_init`
unfoldable pub init : BlockDriver → BlkCaps → ℕ → ℕ → Bool × BlockDriver
init d c dma_mem dma_len =
    let d' = record d { caps = c } in
    if ltb c.mmio_len 0x1000
    then (false, d')
    else if ltb c.mmio_base 0x1000_0000 || ltb 0x2000_0000 (add64 c.mmio_base c.mmio_len)
    then (false, d')
    else (true, record d' { blk_regs = c.mmio_base; dma_pool = dma_mem; dma_pool_size = dma_len })

-- `block_map_dma`
unfoldable pub map_dma : BlockDriver → ℕ → ℕ → Bool
map_dma d paddr len =
    not (ltb paddr d.dma_pool || ltb (add64 d.dma_pool d.dma_pool_size) (add64 paddr len))

-- The two register writes of a request: the sector, and the length with its flag, in 32 bits.
abbrev pub request : BlockDriver → ℕ → ℕ → BlockDriver
request d sector word = record d { regs = set (set d.regs 16 sector) 17 (word % 2 ^ 32) }

-- `block_read`: the length as an `int`, or -1 as `none`.
unfoldable pub read : BlockDriver → ℕ → ℕ → ℕ → Option ℕ × BlockDriver
read d sector buf len =
    if (d.blk_regs == 0) || (buf == 0)
    then (none, d)
    else if len % 512 != 0
    then (none, d)
    else if not (map_dma d buf len)
    then (none, d)
    else (some (len % 2 ^ 32), request d sector len)

-- `block_write`, which does not test the length.
unfoldable pub write : BlockDriver → ℕ → ℕ → ℕ → Option ℕ × BlockDriver
write d sector buf len =
    if (d.blk_regs == 0) || (buf == 0)
    then (none, d)
    else if not (map_dma d buf len)
    then (none, d)
    else (some (len % 2 ^ 32), request d sector (bit_or len 0x8000_0000))

-- `block_driver_handle_irq`: a write of the status that it read, and `none` without registers.
unfoldable pub handle_irq : BlockDriver → Option BlockDriver
handle_irq d = if d.blk_regs == 0 then none else some (record d { regs = set d.regs 4 (d.regs 4) })

-- `block_driver_reboot`
unfoldable pub reboot : BlockDriver → Bool × BlockDriver
reboot d = init d d.caps d.dma_pool d.dma_pool_size
