-- ===== src/Drivers/Block/Transfers.antt =====
-- The transfers of userspace/drivers/block.c.
use moonlight_os.Prelude.{ℕ, ◌+◌, ◌%◌, ◌^◌, ◌≤◌, ◌<◌, ◌≡◌, ◌≢◌, arith, some, none, bit_or}
use moonlight_os.Drivers.Block.{BlockDriver, map_dma, request, read, write}

-- A request that the device gets: registers are set, and the buffer is in the pool.
pub record IsInPool (d : BlockDriver) (buf len : ℕ) : Type 0 where
  pub ready : d.blk_regs ≢ 0
  pub low : d.dma_pool ≤ buf
  pub high : buf + len ≤ d.dma_pool + d.dma_pool_size

-- The pool and the buffer end below 2^64.
abbrev pub IsFitting : BlockDriver → ℕ → ℕ → Type 0
IsFitting d buf len = (d.dma_pool + d.dma_pool_size < 2 ^ 64) × (buf + len < 2 ^ 64)

read-passed :
    (d d' : BlockDriver) (sector buf len n : ℕ)
    → IsFitting d buf len
    → read d sector buf len ≡ (some n, d')
    → (d.blk_regs ≢ 0)
      × (d.dma_pool ≤ buf)
      × (buf + len ≤ d.dma_pool + d.dma_pool_size)
      × (len % 512 ≡ 0)
      × (n ≡ len % 2 ^ 32)
      × (d' ≡ request d sector len)
unfolding read map_dma
read-passed d d' sector buf len n f e = ground arith

-- A read that succeeds is of whole sectors into the pool, and writes the sector and the length to the
-- registers, if the pool and the buffer do not wrap.
pub read-IsInPool :
    (d d' : BlockDriver) (sector buf len n : ℕ)
    → IsFitting d buf len
    → read d sector buf len ≡ (some n, d')
    → IsInPool d buf len × (len % 512 ≡ 0) × (d' ≡ request d sector len)
read-IsInPool d d' sector buf len n f e =
    let (ready, low, high, whole, _, moved) = read-passed d d' sector buf len n f e in
    (record { ready = ready; low = low; high = high }, whole, moved)

-- A write succeeds for every buffer of the pool that is not NULL, also one of a part of a sector, which a
-- read refuses.
pub write-partial :
    (d : BlockDriver) (sector buf len : ℕ)
    → IsFitting d buf len
    → IsInPool d buf len
    → buf ≢ 0
    → len % 512 ≢ 0
    → (write d sector buf len ≡ (some (len % 2 ^ 32), request d sector (bit_or len 0x8000_0000)))
      × (read d sector buf len ≡ (none, d))
unfolding write read map_dma
write-partial d sector buf len f p nonnull part =
    let ready = p.ready in let low = p.low in let high = p.high in (ground arith, ground arith)
