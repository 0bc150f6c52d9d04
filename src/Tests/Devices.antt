-- ===== src/Tests/Devices.antt =====
-- Examples for the drivers, the screen and the ELF check.
use moonlight_os.Prelude.{
  ℕ, ◌-◌, ◌^◌, ◌≤◌, ◌<◌, ◌≡◌, ◌↔◌, ◌⊎◌, refl, sym, arith, true, false, first, set, fill, [], ◌∷◌,
  bit_or,
}
use moonlight_os.Cheri.{zero_sim_cap, perm_load, perm_store}
use moonlight_os.Cap.{Cap, zero_cap, cap_iommu}
use moonlight_os.Iommu
use moonlight_os.Iommu.{IommuState, zero_window}
use moonlight_os.Drivers.Net.{
  NetDriver, bind_to, set_iommu, dma_check, dma_map, dma_unmap, dma_refuses,
}
use moonlight_os.Drivers.Net.Pool.{
  map_buffer, unmap_buffer, serve, serve_all, IsReached, dma_check-IsReached,
}
use moonlight_os.Elf.{load}
use moonlight_os.Elf.Load.{LoadExplains, load-Explains}
use moonlight_os.Hardening.{is_canonical_addr, is_canonical_addr_iff}
use moonlight_os.Vga.{Vga, console_puts, render_text, puts_at}
use moonlight_os.Vga.Outside.{render_text-outside}
use moonlight_os.Vga.Grid.{Console, blank, type_text, Shows, color_at-blank, console_puts-Shows}

-- A capability for 64 KiB from 0x88000000, and the first half of it as the pool of device 5.
abbrev iommu_cap : Cap
iommu_cap = record zero_cap {
  type = cap_iommu;
  rights = 3;
  is_valid = true;
  hw_cap = record zero_sim_cap { base = 0x8800_0000; top = 0x8801_0000; tag = true };
}

abbrev no_windows : IommuState
no_windows = record { windows = fill zero_window; count = 0 }

abbrev driver : NetDriver
driver = record {
  caps = record { mmio_base = 0x1000_2000; mmio_len = 0x1000; irq = 3 };
  has_regs = true;
  has_iommu = false;
  iommu_cap = zero_cap;
  dev_id = 0;
  dma_base = 0;
  dma_len = 0;
  iommu_bound = false;
}

abbrev bound : NetDriver
bound = record (bind_to driver iommu_cap 5 0x8800_0000 0x8000) { iommu_bound = true }

abbrev pool : IommuState
pool = (Iommu.map no_windows iommu_cap 5 0x8800_0000 0x8000 (bit_or perm_load perm_store)).1

bound_lem : set_iommu driver no_windows iommu_cap 5 0x8800_0000 0x8000 ≡ (true, bound, pool)
unfolding set_iommu Iommu.map Iommu.map_error Iommu.map_slot first
bound_lem = refl

checked :
    dma_check bound
      (serve_all bound pool (map_buffer 0x8800_1000 0x1000 1 ∷ unmap_buffer 0x8800_0000 ∷ []))
      0x8800_1800
      64
      false
    ≡ true
unfolding dma_check serve_all serve dma_map dma_unmap dma_refuses Iommu.map Iommu.map_error
    Iommu.map_slot Iommu.unmap Iommu.check first
checked = refl

dma_check-IsReached_example : IsReached 0x8800_0000 0x8000 iommu_cap 0x8800_1800 64 false
dma_check-IsReached_example =
    dma_check-IsReached driver bound no_windows pool iommu_cap 5 0x8800_0000 0x8000 (λ i v. cc)
      (λ i v. cc) (omega arith, omega arith) (omega arith) (omega arith) bound_lem
      (map_buffer 0x8800_1000 0x1000 1 ∷ unmap_buffer 0x8800_0000 ∷ []) 0x8800_1800 64 false
      ((omega arith, omega arith), tt) (omega arith) checked

-- A header, and a table with one segment to load.
abbrev elf_file : ℕ → ℕ
elf_file =
    set
      (set
        (set
          (set
            (set (set (set (set (set (set (set (fill 0) 0 0x7F) 1 0x45) 2 0x4C) 3 0x46) 4 2) 16 2)
              32 64)
            56 1)
          64 1)
        83 0x80)
      91 0x80

load-Explains_example : LoadExplains elf_file 120 (load elf_file 120)
load-Explains_example = load-Explains elf_file 120

is_canonical_addr_iff_example :
    (is_canonical_addr 0x4000 ≡ true)
    ↔ ((0x4000 < 2 ^ 38) ⊎ ((2 ^ 63 - 2 ^ 38 ≤ 0x4000) × (0x4000 < 2 ^ 63)))
is_canonical_addr_iff_example = is_canonical_addr_iff 0x4000 (omega arith)

abbrev dark : Vga
dark = record { fb = fill 0; fb_init_done = true; console_cx = 0; console_cy = 0 }

abbrev empty_grid : Console
empty_grid = record { text = blank; cx = 0; cy = 0 }

dark-Shows : Shows dark empty_grid
dark-Shows = record {
  ready = refl;
  column = (refl, omega arith);
  line = (refl, omega arith);
  draws = λ x y row col half on inside. sym (color_at-blank row col 0xFF_FFFF 0);
}

-- "Hi" and a line feed.
console_puts-Shows_example :
    Shows (console_puts dark (72 ∷ 105 ∷ 10 ∷ [])) (type_text empty_grid (72 ∷ 105 ∷ 10 ∷ []))
console_puts-Shows_example = console_puts-Shows dark empty_grid (72 ∷ 105 ∷ 10 ∷ []) dark-Shows

render_text-outside_example :
    ((render_text dark (72 ∷ 105 ∷ []) 99 40 1 0).fb 480_000 ≡ 0)
    × ((puts_at dark (72 ∷ 105 ∷ []) 99 40 1 0).fb 480_000 ≡ 0)
render_text-outside_example =
    render_text-outside dark (72 ∷ 105 ∷ []) 99 40 1 0 480_000 (omega arith) (omega arith)
      (omega arith)
