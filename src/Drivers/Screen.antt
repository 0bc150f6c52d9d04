-- ===== src/Drivers/Screen.antt =====
-- userspace/drivers/vga.c: the display driver, in the build without CHERI hardware.
use native.Mathlib.Decide.{ℕ_discrete}
use moonlight_os.Prelude.{
  ℕ, zero, suc, ◌+◌, ◌*◌, ◌%◌, ◌^◌, ◌≤◌, ◌<◌, ◌≡◌, ◌∙◌, ◌⊎◌, refl, arith, Bool, true, false, not,
  ◌!=◌, ltb, if◌then◌else◌, Array, set, set_ne, set_self, add64,
}
use moonlight_os.Cheri.{SimCap, tag_get, base_get, length_get, perm_load, perm_store, cap_is_valid}

-- `vga_drv_t`
pub record ScreenDriver : Type 0 where
  pub fb_cap : SimCap
  pub fb_paddr : ℕ
  pub fb_len : ℕ
  pub width : ℕ
  pub height : ℕ
  pub bpp : ℕ

-- `vga_drv_init`: whether it returns 0, and the driver.
unfoldable pub init : ScreenDriver → SimCap → ℕ → ℕ → Bool × ScreenDriver
init d fb_cap paddr len =
    if not (tag_get fb_cap)
    then (false, d)
    else if base_get fb_cap != paddr
    then (false, d)
    else if ltb (length_get fb_cap) len
    then (false, d)
    else (
      cap_is_valid fb_cap paddr len (perm_load + perm_store),
      record {
        fb_cap = fb_cap;
        fb_paddr = paddr;
        fb_len = len;
        width = 800;
        height = 600;
        bpp = 32;
      },
    )

-- The loop of `vga_drv_clear` over `n` pixels: the words of memory, by their address.
unfoldable pub clear_pixels : ℕ → ℕ → ℕ → Array ℕ → Array ℕ
clear_pixels zero fb color mem = mem
clear_pixels (suc n) fb color mem = set (clear_pixels n fb color mem) (add64 fb (4 * n)) color

-- `vga_drv_clear`
abbrev pub clear : ScreenDriver → ℕ → Array ℕ → Array ℕ
clear d color mem = clear_pixels (d.width * d.height % 2 ^ 32) d.fb_cap.addr (color % 2 ^ 32) mem

clear_pixels-outside :
    (n fb color at : ℕ) (mem : Array ℕ)
    → fb + 4 * n ≤ 2 ^ 64
    → (at < fb) ⊎ (fb + 4 * n ≤ at)
    → clear_pixels n fb color mem at ≡ mem at
unfolding clear_pixels
clear_pixels-outside zero fb color at mem room away = refl
clear_pixels-outside (suc n) fb color at mem room away =
    set_ne (clear_pixels n fb color mem) (add64 fb (4 * n)) at color (λ e. ground arith)
    ∙ clear_pixels-outside n fb color at mem (omega arith) (ground arith)

clear_pixels-inside :
    (n i fb color : ℕ) (mem : Array ℕ)
    → fb + 4 * n ≤ 2 ^ 64
    → i < n
    → clear_pixels n fb color mem (fb + 4 * i) ≡ color
unfolding clear_pixels
clear_pixels-inside zero i fb color mem room h = absurd (omega arith)
clear_pixels-inside (suc n) i fb color mem room h =
    let last : add64 fb (4 * n) ≡ fb + 4 * n = omega arith in
    elim (ℕ_discrete i n) [
      | yes here ↦ rw (last, here) (set_self (clear_pixels n fb color mem) (fb + 4 * n) color)
      | no other ↦
          rw last (
            set_ne (clear_pixels n fb color mem) (fb + 4 * n) (fb + 4 * i) color
              (λ e. other (omega arith)))
          ∙ clear_pixels-inside n i fb color mem (omega arith) (omega arith)
    ]

init-accepted :
    (d d' : ScreenDriver) (c : SimCap) (paddr len : ℕ)
    → init d c paddr len ≡ (true, d')
    → (d'.fb_cap.addr ≡ c.addr) × (d'.width ≡ 800) × (d'.height ≡ 600)
unfolding init
init-accepted d d' c paddr len e = (ground arith, ground arith, ground arith)

-- After an initialisation that succeeds, `vga_drv_clear` sets the 480000 words from the address of the capability
-- on to the colour, and no byte outside them, whatever the length that was checked.
pub clear-Window :
    (d d' : ScreenDriver) (c : SimCap) (paddr len color i at : ℕ) (mem : Array ℕ)
    → init d c paddr len ≡ (true, d')
    → c.addr + 1_920_000 ≤ 2 ^ 64
    → i < 480_000
    → (at < c.addr) ⊎ (c.addr + 1_920_000 ≤ at)
    → (clear d' color mem (c.addr + 4 * i) ≡ color % 2 ^ 32) × (clear d' color mem at ≡ mem at)
clear-Window d d' c paddr len color i at mem e room h away =
    let (addr, width, height) = init-accepted d d' c paddr len e in
    rw (addr, width, height)
      (
        clear_pixels-inside 480_000 i c.addr (color % 2 ^ 32) mem room h,
        clear_pixels-outside 480_000 c.addr (color % 2 ^ 32) at mem room away,
      )
