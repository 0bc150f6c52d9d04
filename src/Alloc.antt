-- ===== src/Alloc.antt =====
-- kernel/include/alloc.h and kernel/src/alloc.c: the cache-colouring frame allocator.
pub mod Color
pub mod Ranges
use moonlight_os.Prelude.{
  ℕ, zero, suc, ◌+◌, ◌*◌, ◌/◌, ◌%◌, ◌^◌, Bool, true, false, ◌||◌, Array, set, fill, ◌==◌, ◌!=◌, ltb,
  leb, if◌then◌else◌, add64, add32, bit_or,
}
use moonlight_os.Types.{KError, ok, invalid_cap, invalid_arg, no_mem, page_size}
use moonlight_os.Cheri.{
  zero_sim_cap, perm_load, perm_store, perm_load_cap, perm_store_cap, otype_frame,
}
use moonlight_os.Cap.{Cap, zero_cap, zero_union, cap_frame}

abbrev pub num_colors : ℕ
num_colors = 16

abbrev pub colors_per_partition : ℕ
colors_per_partition = 2

-- `frame_alloc_t`, without `free_head` and `free_count`, which no function uses.
pub record FrameAlloc : Type 0 where
  pub base : ℕ
  pub next : ℕ
  pub top : ℕ
  pub frames : Array Cap
  pub frame_count : ℕ

-- `alloc_init`
unfoldable pub init : ℕ → ℕ → FrameAlloc
init base size = record {
  base = base;
  next = base;
  top = add64 base size;
  frames = fill zero_cap;
  frame_count = 0;
}

-- `alloc_color_for_partition`, on `uint32_t`
unfoldable pub color_for_partition : ℕ → ℕ
color_for_partition partition_id = partition_id * colors_per_partition % 2 ^ 32 % num_colors

-- `alloc_color_is_valid`
unfoldable pub color_is_valid : ℕ → ℕ → Bool
unfolding color_for_partition
color_is_valid partition_id color =
    let base = color_for_partition partition_id in color == base || color == (base + 1) % 2 ^ 16

-- `(paddr >> 12) % NUM_COLORS`
abbrev pub color_of : ℕ → ℕ
color_of paddr = paddr / 2 ^ 12 % num_colors

-- `while (((paddr >> 12) % NUM_COLORS) != color) paddr += PAGE_SIZE;`, with fuel for the rounds. The
-- colours come round every 16 pages, so 16 is enough.
unfoldable pub align : ℕ → ℕ → ℕ → ℕ
align zero color paddr = paddr
align (suc fuel) color paddr =
    let rest = align fuel color (add64 paddr page_size) in
    if color_of paddr == color then paddr else rest

-- The rights of a new frame: the capability permissions.
abbrev pub frame_rights : ℕ
frame_rights = bit_or (bit_or perm_load perm_store) (bit_or perm_load_cap perm_store_cap)

-- The capability that `alloc_frame` writes to `*out`.
abbrev pub frame_cap : ℕ → ℕ → ℕ → Cap
frame_cap paddr size color = record zero_cap {
  type = cap_frame;
  rights = frame_rights;
  is_valid = true;
  is_sealed = true;
  color = color;
  u = record zero_union { word0 = paddr; word1 = color * 2 ^ 16 };
  hw_cap = record zero_sim_cap {
    base = paddr;
    top = add64 paddr size;
    addr = paddr;
    tag = true;
    sealed = true;
    otype = otype_frame;
  };
}

-- `if (a->frame_count < 512) a->frames[a->frame_count++] = *out;`
abbrev pub log_frame : FrameAlloc → Cap → FrameAlloc
log_frame a c =
    if ltb a.frame_count 512
    then record a { frames = set a.frames a.frame_count c; frame_count = a.frame_count + 1 }
    else a

-- `alloc_frame`: its error, `*out`, and the allocator. An error leaves `*out` as it was.
unfoldable pub frame : FrameAlloc → ℕ → ℕ → Cap → KError × Cap × FrameAlloc
frame a partition_id size out =
    if size % page_size != 0
    then (invalid_arg, out, a)
    else if leb 8 partition_id
    then (invalid_arg, out, a)
    else let color = color_for_partition partition_id in
      let paddr = align 16 color a.next in
      if ltb a.top (add64 paddr size) then (no_mem, out, a) else (
        ok,
        frame_cap paddr size color,
        log_frame (record a { next = add64 paddr size }) (frame_cap paddr size color),
      )

-- `alloc_free`: its error and `*frame`.
unfoldable pub free : Cap → KError × Cap
free c = if c.type != cap_frame then (invalid_cap, c) else (ok, zero_cap)
