-- ===== src/Iommu.antt =====
-- kernel/include/iommu.h and kernel/src/iommu.c: the windows through which devices reach memory.
pub mod Confined
use moonlight_os.Prelude.{
  ℕ, ◌%◌, Bool, true, false, not, ◌&&◌, ◌||◌, Option, none, some, Array, set, ◌==◌, ◌!=◌, ltb, leb,
  if◌then◌else◌, bit_and, add64, add32, sub32, first,
}
use moonlight_os.Prelude.Bits.{bit_not}
use moonlight_os.Types.{KError, ok, invalid_cap, invalid_arg, no_mem, no_rights, page_size}
use moonlight_os.Cheri.{base_get, length_get, perm_load, perm_store}
use moonlight_os.Cap.{Cap, zero_cap, cap_iommu, low_word}

abbrev pub max_iommu_windows : ℕ
max_iommu_windows = 16

-- `iommu_window_t`
pub record IommuWindow : Type 0 where
  pub valid : Bool
  pub dev_id : ℕ
  pub paddr_base : ℕ
  pub size : ℕ
  pub perms : ℕ
  pub partition_id : ℕ
  pub color : ℕ
  pub cap : Cap

abbrev pub zero_window : IommuWindow
zero_window = record {
  valid = false;
  dev_id = 0;
  paddr_base = 0;
  size = 0;
  perms = 0;
  partition_id = 0;
  color = 0;
  cap = zero_cap;
}

-- `iommu_state_t`
pub record IommuState : Type 0 where
  pub windows : Array IommuWindow
  pub count : ℕ

-- The window that `iommu_map` writes into a free slot, which keeps its colour.
abbrev pub new_window : IommuWindow → Cap → ℕ → ℕ → ℕ → ℕ → IommuWindow
new_window w cap dev_id paddr size perms = record w {
  valid = true;
  dev_id = dev_id;
  paddr_base = paddr;
  size = size;
  perms = perms;
  partition_id = low_word cap.u;
  cap = cap;
}

-- The checks of `iommu_map`, in their order.
unfoldable pub map_error : IommuState → Cap → ℕ → ℕ → ℕ → KError
map_error io cap paddr size perms =
    if cap.type != cap_iommu
    then invalid_cap
    else if not cap.is_valid || not cap.hw_cap.tag
    then invalid_cap
    else if (size % page_size != 0) || (paddr % page_size != 0)
    then invalid_arg
    else if leb max_iommu_windows io.count
    then no_mem
    else if ltb paddr (base_get cap.hw_cap)
        || ltb (add64 (base_get cap.hw_cap) (length_get cap.hw_cap)) (add64 paddr size)
    then invalid_arg
    else if bit_and perms (bit_not 32 cap.rights) != 0
    then no_rights
    else ok

-- The loop of `iommu_map` over the slots.
unfoldable pub map_slot : IommuState → Cap → ℕ → ℕ → ℕ → ℕ → KError × IommuState
map_slot io cap dev_id paddr size perms =
    elim (first (λ i. not (io.windows i).valid) max_iommu_windows 0) [
      | some i ↦ (
        ok,
        record io {
          windows = set io.windows i (new_window (io.windows i) cap dev_id paddr size perms);
          count = add32 io.count 1;
        },
      )
      | none ↦ (no_mem, io)
    ]

-- `iommu_map`. The flush at its end has no effect on the windows.
unfoldable pub map : IommuState → Cap → ℕ → ℕ → ℕ → ℕ → KError × IommuState
map io cap dev_id paddr size perms = elim (map_error io cap paddr size perms) [
  | ok ↦ map_slot io cap dev_id paddr size perms
  | e ↦ (e, io)
]

-- `iommu_unmap`
unfoldable pub unmap : IommuState → ℕ → ℕ → KError × IommuState
unmap io dev_id paddr =
    elim (first
      (λ i.
        (io.windows i).valid
        && ((io.windows i).dev_id == dev_id)
        && ((io.windows i).paddr_base == paddr))
      max_iommu_windows 0) [
        | some i ↦
            (ok, record io { windows = set io.windows i zero_window; count = sub32 io.count 1 })
        | none ↦ (invalid_arg, io)
      ]

-- The window that ends the loop of `iommu_check`: the first of the device that holds the range.
abbrev pub covers : IommuWindow → ℕ → ℕ → ℕ → Bool
covers w dev_id paddr len =
    w.valid
    && (w.dev_id == dev_id)
    && leb w.paddr_base paddr
    && leb (add64 paddr len) (add64 w.paddr_base w.size)

-- `iommu_check`
unfoldable pub check : IommuState → ℕ → ℕ → ℕ → Bool → Bool
check io dev_id paddr len is_write =
    elim (first (λ i. covers (io.windows i) dev_id paddr len) max_iommu_windows 0) [
      | some i ↦ bit_and (io.windows i).perms (if is_write then perm_store else perm_load) != 0
      | none ↦ false
    ]
