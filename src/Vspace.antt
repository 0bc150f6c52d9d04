-- ===== src/Vspace.antt =====
-- kernel/include/vspace.h and kernel/src/vspace.c on the target: Sv39 page tables.
pub mod Resolve
pub mod Tree
pub mod Map
pub mod Image
pub mod Translation
pub mod Ranges
pub mod Erased
pub mod Unmapping
pub mod Initial
use moonlight_os.Prelude.{
  ℕ, zero, suc, ◌+◌, ◌*◌, ◌/◌, ◌%◌, ◌^◌, Bool, true, false, not, ◌&&◌, ◌||◌, Option, none, some,
  Array, set, fill, ◌!=◌, leb, if◌then◌else◌, add64, bit_or,
}
use moonlight_os.Types.{KError, ok, invalid_arg, no_mem, partition_denied, is_ok, page_size}
use moonlight_os.Cheri.{zero_sim_cap}
use moonlight_os.Cap.{Cap, zero_cap, zero_union, cap_frame}
use moonlight_os.Alloc.{FrameAlloc, frame, color_for_partition}

-- `vspace_t`, without `base` and `length`, which stay 0. The root is a page number (`none` for NULL), and
-- `has_alloc` says that `alloc` is not NULL.
pub record Vspace : Type 0 where
  pub root : Option ℕ
  pub asid : ℕ
  pub partition_id : ℕ
  pub pt_pages_used : ℕ
  pub has_alloc : Bool
  pub pt_caps : Array Cap
  pub pt_caps_count : ℕ

-- What the functions change besides an address space: the entries of each physical page that is used as
-- a table, the allocator, and the pool for an address space without one, at the page `pool`.
pub record PtState : Type 0 where
  pub pages : Array (Array ℕ)
  pub alloc : FrameAlloc
  pub pool : ℕ
  pub fallback_next : ℕ

abbrev pub zero_vspace : Vspace
zero_vspace = record {
  root = none;
  asid = 0;
  partition_id = 0;
  pt_pages_used = 0;
  has_alloc = false;
  pt_caps = fill zero_cap;
  pt_caps_count = 0;
}

-- `vs->pt_caps[vs->pt_caps_count++] = c; vs->pt_pages_used++;`
abbrev pub count_page : Vspace → Cap → Vspace
count_page vs c = record vs {
  pt_caps = set vs.pt_caps vs.pt_caps_count c;
  pt_caps_count = vs.pt_caps_count + 1;
  pt_pages_used = vs.pt_pages_used + 1;
}

-- `memset(p, 0, PAGE_SIZE);` of a page
abbrev pub clear_page : PtState → ℕ → PtState
clear_page s page = record s { pages = set s.pages page (fill 0) }

-- The capability for a page of the pool.
abbrev pub pool_cap : Vspace → ℕ → Cap
pool_cap vs page =
    let color = color_for_partition vs.partition_id in
    let p = page * page_size in
    record zero_cap {
      type = cap_frame;
      is_valid = true;
      is_sealed = true;
      color = color;
      u = record zero_union { word0 = p; word1 = color * 2 ^ 16 };
      hw_cap = record zero_sim_cap {
        base = p;
        top = add64 p page_size;
        addr = p;
        tag = true;
        sealed = true;
      };
    }

-- The branch of `alloc_pt_page` with an allocator: the page (`none` for NULL) and what it changes.
unfoldable pub alloc_from : Vspace → PtState → Option ℕ × Vspace × PtState
alloc_from vs s =
    let r = frame s.alloc vs.partition_id page_size zero_cap in
    if not (is_ok r.0)
    then (none, vs, record s { alloc = r.2 })
    else let page = r.1.u.word0 / page_size in
      (some page, count_page vs r.1, clear_page (record s { alloc = r.2 }) page)

-- The branch of `alloc_pt_page` without an allocator.
unfoldable pub alloc_pool : Vspace → PtState → Option ℕ × Vspace × PtState
alloc_pool vs s =
    if leb 64 s.fallback_next
    then (none, vs, s)
    else let page = s.pool + s.fallback_next in
      (
        some page,
        count_page vs (pool_cap vs page),
        clear_page (record s { fallback_next = s.fallback_next + 1 }) page,
      )

-- `alloc_pt_page`
unfoldable pub alloc_pt_page : Vspace → PtState → Option ℕ × Vspace × PtState
alloc_pt_page vs s =
    if leb 64 vs.pt_caps_count || leb 64 vs.pt_pages_used
    then (none, vs, s)
    else if vs.has_alloc
    then alloc_from vs s
    else alloc_pool vs s

-- `pte_encode`, `pte_ppn`
abbrev pub pte_encode : ℕ → ℕ → ℕ
pte_encode ppn flags = bit_or (ppn * 2 ^ 10 % 2 ^ 64) flags

abbrev pub pte_ppn : ℕ → ℕ
pte_ppn pte = pte / 2 ^ 10

-- `(pte_t *)(pte_ppn(pte) << 12)`, as a page number
abbrev pub next_table : ℕ → ℕ
next_table pte = pte_ppn pte % 2 ^ 52

-- `pte & PTE_V`
abbrev pub is_present : ℕ → Bool
is_present pte = pte % 2 != 0

abbrev pub vpn2 : ℕ → ℕ
vpn2 va = va / 2 ^ 30 % 512

abbrev pub vpn1 : ℕ → ℕ
vpn1 va = va / 2 ^ 21 % 512

abbrev pub vpn0 : ℕ → ℕ
vpn0 va = va / 2 ^ 12 % 512

-- `vspace_init_with_alloc`
unfoldable pub init_with_alloc : ℕ → ℕ → Bool → PtState → KError × Vspace × PtState
init_with_alloc asid part_id has_alloc s =
    let r =
      alloc_pt_page
        (record zero_vspace { asid = asid; partition_id = part_id; has_alloc = has_alloc }) s in
    elim r.0 [ none ↦ (no_mem, r.1, r.2) | some page ↦ (ok, record r.1 { root = some page }, r.2) ]

-- `table[idx] = pte;`
abbrev pub write_entry : PtState → ℕ → ℕ → ℕ → PtState
write_entry s table idx pte = record s { pages = set s.pages table (set (s.pages table) idx pte) }

-- One level of the walk of `vspace_map`: the next table, which is allocated if it is absent.
unfoldable pub step_table : Vspace → PtState → ℕ → ℕ → Option ℕ × Vspace × PtState
step_table vs s table idx =
    if is_present (s.pages table idx)
    then (some (next_table (s.pages table idx)), vs, s)
    else let r = alloc_pt_page vs s in
      elim r.0 [
        | none ↦ (none, r.1, r.2)
        | some page ↦
            let s' = write_entry r.2 table idx (pte_encode page 1) in
            (some (next_table (s'.pages table idx)), r.1, s')
      ]

-- The end of the body of the loop of `vspace_map`, in the last table.
unfoldable pub map_leaf : Vspace → PtState → ℕ → ℕ → ℕ → KError × Vspace × PtState
map_leaf vs s table idx pte =
    if is_present (s.pages table idx)
    then (invalid_arg, vs, s)
    else (ok, vs, write_entry s table idx pte)

-- The body of the loop of `vspace_map`.
unfoldable pub map_page : Vspace → PtState → ℕ → ℕ → ℕ → ℕ → KError × Vspace × PtState
map_page vs s root va pa flags =
    let r1 = step_table vs s root (vpn2 va) in
    elim r1.0 [
      | none ↦ (no_mem, r1.1, r1.2)
      | some l1 ↦
          let r0 = step_table r1.1 r1.2 l1 (vpn1 va) in
          elim r0.0 [
            | none ↦ (no_mem, r0.1, r0.2)
            | some l0 ↦ map_leaf r0.1 r0.2 l0 (vpn0 va) (pte_encode (pa / 2 ^ 12) flags)
          ]
    ]

-- The loop of `vspace_map` over `n` pages from offset `off`.
unfoldable pub map_pages : ℕ → Vspace → PtState → ℕ → ℕ → ℕ → ℕ → ℕ → KError × Vspace × PtState
map_pages zero vs s root vaddr paddr flags off = (ok, vs, s)
map_pages (suc n) vs s root vaddr paddr flags off =
    let r = map_page vs s root (add64 vaddr off) (add64 paddr off) flags in
    elim r.0 [ ok ↦ map_pages n r.1 r.2 root vaddr paddr flags (off + page_size) | e ↦ r ]

-- `flags`
unfoldable pub map_flags : Vspace → ℕ → ℕ
map_flags vs perms =
    let r = if perms % 2 != 0 then 2 else 0 in
    let w = if perms / 2 % 2 != 0 then 4 else 0 in
    let x = if perms / 4 % 2 != 0 then 8 else 0 in
    let u = if vs.partition_id != 0 then 16 else 0 in 1 + 64 + 128 + r + w + x + u

-- `vspace_map`. The loop runs once for each page of `size`.
unfoldable pub map : Vspace → PtState → ℕ → ℕ → ℕ → ℕ → ℕ → KError × Vspace × PtState
map vs s vaddr paddr size perms color = elim vs.root [
  | none ↦ (invalid_arg, vs, s)
  | some root ↦
      if (vaddr % page_size != 0) || (paddr % page_size != 0) || (size % page_size != 0)
      then (invalid_arg, vs, s)
      else if color % 2 != 0
      then (invalid_arg, vs, s)
      else if (vaddr / 2 ^ 12 % 16 != color) && (color != 0)
      then (partition_denied, vs, s)
      else map_pages (size / page_size) vs s root vaddr paddr (map_flags vs perms) 0
]

-- The body of the loop of `vspace_unmap`.
unfoldable pub unmap_page : PtState → ℕ → ℕ → PtState
unmap_page s root va =
    let e2 = s.pages root (vpn2 va) in
    let e1 = s.pages (next_table e2) (vpn1 va) in
    if not (is_present e2)
    then s
    else if not (is_present e1)
    then s
    else write_entry s (next_table e1) (vpn0 va) 0

-- The loop of `vspace_unmap`.
unfoldable pub unmap_pages : ℕ → PtState → ℕ → ℕ → ℕ → PtState
unmap_pages zero s root vaddr off = s
unmap_pages (suc n) s root vaddr off =
    unmap_pages n (unmap_page s root (add64 vaddr off)) root vaddr (off + page_size)

-- `vspace_unmap`
unfoldable pub unmap : Vspace → PtState → ℕ → ℕ → KError × PtState
unmap vs s vaddr size = elim vs.root [
  | none ↦ (invalid_arg, s)
  | some root ↦
      if (vaddr % page_size != 0) || (size % page_size != 0)
      then (invalid_arg, s)
      else (ok, unmap_pages (size / page_size) s root vaddr 0)
]

-- `vspace_resolve`: `*paddr_out`, if it returns true.
unfoldable pub resolve : Vspace → PtState → ℕ → Option ℕ
resolve vs s vaddr = elim vs.root [
  | none ↦ none
  | some root ↦
      let e2 = s.pages root (vpn2 vaddr) in
      let e1 = s.pages (next_table e2) (vpn1 vaddr) in
      let e0 = s.pages (next_table e1) (vpn0 vaddr) in
      if not (is_present e2)
      then none
      else if not (is_present e1)
      then none
      else if not (is_present e0)
      then none
      else some (bit_or (pte_ppn e0 * 2 ^ 12 % 2 ^ 64) (vaddr % 2 ^ 12))
]
