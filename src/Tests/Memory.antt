-- ===== src/Tests/Memory.antt =====
-- Examples for kernel/src/alloc.c, iommu.c, revoke.c and vspace.c.
use moonlight_os.Prelude.{
  inr, ◌^◌, ℕ, ◌+◌, ◌*◌, ◌≤◌, ◌<◌, ◌≡◌, ◌≢◌, refl, arith, true, false, List, [], ◌∷◌, some, set,
  fill, count, first,
}
use moonlight_os.Types.{KError, ok, page_size}
use moonlight_os.Cheri.{zero_sim_cap}
use moonlight_os.Cap.{Cap, zero_cap, pointer, cap_iommu}
use moonlight_os.Alloc.{FrameAlloc, frame, align, color_for_partition, color_is_valid, color_of}
use moonlight_os.Alloc.Color.{frame-color_is_valid}
use moonlight_os.Alloc.Ranges.{InPool, InOrder, allocate_all, allocate_all-InOrder}
use moonlight_os.Iommu.{IommuState, zero_window, map, map_error, map_slot, check, max_iommu_windows}
use moonlight_os.Iommu.Confined.{
  AllConfined, IsRequest, IsPermitted, map-AllConfined, check-IsPermitted,
}
use moonlight_os.Vspace.{Vspace, PtState, zero_vspace}
use moonlight_os.Mdb.{MdbTree, zero_node, nil, max_mdb_nodes, revoke, delete}
use moonlight_os.Mdb.Slots.{used, IsTracked}
use moonlight_os.Mdb.Delete.{IsPlaced, delete-IsTracked}
use moonlight_os.Mdb.Revoke.{Forest, leaf, tree, size, killed, revoke-killed}

abbrev pool : FrameAlloc
pool = record {
  base = 0x8040_0000;
  next = 0x8040_0000;
  top = 0x8080_0000;
  frames = fill zero_cap;
  frame_count = 0;
}

pool-InPool : InPool pool
pool-InPool = record { low = omega arith; high = omega arith; room = omega arith }

abbrev requests : List (ℕ × ℕ)
requests = (1, 0x2000) ∷ (9, 0x1000) ∷ (3, 0x3000) ∷ []

allocate_all-InOrder_example : InOrder 0x8040_0000 0x8080_0000 (allocate_all pool requests).0
allocate_all-InOrder_example =
    allocate_all-InOrder requests pool pool-InPool
      (omega arith, (omega arith, (omega arith, record {})))

small_run :
    frame pool 1 0x2000 zero_cap
    ≡ (ok, (frame pool 1 0x2000 zero_cap).1, (frame pool 1 0x2000 zero_cap).2)
unfolding frame align color_for_partition
small_run = refl

frame-color_is_valid_example :
    color_is_valid 1 (color_of (pointer (frame pool 1 0x2000 zero_cap).1.u + page_size * 1)) ≡ true
frame-color_is_valid_example =
    frame-color_is_valid pool 1 0x2000 zero_cap (frame pool 1 0x2000 zero_cap).1
      (frame pool 1 0x2000 zero_cap).2 small_run (omega arith) 1 (omega arith)

large_run :
    frame pool 1 0x3000 zero_cap
    ≡ (ok, (frame pool 1 0x3000 zero_cap).1, (frame pool 1 0x3000 zero_cap).2)
unfolding frame align color_for_partition
large_run = refl

abbrev device_cap : Cap
device_cap = record zero_cap {
  type = cap_iommu;
  rights = 3;
  is_valid = true;
  hw_cap = record zero_sim_cap { base = 0x1000; top = 0x9000; tag = true };
}

abbrev no_windows : IommuState
no_windows = record { windows = fill zero_window; count = 0 }

request : IsRequest device_cap 0x2000 0x1000 1
request = record {
  bounds = (omega arith, omega arith);
  range = omega arith;
  masks = (omega arith, omega arith);
}

no_windows-AllConfined : AllConfined no_windows
no_windows-AllConfined i e = cc

map-AllConfined_example : AllConfined (map no_windows device_cap 4 0x2000 0x1000 1).1
map-AllConfined_example =
    map-AllConfined no_windows device_cap 4 0x2000 0x1000 1 request no_windows-AllConfined

abbrev one_window : IommuState
one_window = (map no_windows device_cap 4 0x2000 0x1000 1).1

reads : check one_window 4 0x2400 0x100 false ≡ true
unfolding check map map_error map_slot first
reads = refl

check-IsPermitted_example :
    (i : ℕ) × (i < max_iommu_windows)
    × ((one_window.windows i).valid ≡ true)
    × ((one_window.windows i).dev_id ≡ 4)
    × IsPermitted (one_window.windows i).cap 0x2400 0x100 false
check-IsPermitted_example =
    check-IsPermitted one_window 4 0x2400 0x100 false map-AllConfined_example (omega arith) reads

-- A root at 0 with one child at 1.
abbrev family : MdbTree
family = record {
  nodes =
      set
        (set (fill zero_node) 0
          (record zero_node { valid = true; parent = nil; first_child = 1; next_sibling = nil }))
        1 (record zero_node { valid = true; parent = 0; first_child = nil; next_sibling = nil });
  count = 2;
  free_head = 2;
}

children : Forest family.nodes 1 (1 ∷ [])
children = tree 1 [] [] (omega arith) leaf leaf

one_small : size (1 ∷ []) ≤ max_mdb_nodes
unfolding size
one_small = omega arith

revoke-killed_example :
    (t : MdbTree) × (revoke family 0 ≡ some (ok, t))
    × (t.nodes 0 ≡ record (killed (1 ∷ []) family.nodes 0) { first_child = nil })
    × ((j : ℕ) → 0 ≢ j → t.nodes j ≡ killed (1 ∷ []) family.nodes j)
revoke-killed_example = revoke-killed family 0 (1 ∷ []) (omega arith) refl children one_small

family-count : family.count ≡ count (used family) max_mdb_nodes
unfolding count
family-count = refl

family-IsTracked : IsTracked family
family-IsTracked = record {
  hint = omega arith;
  below = λ i h. ground arith;
  counted = family-count;
}

family-IsPlaced : IsPlaced family.nodes 1
family-IsPlaced = inr (omega arith, (1 ∷ [], (refl, omega arith, refl), omega arith))

delete-IsTracked_example : (r : KError × MdbTree) × (delete family 1 ≡ some r) × IsTracked r.1
delete-IsTracked_example = delete-IsTracked family 1 family-IsTracked family-IsPlaced

-- An address space with its root at page 10, and tables at pages 11 and 12 for the low addresses.
abbrev space : Vspace
space = record zero_vspace { root = some 10; partition_id = 1 }

abbrev tables : PtState
tables = record {
  pages =
      set (set (fill (fill 0)) 10 (set (fill 0) 0 (11 * 2 ^ 10 + 1))) 11
        (set (fill 0) 0 (12 * 2 ^ 10 + 1));
  alloc = pool;
  pool = 100;
  fallback_next = 0;
}
