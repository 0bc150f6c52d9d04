-- ===== src/Tests/Spaces.antt =====
-- Examples for the translation of kernel/src/vspace.c.
use moonlight_os.Prelude.{◌≡◌, refl, arith, true, some, fill}
use moonlight_os.Types.{ok}
use moonlight_os.Cap.{zero_cap}
use moonlight_os.Vspace.{
  Vspace, PtState, zero_vspace, init_with_alloc, map, map_pages, map_page, map_flags, map_leaf,
  step_table, alloc_pt_page, alloc_pool, unmap, resolve,
}
use moonlight_os.Vspace.Tree.Fresh.{IsReady}
use moonlight_os.Vspace.Tree.Mapping.{IsSpace}
use moonlight_os.Vspace.Image.{IsImage}
use moonlight_os.Vspace.Ranges.{map-IsImage}
use moonlight_os.Vspace.Unmapping.{unmap-map}
use moonlight_os.Vspace.Initial.{IsInitial, init_with_alloc-IsInitial, single-IsTree}

abbrev memory : PtState
memory = record {
  pages = fill (fill 0);
  alloc = record {
    base = 0x8040_0000;
    next = 0x8040_0000;
    top = 0x8080_0000;
    frames = fill zero_cap;
    frame_count = 0;
  };
  pool = 100;
  fallback_next = 1;
}

-- An address space with its root at the first page of the pool.
abbrev new_space : Vspace
new_space = record zero_vspace {
  root = some 100;
  partition_id = 1;
  pt_pages_used = 1;
  pt_caps_count = 1;
}

memory-IsReady : IsReady memory
memory-IsReady = record {
  pool = record { low = omega arith; high = omega arith; room = omega arith };
  whole = refl;
  top = omega arith;
  static = omega arith;
}

new_space-IsSpace : IsSpace new_space memory 100
new_space-IsSpace = record {
  rooted = refl;
  tree = single-IsTree memory.pages 100 refl 101 (omega arith);
  ready = memory-IsReady;
}

init_with_alloc-IsInitial_example : IsInitial (init_with_alloc 1 3 true memory)
init_with_alloc-IsInitial_example = init_with_alloc-IsInitial 1 3 true memory memory-IsReady

-- The address space and the memory with two pages at 0x5000.
abbrev space_with : Vspace
space_with = (map new_space memory 0x5000 0x8060_0000 0x2000 3 0).1

abbrev memory_with : PtState
memory_with = (map new_space memory 0x5000 0x8060_0000 0x2000 3 0).2

two_mapped : map new_space memory 0x5000 0x8060_0000 0x2000 3 0 ≡ (ok, space_with, memory_with)
unfolding map map_pages map_page map_flags map_leaf step_table alloc_pt_page alloc_pool
two_mapped = refl

map-IsImage_example :
    let r = map new_space memory 0x5000 0x8060_0000 0x2000 3 0 in
    IsImage new_space memory 100 5 0x80600 2 r.0 r.1 r.2
map-IsImage_example =
    map-IsImage new_space memory 100 0x5000 0x8060_0000 0x2000 3 0 (omega arith) (omega arith)
      new_space-IsSpace

unmap-map_example :
    resolve space_with (unmap space_with memory_with 0x5000 0x2000).1 0x6010
    ≡ resolve new_space memory 0x6010
unmap-map_example =
    unmap-map new_space space_with memory memory_with 100 0x5000 0x8060_0000 0x2000 3 0
      (omega arith) (omega arith) new_space-IsSpace two_mapped 0x6010
