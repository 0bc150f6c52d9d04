-- ===== src/Tests/Boots.antt =====
-- Examples for kernel/src/boot.c.
use moonlight_os.Prelude.{◌≡◌, ◌∷◌, [], refl, arith, true, fill, first, ◌∷◌}
use moonlight_os.Cap
use moonlight_os.Alloc.{FrameAlloc, frame, align, color_for_partition}
use moonlight_os.Sched
use moonlight_os.Sched.{partition_create, context_bind, is_schedulable, utilization}
use moonlight_os.Tcb.{resume}
use moonlight_os.Process.{create, build, schedule, admit}
use moonlight_os.Boot.{boot_sched, boot_paging, boot_memory, boot_tables, boot_processes, spawn}
use moonlight_os.Boot.Paging.{IsIdentity, boot_paging-IsIdentity}
use moonlight_os.Boot.Schedule.{ticks, leaves}
use moonlight_os.Boot.Processes.{boot_processes-runs}

boot_paging-IsIdentity_example :
    IsIdentity (boot_paging 0x8010_0000 (boot_memory (fill (fill 7)) 0x9_0000))
boot_paging-IsIdentity_example =
    boot_paging-IsIdentity (fill (fill 7)) 0x9_0000 0x8010_0000 (omega arith) (omega arith)
      (omega arith)

abbrev four_megabytes : FrameAlloc
four_megabytes = record {
  base = 0x8040_0000;
  next = 0x8041_0000;
  top = 0x8080_0000;
  frames = fill Cap.zero_cap;
  frame_count = 0;
}

-- All four processes are started.
four : (boot_processes 0x8000_1000 (boot_tables four_megabytes)).tcbs.count ≡ 4
unfolding boot_processes spawn create build schedule admit context_bind frame align
    color_for_partition boot_sched partition_create Sched.init first is_schedulable utilization
    resume
four = refl

boot_processes-runs_example :
    let s = (boot_processes 0x8000_1000 (boot_tables four_megabytes)).sched in
    (is_schedulable s ≡ true)
    × (ticks s (100 ∷ 7000 ∷ 12_000 ∷ []) ≡ leaves 0 (100 ∷ 7000 ∷ 12_000 ∷ []))
boot_processes-runs_example =
    boot_processes-runs 0x8000_1000 four_megabytes (100 ∷ 7000 ∷ 12_000 ∷ [])
