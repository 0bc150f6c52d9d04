-- ===== src/Boot/Processes.antt =====
-- The processes that kernel/src/boot.c starts.
use mathlib.Core.Path.{subst}
use moonlight_os.Prelude.{
  ℕ, ◌≡◌, inl, inr, ◌∙◌, refl, sym, ap, arith, true, List, Bool-cases, first,
}
use moonlight_os.Types.{KError, is_ok}
use moonlight_os.Alloc.{FrameAlloc}
use moonlight_os.Sched
use moonlight_os.Sched.{SchedState, partition_create, context_bind, utilization, is_schedulable}
use moonlight_os.Process.{Tables, CreateArgs, create}
use moonlight_os.Process.Demand.{KeepsDemand-is_schedulable}
use moonlight_os.Process.Create.{Created, admitted, refused, create-Created}
use moonlight_os.Boot.{boot_sched, boot_tables, boot_args, spawn, boot_processes}
use moonlight_os.Boot.Schedule.{IsBooted, ticks, leaves, ticks-booted}

-- A scheduler with the windows of the boot, in partition 0, that passes its test.
record IsRunning (s : SchedState) : Type 0 where
  windows : IsBooted s
  first_runs : s.current_partition ≡ 0
  passes : is_schedulable s ≡ true

bind-windows :
    (s : SchedState) (sc id part budget period prio : ℕ)
    → let s' = (context_bind s sc id part budget period prio).1 in
      (s'.partitions ≡ s.partitions)
      × (s'.num_partitions ≡ s.num_partitions)
      × (s'.major_frame_start ≡ s.major_frame_start)
      × (s'.current_partition ≡ s.current_partition)
unfolding context_bind
bind-windows s sc id part budget period prio =
    (ground arith, ground arith, ground arith, ground arith)

IsRunning-after :
    (s s' : SchedState)
    → (s'.partitions ≡ s.partitions)
      × (s'.num_partitions ≡ s.num_partitions)
      × (s'.major_frame_start ≡ s.major_frame_start)
      × (s'.current_partition ≡ s.current_partition)
    → is_schedulable s' ≡ true
    → IsRunning s
    → IsRunning s'
IsRunning-after s s' (partitions, count, start, current) passes r = record {
  windows = record {
    partitions = partitions ∙ r.windows.partitions;
    count = count ∙ r.windows.count;
    start = start ∙ r.windows.start;
  };
  first_runs = current ∙ r.first_runs;
  passes = passes;
}

created-IsRunning :
    (k : Tables) (args : CreateArgs) (r : KError × ℕ × Tables)
    → Created k args 0 r
    → IsRunning k.sched
    → IsRunning r.2.sched
created-IsRunning k args _ (admitted id sc paddr k' _ _ _ _ fits bound _ _ _) run =
    IsRunning-after k.sched k'.sched
      (subst
        (λ (s' : SchedState).
          (s'.partitions ≡ k.sched.partitions)
          × (s'.num_partitions ≡ k.sched.num_partitions)
          × (s'.major_frame_start ≡ k.sched.major_frame_start)
          × (s'.current_partition ≡ k.sched.current_partition))
        (sym bound)
        (bind-windows k.sched sc id args.partition_id args.budget_us args.period_us args.priority))
      fits run
created-IsRunning k args _ (refused e k' _ demand _ _ _) run =
    let (partitions, start, current) = demand.windows in
    IsRunning-after k.sched k'.sched (partitions, demand.count, start, current)
      (KeepsDemand-is_schedulable k.sched k'.sched demand run.passes) run

spawn-sched : (k : Tables) (args : CreateArgs) → (spawn k args).sched ≡ (create k args 0).2.sched
unfolding spawn
spawn-sched k args = elim (Bool-cases (is_ok (create k args 0).0)) [
  | inl good ↦ rw (good, spawn) refl
  | inr bad ↦ rw (bad, spawn) refl
]

spawn-IsRunning :
    (k : Tables) (args : CreateArgs) → IsRunning k.sched → IsRunning (spawn k args).sched
spawn-IsRunning k args run =
    rw (spawn-sched k args)
      (created-IsRunning k args (create k args 0) (create-Created k args 0) run)

boot_sched-IsRunning : IsRunning boot_sched
unfolding boot_sched partition_create Sched.init first utilization is_schedulable
boot_sched-IsRunning = record {
  windows = record { partitions = refl; count = refl; start = refl };
  first_runs = refl;
  passes = refl;
}

-- With any allocator, the scheduler passes its test after the boot has started its processes, those that
-- `process_create` refuses left out, and its ticks run the partitions in the windows of the boot.
pub boot_processes-runs :
    (user_hello : ℕ) (a : FrameAlloc) (times : List ℕ)
    → let s = (boot_processes user_hello (boot_tables a)).sched in
      (is_schedulable s ≡ true) × (ticks s times ≡ leaves 0 times)
unfolding boot_processes
boot_processes-runs user_hello a times =
    let k1 = spawn (boot_tables a) (boot_args user_hello 0x8050_0000 0 10 1000 5000) in
    let k2 = spawn k1 (boot_args user_hello 0x8060_0000 0 5 500 2000) in
    let k3 = spawn k2 (boot_args user_hello 0x8070_0000 1 5 500 2000) in
    let last = boot_args user_hello 0x8080_0000 2 5 500 2000 in
    let run = spawn-IsRunning k3 last (
      spawn-IsRunning k2 _
        (spawn-IsRunning k1 _ (spawn-IsRunning (boot_tables a) _ boot_sched-IsRunning))) in
    (
      run.passes,
      ticks-booted times (spawn k3 last).sched run.windows
          ∙ ap (λ (p : ℕ). leaves p times) run.first_runs,
    )
