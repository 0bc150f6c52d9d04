-- ===== src/Sched.antt =====
-- kernel/include/sched.h and kernel/src/sched.c: time partitions and scheduling contexts.
pub mod Partitions
pub mod Tick
pub mod Pick
pub mod Schedulable
use moonlight_os.Prelude.{
  ℕ, zero, suc, ◌+◌, ◌-◌, ◌*◌, ◌/◌, ◌%◌, ◌^◌, Bool, true, false, not, ◌&&◌, ◌||◌, Option, none,
  some, Array, set, fill, ◌==◌, ◌!=◌, ltb, leb, if◌then◌else◌, add64, sub64, first, update_all,
}
use moonlight_os.Types.{KError, ok, invalid_arg, max_partitions}
use moonlight_os.Tcb.{Tcb, max_tcbs, is_runnable}

abbrev pub major_frame_us : ℕ
major_frame_us = 10_000

abbrev pub max_sched_contexts : ℕ
max_sched_contexts = 64

-- `time_partition_t`, without its name, which nothing reads.
pub record TimePartition : Type 0 where
  pub id : ℕ
  pub offset_us : ℕ
  pub budget_us : ℕ
  pub used_us : ℕ
  pub criticality : ℕ
  pub color_base : ℕ
  pub active : Bool

-- `sched_context_t`
pub record SchedContext : Type 0 where
  pub bound : Bool
  pub tcb_id : ℕ
  pub partition_id : ℕ
  pub budget_us : ℕ
  pub period_us : ℕ
  pub remaining_us : ℕ
  pub deadline : ℕ
  pub priority : ℕ
  pub is_realtime : Bool
  pub consumed_this_period : ℕ

-- `sched_state_t`, without the ready queues, which no function uses.
pub record SchedState : Type 0 where
  pub partitions : Array TimePartition
  pub num_partitions : ℕ
  pub major_frame_start : ℕ
  pub current_partition : ℕ
  pub contexts : Array SchedContext

abbrev pub zero_partition : TimePartition
zero_partition = record {
  id = 0;
  offset_us = 0;
  budget_us = 0;
  used_us = 0;
  criticality = 0;
  color_base = 0;
  active = false;
}

abbrev pub zero_context : SchedContext
zero_context = record {
  bound = false;
  tcb_id = 0;
  partition_id = 0;
  budget_us = 0;
  period_us = 0;
  remaining_us = 0;
  deadline = 0;
  priority = 0;
  is_realtime = false;
  consumed_this_period = 0;
}

-- `sched_init`
unfoldable pub init : SchedState
init = record {
  partitions = fill zero_partition;
  num_partitions = 0;
  major_frame_start = 0;
  current_partition = 0;
  contexts = fill zero_context;
}

-- `!(d <= a || c >= b)`: the window from `offset` meets the partition's.
abbrev pub overlaps : TimePartition → ℕ → ℕ → Bool
overlaps p offset budget =
    not (leb (add64 offset budget) p.offset_us || leb (add64 p.offset_us p.budget_us) offset)

-- `sched_partition_create`
unfoldable pub partition_create : SchedState → ℕ → ℕ → ℕ → ℕ → KError × SchedState
partition_create s id offset budget crit =
    if leb max_partitions id
    then (invalid_arg, s)
    else if ltb major_frame_us (add64 offset budget)
    then (invalid_arg, s)
    else elim (first (λ i. overlaps (s.partitions i) offset budget) s.num_partitions 0) [
      | some _ ↦ (invalid_arg, s)
      | none ↦ (
        ok,
        record s {
          partitions = set s.partitions id (record (s.partitions id) {
            id = id;
            offset_us = offset;
            budget_us = budget;
            criticality = crit;
            color_base = id * 2;
            active = true;
          });
          num_partitions = if leb s.num_partitions id then id + 1 else s.num_partitions;
        },
      )
    ]

-- `sched_context_bind`
unfoldable pub context_bind : SchedState → ℕ → ℕ → ℕ → ℕ → ℕ → ℕ → KError × SchedState
context_bind s sc_id tcb_id part_id budget period prio =
    if leb max_sched_contexts sc_id
    then (invalid_arg, s)
    else if leb max_partitions part_id || not (s.partitions part_id).active
    then (invalid_arg, s)
    else if budget == 0 || period == 0 || ltb period budget
    then (invalid_arg, s)
    else if ltb (s.partitions part_id).budget_us budget
    then (invalid_arg, s)
    else (
      ok,
      record s {
        contexts = set s.contexts sc_id (record (s.contexts sc_id) {
          bound = true;
          tcb_id = tcb_id;
          partition_id = part_id;
          budget_us = budget;
          period_us = period;
          priority = prio;
          remaining_us = budget;
          deadline = period;
        });
      },
    )

-- `frame_offset >= off && frame_offset < end`
abbrev pub in_window : TimePartition → ℕ → Bool
in_window p at = leb p.offset_us at && ltb at (add64 p.offset_us p.budget_us)

-- The partition that the first loop of `sched_tick` chooses.
unfoldable pub window_at : SchedState → ℕ → ℕ
window_at s at = elim (first (λ i. in_window (s.partitions i) at) s.num_partitions 0) [
  | none ↦ s.current_partition
  | some i ↦ i
]

-- The body of the second loop of `sched_tick`.
unfoldable pub replenish : ℕ → SchedContext → SchedContext
replenish now sc =
    if not sc.bound
    then sc
    else if leb sc.deadline now
    then record sc {
      remaining_us = sc.budget_us;
      deadline = add64 sc.deadline sc.period_us;
      consumed_this_period = 0;
    }
    else sc

-- `(now_us - s->major_frame_start) % MAJOR_FRAME_US`
abbrev pub frame_offset : SchedState → ℕ → ℕ
frame_offset s now = sub64 now s.major_frame_start % major_frame_us

-- `sched_tick`: the state, and the partition for which `sched_flush_partition` is called, if it is.
unfoldable pub tick : SchedState → ℕ → SchedState × Option ℕ
tick s now =
    let new_part = window_at s (frame_offset s now) in
    (
      record s {
        current_partition = new_part;
        contexts = update_all max_sched_contexts (replenish now) s.contexts;
      },
      if new_part != s.current_partition then some s.current_partition else none,
    )

-- The tests of `sched_pick_next` on a context, up to its thread's.
abbrev pub competes : SchedState → ℕ → ℕ → Bool
competes s prio i =
    (s.contexts i).bound
    && ((s.contexts i).partition_id == s.current_partition)
    && ((s.contexts i).priority == prio)
    && not ((s.contexts i).remaining_us == 0)

-- The index at which the inner loop of `sched_pick_next` ends: at a runnable thread, or at a thread
-- number that is not in the table, which the code does not check.
abbrev pub stops : SchedState → Array Tcb → ℕ → ℕ → Bool
stops s threads prio i =
    competes s prio i
    && (leb max_tcbs (s.contexts i).tcb_id || is_runnable (threads (s.contexts i).tcb_id))

abbrev pub idle : ℕ
idle = 0xFFFF_FFFF

-- The outer loop of `sched_pick_next`, over `n` priorities from `prio`; `none` is the access out of the
-- thread table.
unfoldable pub pick_from : SchedState → Array Tcb → ℕ → ℕ → Option ℕ
pick_from s threads zero prio = some idle
pick_from s threads (suc n) prio = elim (first (stops s threads prio) max_sched_contexts 0) [
  | some i ↦ if leb max_tcbs (s.contexts i).tcb_id then none else some (s.contexts i).tcb_id
  | none ↦ pick_from s threads n (prio + 1)
]

-- `sched_pick_next`
unfoldable pub pick_next : SchedState → Array Tcb → Option ℕ
pick_next s threads = pick_from s threads 256 0

-- `s->contexts[i].budget_us * 100 / s->contexts[i].period_us` of a context of partition `p`, else 0.
-- A bound context has a period other than 0.
abbrev pub share : SchedState → ℕ → ℕ → ℕ
share s p i =
    if (s.contexts i).bound && ((s.contexts i).partition_id == p)
    then (s.contexts i).budget_us * 100 % 2 ^ 64 / (s.contexts i).period_us
    else 0

-- The sum of the shares of the contexts below `n`, on `uint64_t`.
unfoldable pub utilization : SchedState → ℕ → ℕ → ℕ
utilization s p zero = 0
utilization s p (suc n) = add64 (utilization s p n) (share s p n)

-- `sched_is_schedulable`
unfoldable pub is_schedulable : SchedState → Bool
is_schedulable s =
    elim (first (λ p. ltb 99 (utilization s p max_sched_contexts)) s.num_partitions 0) [
      | some _ ↦ false
      | none ↦ true
    ]

-- `wcet_check`, with the value of `now` that it reads from the timer (0 off the target).
unfoldable pub wcet_check : ℕ → ℕ → Bool
wcet_check now entry_us = leb (sub64 now entry_us) 5000
