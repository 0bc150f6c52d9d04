-- ===== src/Servers/Policy.antt =====
-- userspace/sched_server/server.c: the server that admits tasks to the time partitions.
pub mod Admission
pub mod Kernel
pub mod Sums
use moonlight_os.Prelude.{
  ℕ, zero, suc, ◌+◌, ◌*◌, ◌/◌, ◌%◌, ◌-◌, ◌^◌, ◌&&◌, ◌||◌, Bool, true, false, not, Array, set, ◌==◌,
  ltb, leb, if◌then◌else◌, add32, add64, Option, none, some, List, [], ◌∷◌, fill,
}
use mathlib.Core.Option
use moonlight_os.Types.{IpcMsg}

abbrev pub max_tasks : ℕ
max_tasks = 64

-- `task_cfg_t`
pub record TaskCfg : Type 0 where
  pub id : ℕ
  pub partition : ℕ
  pub budget : ℕ
  pub period : ℕ
  pub prio : ℕ
  pub rt : Bool

-- The variables of the file.
pub record PolicyServer : Type 0 where
  pub tasks : Array TaskCfg
  pub task_count : ℕ

-- The sum so far in `is_schedulable_for_partition`, or its `return false`, or a division by zero.
pub data Sum : Type 0 where
  fault : Sum
  over : Sum
  sum : ℕ → Sum

-- `if (sum > 99) return false;`
abbrev pub check_sum : ℕ → Sum
check_sum total = if ltb 99 total then over else sum total

-- `if (partition == part) { sum += budget * 100 / period; if (sum > 99) return false; }` for one task.
unfoldable pub add_share : ℕ → TaskCfg → ℕ → Sum
add_share part t total =
    if t.partition == part
    then if t.period == 0
      then fault
      else check_sum (add64 total (t.budget * 100 % 2 ^ 64 / t.period))
    else sum total

abbrev pub and_then : Sum → (ℕ → Sum) → Sum
and_then fault f = fault
and_then over f = over
and_then (sum total) f = f total

-- The loop of `is_schedulable_for_partition` over the first `n` tasks.
unfoldable pub sum_tasks : Array TaskCfg → ℕ → ℕ → Sum
sum_tasks tasks part zero = sum 0
sum_tasks tasks part (suc n) = and_then (sum_tasks tasks part n) (add_share part (tasks n))

-- `return false`, or the last `return sum <= 99`; `none` is a division by zero.
abbrev pub verdict : Sum → Option Bool
verdict fault = none
verdict over = some false
verdict (sum total) = some (leb total 99)

-- The second part of `is_schedulable_for_partition`; `new_task` may be NULL.
abbrev pub add_new : ℕ → Option TaskCfg → ℕ → Sum
add_new part none total = sum total
add_new part (some t) total = add_share part t total

-- `is_schedulable_for_partition`
unfoldable pub is_schedulable : PolicyServer → ℕ → Option TaskCfg → Option Bool
is_schedulable s part new_task =
    verdict (and_then (sum_tasks s.tasks part s.task_count) (add_new part new_task))

-- `sched_admit`: whether it returns 0, or -1; `none` is a division by zero.
unfoldable pub admit : PolicyServer → TaskCfg → Option (Bool × PolicyServer)
admit s cfg = elim (is_schedulable s cfg.partition (some cfg)) [
  | none ↦ none
  | some false ↦ some (false, s)
  | some true ↦ some (
      if leb max_tasks s.task_count
      then (false, s)
      else (true, record s { tasks = set s.tasks s.task_count cfg; task_count = s.task_count + 1 }))
]

-- The loop of `sched_is_admissible` over the partitions `p` to `p + n - 1`.
unfoldable pub is_admissible_from : PolicyServer → ℕ → ℕ → Option Bool
is_admissible_from s zero p = some true
is_admissible_from s (suc n) p = elim (is_schedulable s p none) [
  | none ↦ none
  | some false ↦ some false
  | some true ↦ is_admissible_from s n (p + 1)
]

-- `sched_is_admissible`
unfoldable pub is_admissible : PolicyServer → Option Bool
is_admissible s = is_admissible_from s 8 0

-- The task of a request: words are cut to the width of the fields, and `rt` is never written, here
-- `junk`.
abbrev pub task_of : IpcMsg → Bool → TaskCfg
task_of msg junk = record {
  id = msg.words 0 % 2 ^ 32;
  partition = msg.words 1 % 2 ^ 32;
  budget = msg.words 2;
  period = msg.words 3;
  prio = msg.words 4 % 256;
  rt = junk;
}

-- `msg.words[0] = err; msg.length = 1;`
abbrev pub reply_to : IpcMsg → Bool × PolicyServer → Option IpcMsg × PolicyServer
reply_to msg (accepted, s) = (
  some (record msg { words = set msg.words 0 (if accepted then 0 else 2 ^ 64 - 1); length = 1 }),
  s,
)

-- The body of the loop of `sched_server_run`: the reply, if one is sent, and the state.
unfoldable pub handle : PolicyServer → IpcMsg → Bool → Option (Option IpcMsg × PolicyServer)
handle s msg junk =
    if msg.label == 1
    then Option.map (reply_to msg) (admit s (task_of msg junk))
    else some (none, s)

-- The state after a series of requests; `none` is a division by zero at one of them.
unfoldable pub run : PolicyServer → List (IpcMsg × Bool) → Option PolicyServer
run s [] = some s
run s ((msg, junk) ∷ rest) = elim (handle s msg junk) [ none ↦ none | some (_, s') ↦ run s' rest ]

-- The static variables at the start.
abbrev pub start : PolicyServer
start = record {
  tasks = fill (record { id = 0; partition = 0; budget = 0; period = 0; prio = 0; rt = false });
  task_count = 0;
}
