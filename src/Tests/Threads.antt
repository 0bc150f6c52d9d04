-- ===== src/Tests/Threads.antt =====
-- Examples for kernel/src/tcb.c, sched.c, endpoint.c, notification.c and irq.c.
use moonlight_os.Prelude.{
  ℕ, ◌≡◌, ◌⊎◌, ◌↔◌, refl, arith, true, false, List, [], ◌∷◌, some, Array, set, fill,
}
use moonlight_os.Prelude.Bits.{bit}
use moonlight_os.Types.{ok, IpcMsg, zero_msg}
use moonlight_os.Cap.{Cap, zero_cap, zero_union, cap_irq}
use moonlight_os.Tcb.{Tcb, runnable, blocked_recv, zero_tcb}
use moonlight_os.Sched.{
  SchedState, SchedContext, TimePartition, zero_partition, zero_context, partition_create,
  context_bind, tick, pick_next, idle,
}
use moonlight_os.Sched.Partitions.{Windows, partition_create-Windows}
use moonlight_os.Sched.Tick.{tick_switch}
use moonlight_os.Sched.Pick.{InTable, IsReady, IsBest, pick_next-IsBest}
use moonlight_os.Endpoint.{Endpoint}
use moonlight_os.Endpoint.Ring.{IsRing}
use moonlight_os.Endpoint.Refine.{Op, sends, recvs, view, run, run_channel, run-refines}
use moonlight_os.Notification.{Notification, poll}
use moonlight_os.Notification.Badges.{AnySet, signal_all, poll-signal_all}
use moonlight_os.Irq.{IrqState, zero_entry}

abbrev sleeper : Tcb
sleeper = record zero_tcb { id = 3; state = blocked_recv; fault_addr = 9 }

abbrev job : ℕ → ℕ → SchedContext
job tcb prio = record zero_context {
  bound = true;
  tcb_id = tcb;
  budget_us = 1000;
  period_us = 10_000;
  remaining_us = 1000;
  deadline = 10_000;
  priority = prio;
}

abbrev window : ℕ → ℕ → TimePartition
window offset budget = record zero_partition {
  offset_us = offset;
  budget_us = budget;
  active = true;
}

-- Two windows fill the major frame, and two contexts of the first one compete.
abbrev plan : SchedState
plan = record {
  partitions = set (set (fill zero_partition) 0 (window 0 4000)) 1 (window 4000 6000);
  num_partitions = 2;
  major_frame_start = 0;
  current_partition = 0;
  contexts = set (set (fill zero_context) 0 (job 2 7)) 1 (job 3 5);
}

plan-Windows : Windows plan
plan-Windows = record {
  few = omega arith;
  inside = λ i. ground arith;
  unused = λ i h. ground arith;
  apart = λ i j other. ground arith;
}

partition_create-Windows_example : Windows (partition_create plan 2 0 0 1).1
partition_create-Windows_example = partition_create-Windows plan 2 0 0 1 (omega arith) plan-Windows

tick_switch_example : ((tick plan 14_500).0.current_partition ≡ 1) × ((tick plan 14_500).1 ≡ some 0)
tick_switch_example =
    tick_switch plan 14_500 1 plan-Windows (omega arith) (omega arith, omega arith)

abbrev awake : Array Tcb
awake = fill (record zero_tcb { state = runnable })

plan-InTable : InTable plan
plan-InTable i = ground arith

pick_next-IsBest_example :
    ((i : ℕ) × IsBest plan awake i × (pick_next plan awake ≡ some (plan.contexts i).tcb_id))
    ⊎ ((pick_next plan awake ≡ some idle) × ((k : ℕ) → ¬ IsReady plan awake k))
pick_next-IsBest_example = pick_next-IsBest plan awake plan-InTable (λ k. ground arith)

abbrev astray : SchedState
astray = record plan { contexts = set (fill zero_context) 0 (job 200 0) }

abbrev crowded : SchedState
crowded = record plan {
  contexts = fill (record zero_context { bound = true; budget_us = 19; period_us = 1000 });
}

bound : context_bind plan 4 5 1 2000 10_000 1 ≡ (ok, (context_bind plan 4 5 1 2000 10_000 1).1)
unfolding context_bind
bound = refl

abbrev waiting : Endpoint
waiting = record {
  has_sender = false;
  has_receiver = true;
  sender_tcb = 0;
  receiver_tcb = 3;
  pending_msg = zero_msg;
  pending = false;
  queue = fill 0;
  queue_msgs = fill zero_msg;
  q_head = 0;
  q_tail = 0;
  q_len = 0;
  badge = 0;
}

waiting-IsRing : IsRing waiting
waiting-IsRing = record {
  head = omega arith;
  len = omega arith;
  tail = refl;
  waits = λ h. (refl, refl);
}

abbrev letter : ℕ → IpcMsg
letter label = record zero_msg { label = label; length = 2 }

abbrev threads : Array Tcb
threads = set (fill zero_tcb) 3 sleeper

abbrev talk : List Op
talk =
    sends 1 (letter 10)
    ∷ recvs 3
    ∷ sends 1 (letter 11)
    ∷ sends 2 (letter 12)
    ∷ recvs 3
    ∷ recvs 3
    ∷ []

run-refines_example : run waiting threads zero_msg talk ≡ run_channel (view waiting) talk
run-refines_example = run-refines talk waiting threads zero_msg waiting-IsRing

abbrev quiet : Notification
quiet = record { badge = 1; has_waiter = false; waiter_tcb = 0; bound_tcb = 0 }

poll-signal_all_example :
    ((bit (poll (signal_all quiet (4 ∷ 6 ∷ []))).1 2 ≡ 1) ↔ ((bit 1 2 ≡ 1) ⊎ AnySet 2 (4 ∷ 6 ∷ [])))
    × ((poll (signal_all quiet (4 ∷ 6 ∷ []))).2.badge ≡ 0)
poll-signal_all_example = poll-signal_all (4 ∷ 6 ∷ []) quiet 2

abbrev lines : IrqState
lines = record {
  irqs = set (fill zero_entry) 5 (record zero_entry { valid = true; bound = true; irq_num = 5 });
  pending_mask = 0;
}

abbrev line_cap : Cap
line_cap = record zero_cap { type = cap_irq; is_valid = true; u = record zero_union { word0 = 5 } }
