-- ===== src/Tests/Processes.antt =====
-- Examples for kernel/src/process.c.
use moonlight_os.Prelude.{true, false, some, set, fill}
use moonlight_os.Types.{zero_msg}
use moonlight_os.Cap.{zero_cap}
use moonlight_os.Cnode.{zero_cnode}
use moonlight_os.Tcb.{zero_tcb}
use moonlight_os.Sched.{zero_partition, zero_context}
use moonlight_os.Endpoint.{Endpoint}
use moonlight_os.Mdb.{zero_node, nil}
use moonlight_os.Process.{Tables, CreateArgs, World, create}
use moonlight_os.Process.Create.{Created, create-Created}

-- Thread 1 is in use, and its node in the derivation tree has one child.
abbrev tables : Tables
tables = record {
  tcbs = record {
    threads = set (fill zero_tcb) 1 (record zero_tcb { id = 1; pc = 0x1000; cspace = some 4 });
    count = 1;
  };
  alloc = record {
    base = 0x8040_0000;
    next = 0x8040_0000;
    top = 0x8080_0000;
    frames = fill zero_cap;
    frame_count = 0;
  };
  sched = record {
    partitions =
        set (fill zero_partition) 0 (record zero_partition { budget_us = 5000; active = true });
    num_partitions = 1;
    major_frame_start = 0;
    current_partition = 0;
    contexts =
        set (fill zero_context) 0
          (record zero_context { bound = true; tcb_id = 1; budget_us = 100; period_us = 1000 });
  };
  mdb = record {
    nodes =
        set
          (set (fill zero_node) 0 (record zero_node {
            valid = true;
            cptr = 1;
            parent = nil;
            first_child = 1;
            next_sibling = nil;
          }))
          1
          (record zero_node {
            valid = true;
            cptr = 9;
            parent = 0;
            first_child = nil;
            next_sibling = nil;
          });
    count = 2;
    free_head = 2;
  };
}

abbrev args : CreateArgs
args = record {
  parent_cnode = 0;
  untyped_cptr = 0;
  partition_id = 0;
  budget_us = 200;
  period_us = 1000;
  priority = 3;
  pc = 0x2004;
  sp_top = 0x9000;
  stack_size = 0x2000;
}

create-Created_example : Created tables args 0 (create tables args 0)
create-Created_example = create-Created tables args 0

-- An endpoint with a message from thread 1 between two others.
abbrev busy : Endpoint
busy = record {
  has_sender = false;
  has_receiver = false;
  sender_tcb = 0;
  receiver_tcb = 0;
  pending_msg = zero_msg;
  pending = true;
  queue = set (set (set (fill 0) 15 2) 0 1) 1 3;
  queue_msgs = fill zero_msg;
  q_head = 15;
  q_tail = 2;
  q_len = 3;
  badge = 0;
}

abbrev world : World
world = record { tables = tables; cnodes = fill zero_cnode; endpoints = fill busy }
