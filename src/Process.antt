-- ===== src/Process.antt =====
-- kernel/include/process.h and kernel/src/process.c: creating and destroying processes.
pub mod Demand
pub mod Create
pub mod Purge
pub mod Destroy
use moonlight_os.Prelude.{
  ℕ, zero, suc, ◌+◌, ◌-◌, ◌*◌, ◌%◌, ◌^◌, Bool, true, false, not, ◌&&◌, ◌||◌, Option, none, some,
  Array, set, ◌==◌, ◌!=◌, ltb, leb, if◌then◌else◌, add64, add32, sub32, first, update_all,
}
use moonlight_os.Types.{KError, ok, invalid_arg, no_mem, max_partitions, is_ok}
use moonlight_os.Cheri.{SimCap, zero_sim_cap}
use moonlight_os.Cap.{Cap, zero_cap, max_caps_per_cnode}
use moonlight_os.Alloc.{FrameAlloc, frame}
use moonlight_os.Cnode.{Cnode, Store}
use moonlight_os.Tcb.{Tcb, TcbTable, zero_tcb, max_tcbs, inactive}
use moonlight_os.Sched.{SchedState, SchedContext, max_sched_contexts, context_bind, is_schedulable}
use moonlight_os.Endpoint.{Endpoint, max_endpoints}
use moonlight_os.Mdb.{MdbTree, nil}

-- The tables that `process_create` is passed.
pub record Tables : Type 0 where
  pub tcbs : TcbTable
  pub alloc : FrameAlloc
  pub sched : SchedState
  pub mdb : MdbTree

-- `process_create_args_t`
pub record CreateArgs : Type 0 where
  pub parent_cnode : ℕ
  pub untyped_cptr : ℕ
  pub partition_id : ℕ
  pub budget_us : ℕ
  pub period_us : ℕ
  pub priority : ℕ
  pub pc : ℕ
  pub sp_top : ℕ
  pub stack_size : ℕ

-- `pc == 0 && sp == 0 && cspace == NULL`
abbrev pub is_free : Tcb → Bool
is_free tcb = (tcb.pc == 0) && (tcb.sp == 0) && elim tcb.cspace [ none ↦ true | some _ ↦ false ]

-- `tcb->pcc`
abbrev pub code_cap : CreateArgs → SimCap
code_cap args =
    let base = args.pc - args.pc % 4096 in
    record zero_sim_cap { tag = true; base = base; top = add64 base 0x10000; addr = args.pc }

-- `tcb->csp`, with the address of the stack frame
abbrev pub stack_pointer_cap : CreateArgs → ℕ → SimCap
stack_pointer_cap args paddr = record zero_sim_cap {
  tag = true;
  base = paddr;
  top = add64 paddr args.stack_size;
  addr = args.sp_top;
}

-- The thread that `process_create` fills in.
abbrev pub new_tcb : CreateArgs → ℕ → ℕ → ℕ → Tcb
new_tcb args id paddr context = record zero_tcb {
  id = id;
  time_partition = args.partition_id;
  priority = args.priority;
  pc = args.pc;
  sp = args.sp_top;
  pcc = code_cap args;
  csp = stack_pointer_cap args paddr;
  state = inactive;
  sched_context = context;
}

-- `memset(tcb, 0, sizeof(*tcb)); return e;`
abbrev pub give_up : Tables → ℕ → ℕ → KError → KError × ℕ × Tables
give_up k id out e =
    (e, out, record k { tcbs = record k.tcbs { threads = set k.tcbs.threads id zero_tcb } })

-- `sched->contexts[sc].bound = false;`
abbrev pub unbind : SchedState → ℕ → SchedState
unbind s sc = record s { contexts = set s.contexts sc (record (s.contexts sc) { bound = false }) }

-- `mdb_insert(mdb, 0xFFFF, id, stack_cap, &mdb_idx);`, whose error is dropped
abbrev pub track : MdbTree → ℕ → Cap → MdbTree
track mdb id stack_cap = (moonlight_os.Mdb.insert mdb nil id stack_cap 0).2

-- `process_create` from the bound context on.
unfoldable pub admit : Tables → CreateArgs → ℕ → ℕ → Cap → ℕ → KError × ℕ × Tables
admit k args out id stack_cap sc =
    if not (is_schedulable k.sched)
    then give_up (record k { sched = unbind k.sched sc }) id out invalid_arg
    else (
      ok,
      id,
      record k {
        tcbs = record {
          threads = set k.tcbs.threads id (new_tcb args id stack_cap.u.word0 sc);
          count = add32 k.tcbs.count 1;
        };
        mdb = track k.mdb id stack_cap;
      },
    )

abbrev pub is_unbound : SchedState → ℕ → Bool
is_unbound s i = not (s.contexts i).bound

-- `process_create` from the stack frame on: the loop over the scheduling contexts.
unfoldable pub schedule : Tables → CreateArgs → ℕ → ℕ → Cap → KError × ℕ × Tables
schedule k args out id stack_cap = elim (first (is_unbound k.sched) max_sched_contexts 0) [
  | none ↦ give_up k id out no_mem
  | some sc ↦
      let bound =
        context_bind k.sched sc id args.partition_id args.budget_us args.period_us args.priority in
      if not (is_ok bound.0)
      then give_up (record k { sched = bound.1 }) id out bound.0
      else admit (record k { sched = bound.1 }) args out id stack_cap sc
]

-- `process_create` from the free thread on.
unfoldable pub build : Tables → CreateArgs → ℕ → ℕ → KError × ℕ × Tables
build k args out id =
    let carved = frame k.alloc args.partition_id args.stack_size zero_cap in
    if not (is_ok carved.0)
    then (carved.0, out, record k { alloc = carved.2 })
    else schedule (record k { alloc = carved.2 }) args out id carved.1

abbrev pub free_tcb : Tables → ℕ → Bool
free_tcb k i = is_free (k.tcbs.threads i)

-- `process_create`: its error, `*out_tcb_id` and the tables. No pointer is NULL here and below.
unfoldable pub create : Tables → CreateArgs → ℕ → KError × ℕ × Tables
create k args out =
    if leb max_partitions args.partition_id
    then (invalid_arg, out, k)
    else if ltb args.period_us args.budget_us || (args.budget_us == 0)
    then (invalid_arg, out, k)
    else elim (first (free_tcb k) max_tcbs 0) [
      | none ↦ (no_mem, out, k)
      | some id ↦ build k args out id
    ]

-- The loop over `k` that moves the entries after a removed one: `n` rounds from `k`, of one of the two
-- arrays of the ring.
unfoldable pub shift {ℓ} : {A : Type ℓ} → ℕ → ℕ → ℕ → Array A → Array A
shift zero head k a = a
shift (suc n) head k a = shift n head (k + 1) (set a ((head + k) % 16) (a ((head + k + 1) % 16)))

-- The removal of the entry `q` of an endpoint's queue.
unfoldable pub drop_entry : Endpoint → ℕ → Endpoint
drop_entry ep q = record ep {
  queue = shift (ep.q_len - 1 - q) ep.q_head q ep.queue;
  queue_msgs = shift (ep.q_len - 1 - q) ep.q_head q ep.queue_msgs;
  q_len = ep.q_len - 1;
  q_tail = (ep.q_head + (ep.q_len - 1)) % 16;
  pending = if ep.q_len == 1 then false else ep.pending;
}

-- The loop over `q`, which starts with fuel for the entries left and never needs more.
unfoldable pub purge_from : ℕ → Endpoint → ℕ → ℕ → Endpoint
purge_from zero ep tcb_id q = ep
purge_from (suc fuel) ep tcb_id q =
    if leb ep.q_len q then ep else elim (ep.queue ((ep.q_head + q) % 16) == tcb_id) [
      | true ↦ purge_from fuel (drop_entry ep q) tcb_id q
      | false ↦ purge_from fuel ep tcb_id (q + 1)
    ]

-- The receiver's part of the body of `endpoint_cleanup_for_tcb`.
unfoldable pub forget_receiver : Endpoint → ℕ → Endpoint
forget_receiver ep tcb_id =
    if ep.has_receiver && (ep.receiver_tcb == tcb_id)
    then record ep { has_receiver = false; pending = false; receiver_tcb = 0xFFFF_FFFF }
    else ep

-- The body of `endpoint_cleanup_for_tcb`.
unfoldable pub cleanup : ℕ → Endpoint → Endpoint
cleanup tcb_id ep = let ep' = forget_receiver ep tcb_id in purge_from ep'.q_len ep' tcb_id 0

-- `if (slots[i].is_valid) memset(&slots[i], 0, sizeof(cap_t));`
abbrev pub scrub_slot : Cap → Cap
scrub_slot c = if c.is_valid then zero_cap else c

-- The capability space of a destroyed thread.
abbrev pub scrub_cspace : Store → Option ℕ → Store
scrub_cspace m none = m
scrub_cspace m (some p) =
    set m p
      (record (m p) { slots = update_all max_caps_per_cnode scrub_slot (m p).slots; used = 0 })

-- `if (idx != 0xFFFF) { mdb_revoke(mdb, idx); mdb_delete(mdb, idx); }`, whose errors are dropped
unfoldable pub untrack_node : MdbTree → ℕ → Option MdbTree
untrack_node mdb idx = if idx == nil then some mdb else elim (moonlight_os.Mdb.revoke mdb idx) [
  | none ↦ none
  | some (_, revoked) ↦ elim (moonlight_os.Mdb.delete revoked idx) [
    | none ↦ none
    | some (_, deleted) ↦ some deleted
  ]
]

-- The part of `process_destroy` on the derivation tree.
unfoldable pub untrack : MdbTree → ℕ → Option MdbTree
untrack mdb tcb_id = untrack_node mdb (moonlight_os.Mdb.lookup mdb 0 tcb_id)

-- What `process_destroy` changes: the tables but the allocator, the tables of capabilities and the
-- endpoints.
pub record World : Type 0 where
  pub tables : Tables
  pub cnodes : Store
  pub endpoints : Array Endpoint

-- `process_destroy` of a thread that is not free.
unfoldable pub dismantle : World → ℕ → MdbTree → World
dismantle w tcb_id mdb =
    let k = w.tables in
    let t = k.tcbs.threads tcb_id in
    record {
      tables = record k {
        tcbs = record {
          threads = set k.tcbs.threads tcb_id zero_tcb;
          count = sub32 k.tcbs.count 1;
        };
        sched =
            if ltb t.sched_context max_sched_contexts
            then unbind k.sched t.sched_context
            else k.sched;
        mdb = mdb;
      };
      cnodes = scrub_cspace w.cnodes t.cspace;
      endpoints = update_all max_endpoints (cleanup tcb_id) w.endpoints;
    }

-- `process_destroy`; `none` is an access out of the derivation tree, or a loop in it.
unfoldable pub destroy : World → ℕ → Option (KError × World)
destroy w tcb_id =
    if leb max_tcbs tcb_id
    then some (invalid_arg, w)
    else if is_free (w.tables.tcbs.threads tcb_id)
    then some (invalid_arg, w)
    else elim (untrack w.tables.mdb tcb_id) [
      | none ↦ none
      | some mdb ↦ some (ok, dismantle w tcb_id mdb)
    ]
