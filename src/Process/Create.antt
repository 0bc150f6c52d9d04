-- ===== src/Process/Create.antt =====
-- Creating a process admits it to the schedule or undoes the binding (kernel/src/process.c).
use mathlib.Core.Path.{subst}
use native.Mathlib.Decide.{ℕ_discrete}
use moonlight_os.Prelude.{
  ℕ, ◌<◌, ◌≡◌, ◌⊎◌, inl, inr, refl, sym, arith, true, false, none, some, Array, set, set_self,
  set_ne, Bool-cases, Option-cases, first, first-some, add32,
}
use moonlight_os.Types.{KError, ok, invalid_arg, no_mem, is_ok}
use moonlight_os.Cap.{Cap, zero_cap}
use moonlight_os.Alloc.{FrameAlloc, frame}
use moonlight_os.Tcb.{Tcb, zero_tcb, max_tcbs}
use moonlight_os.Sched.{SchedState, max_sched_contexts, context_bind, is_schedulable}
use moonlight_os.Process.Demand.{bound_at, KeepsDemand, demand_kept, bind-KeepsDemand}
use moonlight_os.Process.{
  Tables, CreateArgs, is_free, new_tcb, admit, is_unbound, schedule, build, free_tcb, create,
}

-- The outcome of `create` for the tables `k`: the new process is in a schedulable system, on a context and
-- a thread that were free; or the demand on the partitions is as before, and no thread and no node is taken.
pub data Created (k : Tables) (args : CreateArgs) (out : ℕ) : KError × ℕ × Tables → Type 0 where
  admitted :
      (id sc paddr : ℕ) (k' : Tables)
      → id < max_tcbs
      → is_free (k.tcbs.threads id) ≡ true
      → sc < max_sched_contexts
      → bound_at k.sched sc ≡ false
      → is_schedulable k'.sched ≡ true
      → k'.sched
        ≡ (context_bind k.sched sc id args.partition_id args.budget_us args.period_us
            args.priority).1
      → is_ok
          (context_bind k.sched sc id args.partition_id args.budget_us args.period_us
            args.priority).0
        ≡ true
      → k'.tcbs.threads ≡ set k.tcbs.threads id (new_tcb args id paddr sc)
      → k'.tcbs.count ≡ add32 k.tcbs.count 1
      → Created k args out (ok, id, k')
  refused :
      (e : KError) (k' : Tables)
      → is_ok e ≡ false
      → KeepsDemand k.sched k'.sched
      → ((i : ℕ)
          → (k'.tcbs.threads i ≡ k.tcbs.threads i)
            ⊎ (is_free (k.tcbs.threads i) ≡ true) × (k'.tcbs.threads i ≡ zero_tcb))
      → k'.tcbs.count ≡ k.tcbs.count
      → k'.mdb ≡ k.mdb
      → Created k args out (e, out, k')

bind-refused :
    (s : SchedState) (sc id part budget period prio : ℕ)
    → is_ok (context_bind s sc id part budget period prio).0 ≡ false
    → (context_bind s sc id part budget period prio).1 ≡ s
unfolding context_bind
bind-refused s sc id part budget period prio bad = ground arith

zeroed :
    (threads : Array Tcb) (id i : ℕ)
    → is_free (threads id) ≡ true
    → (set threads id zero_tcb i ≡ threads i)
      ⊎ (is_free (threads i) ≡ true) × (set threads id zero_tcb i ≡ zero_tcb)
zeroed threads id i free = elim (ℕ_discrete id i) [
  | yes here ↦ inr (rw (← here) free, rw (← here) (set_self threads id zero_tcb))
  | no other ↦ inl (set_ne threads id i zero_tcb other)
]

unbound-free : (s : SchedState) (i : ℕ) → is_unbound s i ≡ true → bound_at s i ≡ false
unbound-free s i e = ground arith

admit-Created :
    (k : Tables) (args : CreateArgs) (out id sc : ℕ) (cap : Cap) (a : FrameAlloc)
    → id < max_tcbs
    → is_free (k.tcbs.threads id) ≡ true
    → sc < max_sched_contexts
    → bound_at k.sched sc ≡ false
    → is_ok
        (context_bind k.sched sc id args.partition_id args.budget_us args.period_us args.priority).0
      ≡ true
    → Created k args out (
        admit
          (record k {
            alloc = a;
            sched =
                (context_bind k.sched sc id args.partition_id args.budget_us args.period_us
                  args.priority).1;
          })
          args
          out
          id
          cap
          sc)
unfolding admit
admit-Created k args out id sc frame_cap a small free below unbound good =
    let sched =
      (context_bind k.sched sc id args.partition_id args.budget_us args.period_us
        args.priority).1 in
    elim (Bool-cases (is_schedulable sched)) [
      | inl fits ↦
          rw (fits, admit)
            (admitted id sc frame_cap.u.word0 _ small free below unbound fits refl good refl refl)
      | inr over ↦
          rw (over, admit)
            (refused invalid_arg _ refl
              (bind-KeepsDemand k.sched sc id args.partition_id args.budget_us args.period_us
                args.priority unbound)
              (λ i. zeroed k.tcbs.threads id i free) refl refl)
    ]

schedule-Created :
    (k : Tables) (args : CreateArgs) (out id : ℕ) (cap : Cap) (a : FrameAlloc)
    → id < max_tcbs
    → is_free (k.tcbs.threads id) ≡ true
    → Created k args out (schedule (record k { alloc = a }) args out id cap)
unfolding schedule
schedule-Created k args out id frame_cap a small free =
    elim (Option-cases (first (is_unbound k.sched) max_sched_contexts 0)) [
      | inl absent ↦
          rw (absent, schedule)
            (refused no_mem _ refl (demand_kept k.sched) (λ i. zeroed k.tcbs.threads id i free) refl
              refl)
      | inr (sc, found) ↦
          let f = first-some (is_unbound k.sched) max_sched_contexts 0 sc found in
          let bind =
            context_bind k.sched sc id args.partition_id args.budget_us args.period_us
              args.priority in
          elim (Bool-cases (is_ok bind.0)) [
            | inl good ↦
                rw (found, good, schedule)
                  (admit-Created k args out id sc frame_cap a small free f.high
                    (unbound-free k.sched sc f.hit) good)
            | inr bad ↦
                rw (found, bad, schedule)
                  (refused bind.0 _ bad
                    (subst (KeepsDemand k.sched)
                      (sym (
                        bind-refused k.sched sc id args.partition_id args.budget_us args.period_us
                          args.priority bad))
                      (demand_kept k.sched))
                    (λ i. zeroed k.tcbs.threads id i free) refl refl)
          ]
    ]

build-Created :
    (k : Tables) (args : CreateArgs) (out id : ℕ)
    → id < max_tcbs
    → is_free (k.tcbs.threads id) ≡ true
    → Created k args out (build k args out id)
unfolding build
build-Created k args out id small free =
    let carved = frame k.alloc args.partition_id args.stack_size zero_cap in
    elim (Bool-cases (is_ok carved.0)) [
      | inl good ↦ rw (good, build) (schedule-Created k args out id carved.1 carved.2 small free)
      | inr bad ↦
          rw (bad, build) (refused carved.0 _ bad (demand_kept k.sched) (λ i. inl refl) refl refl)
    ]

create-full :
    (k : Tables) (args : CreateArgs) (out : ℕ)
    → first (free_tcb k) max_tcbs 0 ≡ none
    → (create k args out ≡ (invalid_arg, out, k)) ⊎ (create k args out ≡ (no_mem, out, k))
unfolding create
create-full k args out absent = ground arith

create-found :
    (k : Tables) (args : CreateArgs) (out id : ℕ)
    → first (free_tcb k) max_tcbs 0 ≡ some id
    → (create k args out ≡ (invalid_arg, out, k)) ⊎ (create k args out ≡ build k args out id)
unfolding create
create-found k args out id found = ground arith

-- Creating a process ends in one of two ways. It is admitted, and then the contexts with its own are
-- schedulable, and its thread and its context were free. Or it is refused, and then the bound contexts with
-- their shares, the partitions, the number of threads and the derivation tree are as before, and only a free
-- thread may be cleared.
pub create-Created :
    (k : Tables) (args : CreateArgs) (out : ℕ) → Created k args out (create k args out)
create-Created k args out = elim (Option-cases (first (free_tcb k) max_tcbs 0)) [
  | inl absent ↦ elim (create-full k args out absent) [
    | inl early ↦
        rw early (refused invalid_arg k refl (demand_kept k.sched) (λ i. inl refl) refl refl)
    | inr late ↦ rw late (refused no_mem k refl (demand_kept k.sched) (λ i. inl refl) refl refl)
  ]
  | inr (id, found) ↦
      let f = first-some (free_tcb k) max_tcbs 0 id found in
      elim (create-found k args out id found) [
        | inl early ↦
            rw early (refused invalid_arg k refl (demand_kept k.sched) (λ i. inl refl) refl refl)
        | inr late ↦ rw late (build-Created k args out id f.high f.hit)
      ]
]
