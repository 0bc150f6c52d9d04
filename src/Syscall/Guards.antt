-- ===== src/Syscall/Guards.antt =====
-- What a system call must pass before it changes anything (kernel/src/syscall.c).
use moonlight_os.Prelude.{
  ℕ, ◌%◌, ◌^◌, ◌≤◌, ◌<◌, ◌≡◌, ◌⊎◌, inl, inr, refl, sym, ◌∙◌, arith, true, false, not, ◌&&◌, Option,
  none, some, ◌==◌, if◌then◌else◌, ltb, lt→leb, Bool-cases, Option-cases,
}
use moonlight_os.Types.{KError, is_ok, invalid_cap, invalid_arg, partition_denied, wcet_exceeded}
use moonlight_os.Cap.{Cap}
use moonlight_os.Cnode.{Cnode, lookup}
use moonlight_os.Cnode.Slots.{IsFound, lookup-IsFound}
use moonlight_os.Tcb.{Tcb, max_tcbs, is_runnable}
use moonlight_os.Sched.{max_sched_contexts}
use moonlight_os.Syscall.{Kernel, Layout, TrapFrame, find_cap}
use moonlight_os.Syscall.Calls.{
  Outcome, returned, Sys, sys_invoke, sys_of, is_yield, is_null, lookup_cap, checked, guarded,
  handle, syscall_handler,
}

-- The capability that a call is about: the valid one that the caller's own table has at the address in a0, or,
-- for an invocation with 0 in a0, the valid one that the root table has at the address in a1.
abbrev pub IsNamed : Kernel → ℕ → TrapFrame → Sys → Option Cap → Type 0
IsNamed k cur frame sys cap =
    ((p : ℕ) × (i : ℕ) × ((k.threads cur).cspace ≡ some p)
      × IsFound (k.cnodes p) (frame.a0 % 2 ^ 32) i
      × (cap ≡ some ((k.cnodes p).slots i)))
    ⊎ ((sys ≡ sys_invoke)
        × (frame.a0 % 2 ^ 32 ≡ 0)
        × ((i : ℕ) × IsFound (k.cnodes k.root) (frame.a1 % 2 ^ 32) i
            × (cap ≡ some ((k.cnodes k.root).slots i))))

-- A call that may be served: the caller may run and has budget left, and it names a capability, or it yields.
pub record IsServed (k : Kernel) (cur : ℕ) (frame : TrapFrame) (sys : Sys) (cap : Option Cap)
    : Type 0 where
  pub number : frame.a7 % 2 ^ 32 ≤ 5
  pub caller : cur < max_tcbs
  pub runs : (is_runnable (k.threads cur) ≡ true) ⊎ (is_yield sys ≡ true)
  pub names : IsNamed k cur frame sys cap ⊎ (is_yield sys ≡ true)
  pub budget : 0 < (k.sched.contexts (k.threads cur).sched_context).remaining_us

find_cap-IsFound :
    (cn : Cnode) (idx : ℕ) (c : Cap)
    → find_cap cn idx ≡ some c
    → (i : ℕ) × IsFound cn idx i × (c ≡ cn.slots i)
find_cap-IsFound cn idx c e = elim (Option-cases (lookup cn idx)) [
  | inl absent ↦ let h : none ≡ some c = rw (find_cap, absent) at e in cc
  | inr (i, found) ↦
      let h : some (cn.slots i) ≡ some c = rw (find_cap, found) at e in
      (i, lookup-IsFound cn idx i found, cc)
]

-- What the caller's own table has at the address in a0.
abbrev own_cap : Kernel → ℕ → Option ℕ → Option Cap
own_cap k idx none = none
own_cap k idx (some p) = find_cap (k.cnodes p) idx

own_cap-IsFound :
    (k : Kernel) (idx : ℕ) (cspace : Option ℕ) (c : Cap)
    → own_cap k idx cspace ≡ some c
    → (p : ℕ) × (i : ℕ) × (cspace ≡ some p)
      × IsFound (k.cnodes p) idx i
      × (some c ≡ some ((k.cnodes p).slots i))
own_cap-IsFound k idx none c e = cc
own_cap-IsFound k idx (some p) c e =
    let (i, found, same) = find_cap-IsFound (k.cnodes p) idx c e in (p, i, refl, found, cc)

-- Without a capability of the caller's own, an invocation with 0 in a0 looks in the root table.
abbrev fallback : Kernel → TrapFrame → Sys → Option Cap
fallback k frame sys_invoke =
    if frame.a0 % 2 ^ 32 == 0 then find_cap (k.cnodes k.root) (frame.a1 % 2 ^ 32) else none
fallback k frame _ = none

abbrev own_or : Option Cap → Option Cap → Option Cap
own_or (some c) o = some c
own_or none o = o

lookup_cap-parts :
    (k : Kernel) (t : Tcb) (frame : TrapFrame) (sys : Sys)
    → lookup_cap k t frame sys
      ≡ own_or (own_cap k (frame.a0 % 2 ^ 32) t.cspace) (fallback k frame sys)
unfolding lookup_cap
lookup_cap-parts k t frame sys_invoke = ground arith
lookup_cap-parts k t frame _ = ground arith

fallback-IsNamed :
    (k : Kernel) (cur : ℕ) (frame : TrapFrame) (sys : Sys) (c : Cap)
    → fallback k frame sys ≡ some c
    → IsNamed k cur frame sys (some c)
fallback-IsNamed k cur frame sys_invoke c e = elim (Bool-cases (frame.a0 % 2 ^ 32 == 0)) [
  | inl zero_ptr ↦
      let h : find_cap (k.cnodes k.root) (frame.a1 % 2 ^ 32) ≡ some c = rw zero_ptr at e in
      let (i, found, same) = find_cap-IsFound (k.cnodes k.root) (frame.a1 % 2 ^ 32) c h in
      inr (refl, ground arith, (i, found, cc))
  | inr other ↦ let h : none ≡ some c = rw other at e in cc
]
fallback-IsNamed k cur frame _ c e = cc

own_or-IsNamed :
    (k : Kernel) (cur : ℕ) (frame : TrapFrame) (sys : Sys) (o : Option Cap) (c : Cap)
    → own_cap k (frame.a0 % 2 ^ 32) (k.threads cur).cspace ≡ o
    → own_or o (fallback k frame sys) ≡ some c
    → IsNamed k cur frame sys (some c)
own_or-IsNamed k cur frame sys none c own e = fallback-IsNamed k cur frame sys c e
own_or-IsNamed k cur frame sys (some c') c own e =
    inl (own_cap-IsFound k (frame.a0 % 2 ^ 32) (k.threads cur).cspace c (own ∙ e))

lookup_cap-IsNamed :
    (k : Kernel) (cur : ℕ) (frame : TrapFrame) (sys : Sys) (o : Option Cap)
    → lookup_cap k (k.threads cur) frame sys ≡ o
    → is_null o ≡ false
    → IsNamed k cur frame sys o
lookup_cap-IsNamed k cur frame sys none e there = cc
lookup_cap-IsNamed k cur frame sys (some c) e there =
    own_or-IsNamed k cur frame sys (own_cap k (frame.a0 % 2 ^ 32) (k.threads cur).cspace) c refl
      (sym (lookup_cap-parts k (k.threads cur) frame sys) ∙ e)

-- A call returns at once with an error and an unchanged kernel, or it passed every check.
abbrev Guarded : Kernel → ℕ → TrapFrame → Sys → Option Cap → Option Outcome → Type 0
Guarded k cur frame sys cap r =
    ((e : KError) × (is_ok e ≡ false) × (r ≡ some (returned e k))) ⊎ IsServed k cur frame sys cap

checked-budget :
    (m : Layout) (k : Kernel) (cur : ℕ) (frame : TrapFrame) (sys : Sys) (c : Option Cap)
    → (k.threads cur).sched_context < max_sched_contexts
    → (checked m k cur frame sys c ≡ some (returned wcet_exceeded k))
      ⊎ (0 < (k.sched.contexts (k.threads cur).sched_context).remaining_us)
unfolding checked
checked-budget m k cur frame sys c context =
    elim (Bool-cases ((k.sched.contexts (k.threads cur).sched_context).remaining_us == 0)) [
      | inl spent ↦ inl (
          rw (lt→leb (k.threads cur).sched_context max_sched_contexts context, spent, checked) refl)
      | inr left ↦ inr (ground arith)
    ]

-- The cases of the checks, before the budget.
guarded-cases :
    (m : Layout) (k : Kernel) (cur : ℕ) (frame : TrapFrame) (sys : Sys) (c : Option Cap)
    → cur < max_tcbs
    → ((e : KError) × (is_ok e ≡ false) × (guarded m k cur frame sys c ≡ some (returned e k)))
      ⊎ ((frame.a7 % 2 ^ 32 ≤ 5)
          × ((is_runnable (k.threads cur) ≡ true) ⊎ (is_yield sys ≡ true))
          × ((is_null c ≡ false) ⊎ (is_yield sys ≡ true))
          × (guarded m k cur frame sys c ≡ checked m k cur frame sys c))
unfolding guarded
guarded-cases m k cur frame sys c small = elim (Bool-cases (ltb 5 (frame.a7 % 2 ^ 32))) [
  | inl wrong ↦ inl (invalid_arg, refl, ground arith)
  | inr number ↦ elim (Bool-cases (not (is_runnable (k.threads cur)) && not (is_yield sys))) [
    | inl idle ↦ inl (partition_denied, refl, ground arith)
    | inr runs ↦ elim (Bool-cases (not (is_yield sys) && is_null c)) [
      | inl lacks ↦ inl (invalid_cap, refl, ground arith)
      | inr holds ↦ inr (ground arith, ground arith, ground arith, ground arith)
    ]
  ]
]

guarded-Guarded :
    (m : Layout) (k : Kernel) (cur : ℕ) (frame : TrapFrame) (sys : Sys) (c : Option Cap)
    → cur < max_tcbs
    → (k.threads cur).sched_context < max_sched_contexts
    → (is_null c ≡ false → IsNamed k cur frame sys c)
    → Guarded k cur frame sys c (guarded m k cur frame sys c)
guarded-Guarded m k cur frame sys c small context named =
    elim (guarded-cases m k cur frame sys c small) [
      | inl refused ↦ inl refused
      | inr (number, runs, has_cap, goes_on) ↦ elim (checked-budget m k cur frame sys c context) [
        | inl spent ↦ inl (wcet_exceeded, refl, goes_on ∙ spent)
        | inr budget ↦ inr (record {
          number = number;
          caller = small;
          runs = runs;
          names = elim has_cap [ inl there ↦ inl (named there) | inr yields ↦ inr yields ];
          budget = budget;
        })
      ]
    ]

-- A system call of a thread of the table whose context number is in range either returns an error and
-- changes neither the kernel nor the register a0, or the caller has budget left, may run (or yields), and
-- (unless it yields) names a valid capability: one of its own table at the address in a0, or, for an
-- invocation with 0 in a0, one of the root table at the address in a1, whoever the caller is.
pub syscall_handler-IsServed :
    (m : Layout) (k : Kernel) (cur : ℕ) (frame : TrapFrame) (entry_us now : ℕ)
    → cur < max_tcbs
    → (k.threads cur).sched_context < max_sched_contexts
    → ((e : KError) × (is_ok e ≡ false)
        × (syscall_handler m k cur frame entry_us now ≡ some (e, frame.a0, k)))
      ⊎ IsServed k cur frame
          (sys_of (frame.a7 % 2 ^ 32))
          (lookup_cap k (k.threads cur) frame (sys_of (frame.a7 % 2 ^ 32)))
unfolding syscall_handler handle
syscall_handler-IsServed m k cur frame entry_us now small context =
    let sys = sys_of (frame.a7 % 2 ^ 32) in
    elim (guarded-Guarded m k cur frame sys (lookup_cap k (k.threads cur) frame sys) small context
      (lookup_cap-IsNamed k cur frame sys (lookup_cap k (k.threads cur) frame sys) refl)) [
        | inl (e, bad, run) ↦ inl (e, bad, rw (run, syscall_handler) refl)
        | inr served ↦ inr served
      ]
