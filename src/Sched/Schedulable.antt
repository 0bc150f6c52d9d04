-- ===== src/Sched/Schedulable.antt =====
-- The utilisation test and the binding of contexts (kernel/src/sched.c).
use moonlight_os.Prelude.{
  ℕ, zero, suc, ◌*◌, ◌%◌, ◌≤◌, ◌<◌, ◌^◌, ◌≡◌, ◌≢◌, ◌↔◌, inl, inr, ◌∙◌, sym, arith, Bool, true, ◌&&◌,
  none, ◌==◌, ltb, Bool-cases, Option-cases, first, first-none, first-some,
}
use mathlib.Core.Bool.{false≢true}
use moonlight_os.Types.{ok, max_partitions}
use moonlight_os.Sched.{
  SchedState, share, utilization, is_schedulable, context_bind, max_sched_contexts,
}

abbrev overloaded : SchedState → ℕ → Bool
overloaded s p = ltb 99 (utilization s p max_sched_contexts)

passes-first :
    (s : SchedState) → is_schedulable s ≡ true → first (overloaded s) s.num_partitions 0 ≡ none
unfolding is_schedulable
passes-first s e = ground arith

passes_not :
    (s : SchedState) (p : ℕ)
    → p < s.num_partitions
    → overloaded s p ≡ true
    → is_schedulable s ≢ true
passes_not s p h over e = false≢true (
    sym (
      first-none (overloaded s) s.num_partitions 0 (passes-first s e) p (omega arith) (omega arith))
    ∙ over)

none_overloaded :
    (s : SchedState)
    → ((p : ℕ) → p < s.num_partitions → utilization s p max_sched_contexts ≤ 99)
    → is_schedulable s ≡ true
unfolding is_schedulable
none_overloaded s all = elim (Option-cases (first (overloaded s) s.num_partitions 0)) [
  | inl fine ↦ rw (fine, is_schedulable)
  | inr (p, found) ↦
      let f = first-some (overloaded s) s.num_partitions 0 p found in
      absurd (clash p f.hit (all p (omega (arith, f.high))))
]
  where
    clash : (p : ℕ) → overloaded s p ≡ true → utilization s p max_sched_contexts ≤ 99 → ⊥
    clash p hit low = ground arith

-- The test passes exactly when no partition below the count uses more than 99 percent.
pub is_schedulable_iff :
    (s : SchedState)
    → (is_schedulable s ≡ true)
      ↔ ((p : ℕ) → p < s.num_partitions → utilization s p max_sched_contexts ≤ 99)
is_schedulable_iff s = (
  λ e. λ p h. elim (Bool-cases (overloaded s p)) [
    | inl over ↦ absurd (passes_not s p h over e)
    | inr fine ↦ ground arith
  ],
  λ all. none_overloaded s all,
)

-- The guards of a binding, and what it writes.
pub record IsBound (s : SchedState) (sc tcb part budget period prio : ℕ) (s' : SchedState)
    : Type 0 where
  pub index : sc < max_sched_contexts
  pub partition : (part < max_partitions) × ((s.partitions part).active ≡ true)
  pub demand : (0 < budget) × (budget ≤ period)
  pub window : budget ≤ (s.partitions part).budget_us
  pub context :
      let c = s'.contexts sc in
      (c.bound ≡ true)
      × (c.tcb_id ≡ tcb)
      × (c.partition_id ≡ part)
      × (c.budget_us ≡ budget)
      × (c.period_us ≡ period)
      × (c.priority ≡ prio)
      × (c.remaining_us ≡ budget)
      × (c.deadline ≡ period)
  pub others : (i : ℕ) → sc ≢ i → s'.contexts i ≡ s.contexts i
  pub windows :
      (s'.partitions ≡ s.partitions)
      × (s'.num_partitions ≡ s.num_partitions)
      × (s'.current_partition ≡ s.current_partition)

context_bind-guards :
    (s s' : SchedState) (sc tcb part budget period prio : ℕ)
    → context_bind s sc tcb part budget period prio ≡ (ok, s')
    → (sc < max_sched_contexts)
      × (part < max_partitions)
      × ((s.partitions part).active ≡ true)
      × (0 < budget)
      × (budget ≤ period)
      × (budget ≤ (s.partitions part).budget_us)
unfolding context_bind
context_bind-guards s s' sc tcb part budget period prio e = ground arith

context_bind-others :
    (s s' : SchedState) (sc tcb part budget period prio i : ℕ)
    → sc ≢ i
    → context_bind s sc tcb part budget period prio ≡ (ok, s')
    → s'.contexts i ≡ s.contexts i
unfolding context_bind
context_bind-others s s' sc tcb part budget period prio i ne e = ground arith

-- A binding that returns ERR_OK passed all guards, filled its context from its arguments with a full
-- budget, and changed no other context and no partition.
pub context_bind-IsBound :
    (s s' : SchedState) (sc tcb part budget period prio : ℕ)
    → context_bind s sc tcb part budget period prio ≡ (ok, s')
    → IsBound s sc tcb part budget period prio s'
unfolding context_bind
context_bind-IsBound s s' sc tcb part budget period prio e =
    let (index, below, active, positive, demand, window) =
      context_bind-guards s s' sc tcb part budget period prio e in
    record {
      index = index;
      partition = (below, active);
      demand = (positive, demand);
      window = window;
      context = ground arith;
      others = λ i ne. context_bind-others s s' sc tcb part budget period prio i ne e;
      windows = ground arith;
    }

utilization-le :
    (s : SchedState) (p n : ℕ)
    → n ≤ max_sched_contexts
    → ((i : ℕ) → i < n → share s p i ≤ 1)
    → utilization s p n ≤ n
unfolding utilization
utilization-le s p zero small each = omega arith
utilization-le s p (suc n) small each =
    omega (
      arith,
      utilization-le s p n (omega arith) (λ i h. each i (omega arith)),
      each n (omega arith),
    )

share-le-one :
    (s : SchedState) (p i b t : ℕ)
    → (s.contexts i).budget_us ≡ b
    → (s.contexts i).period_us ≡ t
    → 100 * b < 2 * t
    → t < 2 ^ 50
    → share s p i ≤ 1
share-le-one s p i b t eb et light small =
    elim (Bool-cases ((s.contexts i).bound && ((s.contexts i).partition_id == p))) [
      | inl counted ↦
          let exact : b * 100 % 2 ^ 64 ≡ b * 100 = omega arith in
          rw (counted, eb, et, exact) (grind arith)
      | inr skipped ↦ rw skipped (omega arith)
    ]

-- The shares are rounded down one by one, so the test passes a partition that is overloaded: if all 64
-- contexts demand less than two percent each, it passes, though together they may demand more than the
-- whole processor.
pub is_schedulable-overload :
    (s : SchedState) (b t : ℕ)
    → ((i : ℕ)
        → i < max_sched_contexts
        → ((s.contexts i).budget_us ≡ b) × ((s.contexts i).period_us ≡ t))
    → 100 * b < 2 * t
    → t < 2 ^ 50
    → t < max_sched_contexts * b
    → is_schedulable s ≡ true
is_schedulable-overload s b t each light small over = (is_schedulable_iff s).1 (λ p h. omega (
  arith,
  utilization-le s p max_sched_contexts (omega arith)
      (λ i hi. share-le-one s p i b t (each i hi).0 (each i hi).1 light small),
))
