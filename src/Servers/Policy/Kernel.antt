-- ===== src/Servers/Policy/Kernel.antt =====
-- The policy of userspace/sched_server/server.c and the test of kernel/src/sched.c agree.
use moonlight_os.Prelude.{
  ℕ, zero, suc, ◌*◌, ◌/◌, ◌%◌, ◌^◌, ◌≤◌, ◌<◌, ◌≡◌, inl, inr, refl, ◌∙◌, arith, Bool, true, false,
  ◌==◌, ltb, if◌then◌else◌, Bool-cases, lt→ltb, le→ltb, none, some, add64, List,
}
use native.Mathlib.Decide.{dec_lt}
use mathlib.Core.Path.{subst}
use moonlight_os.Sched
use moonlight_os.Sched.{SchedState, share, utilization, max_sched_contexts}
use moonlight_os.Sched.Schedulable.{is_schedulable_iff}
use moonlight_os.Servers.Policy.{
  TaskCfg, PolicyServer, Sum, fault, over, sum, add_share, and_then, sum_tasks, verdict,
  is_schedulable, run, start,
}
use moonlight_os.Servers.Policy.Admission.{AllSchedulable, AllPositive, run-is_admissible}
use moonlight_os.Types.{IpcMsg}

-- The kernel has bound a context for each admitted task, in the order of the table, and no other.
pub record IsMirror (s : PolicyServer) (k : SchedState) : Type 0 where
  pub small : s.task_count ≤ max_sched_contexts
  pub bound : (i : ℕ) → i < max_sched_contexts → (k.contexts i).bound ≡ ltb i s.task_count
  pub partition : (i : ℕ) → i < s.task_count → (k.contexts i).partition_id ≡ (s.tasks i).partition
  pub budget : (i : ℕ) → i < s.task_count → (k.contexts i).budget_us ≡ (s.tasks i).budget
  pub period : (i : ℕ) → i < s.task_count → (k.contexts i).period_us ≡ (s.tasks i).period

-- The share of one task, as the kernel computes it.
abbrev task_share : TaskCfg → ℕ → ℕ
task_share t p = if t.partition == p then t.budget * 100 % 2 ^ 64 / t.period else 0

share-mirror :
    (s : PolicyServer) (k : SchedState) (p i : ℕ)
    → IsMirror s k
    → i < s.task_count
    → share k p i ≡ task_share (s.tasks i) p
share-mirror s k p i m h =
    let on : (k.contexts i).bound ≡ true =
      m.bound i (omega (arith, m.small)) ∙ lt→ltb i s.task_count h in
    rw (on, m.partition i h, m.budget i h, m.period i h) refl

share-unbound :
    (s : PolicyServer) (k : SchedState) (p i : ℕ)
    → IsMirror s k
    → s.task_count ≤ i
    → i < max_sched_contexts
    → share k p i ≡ 0
share-unbound s k p i m h small =
    let off : (k.contexts i).bound ≡ false = m.bound i small ∙ le→ltb i s.task_count h in
    rw off refl

add_share-sum :
    (p : ℕ) (t : TaskCfg) (u v : ℕ)
    → u ≤ 99
    → add_share p t u ≡ sum v
    → (add64 u (task_share t p) ≡ v) × (v ≤ 99)
unfolding add_share
add_share-sum p t u v low e = elim (Bool-cases (t.partition == p)) [
  | inl here ↦ ground arith
  | inr away ↦ ground arith
]

and_then-sum :
    (r : Sum) (f : ℕ → Sum) (v : ℕ) → and_then r f ≡ sum v → (u : ℕ) × (r ≡ sum u) × (f u ≡ sum v)
and_then-sum fault f v e = cc
and_then-sum over f v e = cc
and_then-sum (sum u) f v e = (u, refl, e)

utilization-below :
    (s : PolicyServer) (k : SchedState) (p n v : ℕ)
    → IsMirror s k
    → n ≤ s.task_count
    → sum_tasks s.tasks p n ≡ sum v
    → (utilization k p n ≡ v) × (v ≤ 99)
unfolding utilization sum_tasks
utilization-below s k p zero v m h e = ground arith
utilization-below s k p (suc n) v m h e =
    let (u, before, last) = and_then-sum (sum_tasks s.tasks p n) (add_share p (s.tasks n)) v e in
    let (same, low) = utilization-below s k p n u m (omega arith) before in
    rw (same, share-mirror s k p n m (omega arith)) (add_share-sum p (s.tasks n) u v low last)

utilization-unbound :
    (s : PolicyServer) (k : SchedState) (p n v : ℕ)
    → IsMirror s k
    → v ≤ 99
    → s.task_count ≤ n
    → n < max_sched_contexts
    → utilization k p n ≡ v
    → utilization k p (suc n) ≡ v
unfolding utilization
utilization-unbound s k p n v m low h small e =
    rw (e, share-unbound s k p n m h small) (omega arith)

utilization-above :
    (s : PolicyServer) (k : SchedState) (p n v : ℕ)
    → IsMirror s k
    → v ≤ 99
    → utilization k p s.task_count ≡ v
    → s.task_count ≤ n
    → n ≤ max_sched_contexts
    → utilization k p n ≡ v
utilization-above s k p zero v m low e h small = subst (λ c. utilization k p c ≡ v) (omega arith) e
utilization-above s k p (suc n) v m low e h small = elim (dec_lt n s.task_count) [
  | yes last ↦ subst (λ c. utilization k p c ≡ v) (omega arith) e
  | no more ↦
      utilization-unbound s k p n v m low (omega arith) (omega arith)
        (utilization-above s k p n v m low e (omega arith) (omega arith))
]

verdict-sum : (r : Sum) → verdict (and_then r sum) ≡ some true → (v : ℕ) × (r ≡ sum v)
verdict-sum fault e = cc
verdict-sum over e = cc
verdict-sum (sum v) e = (v, refl)

sum_tasks-low :
    (s : PolicyServer) (p : ℕ)
    → is_schedulable s p none ≡ some true
    → (v : ℕ) × (sum_tasks s.tasks p s.task_count ≡ sum v)
unfolding is_schedulable
sum_tasks-low s p e = verdict-sum (sum_tasks s.tasks p s.task_count) e

-- If the kernel's contexts are those of the admitted tasks, and every partition passes the server's test, then
-- the kernel's own test passes.
pub AllSchedulable-kernel :
    (s : PolicyServer) (k : SchedState)
    → IsMirror s k
    → AllSchedulable s
    → Sched.is_schedulable k ≡ true
AllSchedulable-kernel s k m all = (is_schedulable_iff k).1 (λ p h.
    let (v, e) = sum_tasks-low s p (all p) in
    let (same, low) = utilization-below s k p s.task_count v m (omega arith) e in
    omega (arith, utilization-above s k p max_sched_contexts v m low same m.small (omega arith)))

-- After any series of requests in which every admission has a period other than 0, a kernel whose contexts
-- are those of the admitted tasks passes its own test of the utilization.
pub run-is_schedulable :
    (msgs : List (IpcMsg × Bool)) (s : PolicyServer) (k : SchedState)
    → AllPositive msgs
    → run start msgs ≡ some s
    → IsMirror s k
    → Sched.is_schedulable k ≡ true
run-is_schedulable msgs s k positive e m =
    let (s', e', all, _) = run-is_admissible msgs positive in
    let same : s' ≡ s = ground arith in
    AllSchedulable-kernel s k m (subst (λ x. AllSchedulable x) (same) all)
