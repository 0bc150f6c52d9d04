-- ===== src/Process/Demand.antt =====
-- What a refused process leaves of the demand on the partitions (kernel/src/process.c over kernel/src/sched.c).
use native.Mathlib.Decide.{ℕ_discrete}
use moonlight_os.Prelude.{ℕ, zero, suc, ◌≡◌, ◌≢◌, ◌∙◌, refl, sym, arith, Bool, true, false}
use moonlight_os.Sched.{
  SchedState, max_sched_contexts, share, utilization, context_bind, is_schedulable,
}
use moonlight_os.Sched.Schedulable.{is_schedulable_iff}
use moonlight_os.Process.{unbind}

abbrev pub bound_at : SchedState → ℕ → Bool
bound_at s i = (s.contexts i).bound

-- The same contexts are bound, with the same shares of the same partitions, whose windows are as before.
pub record KeepsDemand (s s' : SchedState) : Type 0 where
  pub bound : (i : ℕ) → bound_at s' i ≡ bound_at s i
  pub shares : (p i : ℕ) → share s' p i ≡ share s p i
  pub count : s'.num_partitions ≡ s.num_partitions
  pub windows :
      (s'.partitions ≡ s.partitions)
      × (s'.major_frame_start ≡ s.major_frame_start)
      × (s'.current_partition ≡ s.current_partition)

pub demand_kept : (s : SchedState) → KeepsDemand s s
demand_kept s = record {
  bound = λ i. refl;
  shares = λ p i. refl;
  count = refl;
  windows = (refl, refl, refl);
}

-- Unbinding the context that was bound restores which contexts are bound.
bind-undone :
    (s : SchedState) (sc id part budget period prio i : ℕ)
    → bound_at s sc ≡ false
    → bound_at (unbind (context_bind s sc id part budget period prio).1 sc) i ≡ bound_at s i
unfolding context_bind
bind-undone s sc id part budget period prio i free = ground arith

bind-others :
    (s : SchedState) (sc id part budget period prio i : ℕ)
    → sc ≢ i
    → (unbind (context_bind s sc id part budget period prio).1 sc).contexts i ≡ s.contexts i
unfolding context_bind
bind-others s sc id part budget period prio i ne = ground arith

unbound-share : (s : SchedState) (p i : ℕ) → bound_at s i ≡ false → share s p i ≡ 0
unbound-share s p i free = rw free refl

same-share :
    (s s' : SchedState) (p i : ℕ) → s'.contexts i ≡ s.contexts i → share s' p i ≡ share s p i
same-share s s' p i e = rw e refl

pub bind-KeepsDemand :
    (s : SchedState) (sc id part budget period prio : ℕ)
    → bound_at s sc ≡ false
    → KeepsDemand s (unbind (context_bind s sc id part budget period prio).1 sc)
unfolding context_bind
bind-KeepsDemand s sc id part budget period prio free =
    let s' = unbind (context_bind s sc id part budget period prio).1 sc in
    let undone = λ (i : ℕ). bind-undone s sc id part budget period prio i free in
    record {
      bound = undone;
      shares = λ p i. elim (ℕ_discrete sc i) [
        | yes here ↦
            rw (← here) (unbound-share s' p sc (undone sc ∙ free) ∙ sym (unbound-share s p sc free))
        | no other ↦ same-share s s' p i (bind-others s sc id part budget period prio i other)
      ];
      count = ground arith;
      windows = (ground arith, ground arith, ground arith);
    }

same-utilization :
    (s s' : SchedState) (p n : ℕ) → KeepsDemand s s' → utilization s' p n ≡ utilization s p n
unfolding utilization
same-utilization s s' p zero k = refl
same-utilization s s' p (suc n) k =
    let before = same-utilization s s' p n k in let last = k.shares p n in cc

-- The test of the scheduler passes with the same demand.
pub KeepsDemand-is_schedulable :
    (s s' : SchedState) → KeepsDemand s s' → is_schedulable s ≡ true → is_schedulable s' ≡ true
KeepsDemand-is_schedulable s s' k e = (is_schedulable_iff s').1 (λ p h.
    let low = (is_schedulable_iff s).0 e p (omega (arith, k.count)) in
    omega (arith, same-utilization s s' p max_sched_contexts k))
