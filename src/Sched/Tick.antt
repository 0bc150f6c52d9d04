-- ===== src/Sched/Tick.antt =====
-- What a scheduler tick does (kernel/src/sched.c).
use moonlight_os.Prelude.{
  ℕ, ◌+◌, ◌≤◌, ◌<◌, ◌≡◌, ◌⊎◌, inl, inr, refl, ◌∙◌, sym, arith, Bool, true, false, none, some, ◌==◌,
  ◌!=◌, add64, if◌then◌else◌, Option-cases, first, first-none, first-some, update_all_lem,
}
use mathlib.Core.Bool.{false≢true}
use native.Mathlib.Decide.{ℕ_discrete}
use moonlight_os.Sched.{
  SchedState, TimePartition, in_window, window_at, replenish, frame_offset, tick, major_frame_us,
  max_sched_contexts,
}
use moonlight_os.Sched.Partitions.{Windows, Apart}

-- The window of a partition holds an offset.
abbrev pub Holds : TimePartition → ℕ → Type 0
Holds p at = (p.offset_us ≤ at) × (at < p.offset_us + p.budget_us)

in_window-Holds :
    (p : TimePartition) (at : ℕ)
    → p.offset_us + p.budget_us ≤ major_frame_us
    → in_window p at ≡ true
    → Holds p at
in_window-Holds p at inside e = ground arith

Holds-in_window :
    (p : TimePartition) (at : ℕ)
    → p.offset_us + p.budget_us ≤ major_frame_us
    → Holds p at
    → in_window p at ≡ true
Holds-in_window p at inside h = ground arith

-- No offset lies in two windows.
window_unique :
    (s : SchedState) (i j at : ℕ)
    → Windows s
    → Holds (s.partitions i) at
    → Holds (s.partitions j) at
    → i ≡ j
window_unique s i j at w hi hj = elim (ℕ_discrete i j) [
  | yes e ↦ e
  | no ne ↦ absurd (clash (w.apart i j ne))
]
  where
    clash : Apart (s.partitions i) (s.partitions j) → ⊥
    clash (inl h) = omega arith
    clash (inr h) = omega arith

abbrev in_at : SchedState → ℕ → ℕ → Bool
in_at s at i = in_window (s.partitions i) at

-- The partition whose window holds the offset is chosen; with no such window the current one stays.
window_at_lem :
    (s : SchedState) (p at : ℕ)
    → Windows s
    → p < s.num_partitions
    → Holds (s.partitions p) at
    → window_at s at ≡ p
unfolding window_at
window_at_lem s p at w h holds =
    elim (Option-cases (first (λ i. in_window (s.partitions i) at) s.num_partitions 0)) [
      | inl no_window ↦ absurd (
          false≢true (
            sym (first-none (in_at s at) s.num_partitions 0 no_window p (omega arith) (omega arith))
            ∙ Holds-in_window (s.partitions p) at (w.inside p) holds))
      | inr (i, found) ↦
          let f = first-some (in_at s at) s.num_partitions 0 i found in
          rw (found, window_at)
            (window_unique s i p at w (in_window-Holds (s.partitions i) at (w.inside i) f.hit)
              holds)
    ]

window_at-none :
    (s : SchedState) (at : ℕ)
    → Windows s
    → ((p : ℕ) → p < s.num_partitions → ¬ Holds (s.partitions p) at)
    → window_at s at ≡ s.current_partition
unfolding window_at
window_at-none s at w none_holds = elim (Option-cases (first (in_at s at) s.num_partitions 0)) [
  | inl no_window ↦ rw (no_window, window_at)
  | inr (i, found) ↦
      let f = first-some (in_at s at) s.num_partitions 0 i found in
      absurd (
        none_holds i (omega (arith, f.high))
          (in_window-Holds (s.partitions i) at (w.inside i) f.hit))
]

-- In a scheduler whose windows lie in the major frame and do not meet, with no more partitions than the table has
-- and empty windows beyond their number: at a tick whose offset in the major frame lies in the window of a
-- partition, that partition runs. The state of the partition that ran before is flushed if it was another one,
-- and only then.
pub tick_switch :
    (s : SchedState) (now p : ℕ)
    → Windows s
    → p < s.num_partitions
    → Holds (s.partitions p) (frame_offset s now)
    → ((tick s now).0.current_partition ≡ p)
      × ((tick s now).1 ≡ (if p == s.current_partition then none else some s.current_partition))
unfolding tick
tick_switch s now p w h holds =
    rw (window_at_lem s p (frame_offset s now) w h holds) (refl, flush_test p s.current_partition)
  where
    flush_test : (p q : ℕ) → (if p != q then some q else none) ≡ (if p == q then none else some q)
    flush_test p q = ground arith

-- In a gap between the windows the current partition goes on, without a flush.
pub tick_gap :
    (s : SchedState) (now : ℕ)
    → Windows s
    → ((p : ℕ) → p < s.num_partitions → ¬ Holds (s.partitions p) (frame_offset s now))
    → ((tick s now).0.current_partition ≡ s.current_partition) × ((tick s now).1 ≡ none)
unfolding tick
tick_gap s now w gap = rw (window_at-none s (frame_offset s now) w gap) (refl, ground arith)

-- A tick leaves the windows as they are.
pub tick-Windows : (s : SchedState) (now : ℕ) → Windows s → Windows (tick s now).0
unfolding tick
tick-Windows s now w = record { few = w.few; inside = w.inside; unused = w.unused; apart = w.apart }

-- What a tick does to a context: one that is bound and has reached its deadline has its whole budget again
-- and its next deadline one period later, and every other one is as it was.
pub tick-contexts :
    (s : SchedState) (now i : ℕ)
    → i < max_sched_contexts
    → let c = s.contexts i in
      let c' = (tick s now).0.contexts i in
      ((c.bound ≡ true)
        × (c.deadline ≤ now)
        × (c'.remaining_us ≡ c.budget_us)
        × (c'.deadline ≡ add64 c.deadline c.period_us)
        × (c'.consumed_this_period ≡ 0))
      ⊎ (((c.bound ≡ false) ⊎ (now < c.deadline)) × (c' ≡ c))
unfolding tick replenish
tick-contexts s now i h =
    rw (update_all_lem max_sched_contexts (replenish now) s.contexts i) (ground arith)
