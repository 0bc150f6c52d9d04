-- ===== src/Servers/Policy/Sums.antt =====
-- The sum with early returns of userspace/sched_server/server.c is the plain sum of the shares.
use moonlight_os.Prelude.{
  ℕ, zero, suc, ◌+◌, ◌*◌, ◌/◌, ◌%◌, ◌^◌, ◌≤◌, ◌<◌, ◌≡◌, ◌≢◌, inl, inr, refl, arith, false, ◌==◌,
  leb, if◌then◌else◌, Bool-cases, some, Array, ne→==, leb→le, lt→leb,
}
use native.Mathlib.Nat.{div-le_self}
use moonlight_os.Servers.Policy.{
  TaskCfg, PolicyServer, Sum, over, sum, add_share, and_then, sum_tasks, verdict, is_schedulable,
}

-- `budget * 100 / period` of a task of the partition, else 0.
abbrev pub exact_share : ℕ → TaskCfg → ℕ
exact_share part t = if t.partition == part then t.budget * 100 / t.period else 0

unfoldable pub demand : Array TaskCfg → ℕ → ℕ → ℕ
demand tasks part zero = 0
demand tasks part (suc n) = demand tasks part n + exact_share part (tasks n)

-- A task whose share does not wrap.
abbrev pub IsSmall : TaskCfg → Type 0
IsSmall t = (t.period ≢ 0) × (t.budget < 2 ^ 57)

abbrev settle : ℕ → Sum
settle v = if leb v 99 then sum v else over

add_share-settle :
    (part u : ℕ) (t : TaskCfg)
    → u ≤ 99
    → IsSmall t
    → add_share part t u ≡ settle (u + exact_share part t)
unfolding add_share
add_share-settle part u t low small =
    let exact : t.budget * 100 % 2 ^ 64 ≡ t.budget * 100 = omega (arith, small.1) in
    let bound = div-le_self (t.budget * 100) t.period in
    elim (Bool-cases (t.partition == part)) [
      | inl here ↦ rw (here, ne→== t.period 0 small.0, exact) (ground arith)
      | inr away ↦ rw away (ground arith)
    ]

settle-share :
    (part v : ℕ) (t : TaskCfg)
    → IsSmall t
    → and_then (settle v) (add_share part t) ≡ settle (v + exact_share part t)
settle-share part v t small = elim (Bool-cases (leb v 99)) [
  | inl low ↦ rw low (add_share-settle part v t (leb→le _ _ low) small)
  | inr high ↦
      let past : leb (v + exact_share part t) 99 ≡ false =
        lt→leb 99 (v + exact_share part t) (ground arith) in
      rw (high, past) refl
]

sum_tasks-demand :
    (tasks : Array TaskCfg) (part n : ℕ)
    → ((i : ℕ) → i < n → IsSmall (tasks i))
    → sum_tasks tasks part n ≡ settle (demand tasks part n)
unfolding sum_tasks demand
sum_tasks-demand tasks part zero small = refl
sum_tasks-demand tasks part (suc n) small =
    rw (sum_tasks-demand tasks part n (λ i h. small i (omega arith)))
      (settle-share part (demand tasks part n) (tasks n) (small n (omega arith)))

verdict-settle : (v : ℕ) → verdict (settle v) ≡ some (leb v 99)
verdict-settle v = elim (Bool-cases (leb v 99)) [
  | inl low ↦ rw low (rw low refl)
  | inr high ↦ rw high refl
]

-- Where no period is 0 and no budget reaches 2^57, the test with a new task says whether the sum of all
-- shares of the partition, each rounded down, is at most 99.
pub is_schedulable-demand :
    (s : PolicyServer) (part : ℕ) (t : TaskCfg)
    → ((i : ℕ) → i < s.task_count → IsSmall (s.tasks i))
    → IsSmall t
    → is_schedulable s part (some t)
      ≡ some (leb (demand s.tasks part s.task_count + exact_share part t) 99)
unfolding is_schedulable
is_schedulable-demand s part t small new =
    rw
      (
        sum_tasks-demand s.tasks part s.task_count small,
        settle-share part (demand s.tasks part s.task_count) t new,
      )
      (verdict-settle (demand s.tasks part s.task_count + exact_share part t))
