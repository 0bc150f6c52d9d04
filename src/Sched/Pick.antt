-- ===== src/Sched/Pick.antt =====
-- Which thread the scheduler picks (kernel/src/sched.c).
use moonlight_os.Prelude.{
  ℕ, zero, suc, ◌+◌, ◌≤◌, ◌<◌, ◌≡◌, ◌⊎◌, inl, inr, refl, ◌∙◌, sym, arith, Bool, true, Option, none,
  some, Array, Option-cases, first, first-none, first-some, IsFirst,
}
use mathlib.Core.Bool.{false≢true}
use mathlib.Core.Path.{subst}
use native.Mathlib.Decide.{dec_lt}
use moonlight_os.Tcb.{Tcb, runnable, max_tcbs}
use moonlight_os.Sched.{SchedState, competes, stops, pick_from, pick_next, idle, max_sched_contexts}

-- A context that may run now: bound, of the current partition, with budget left and a runnable thread.
pub record IsReady (s : SchedState) (threads : Array Tcb) (i : ℕ) : Type 0 where
  pub index : i < max_sched_contexts
  pub bound : (s.contexts i).bound ≡ true
  pub partition : (s.contexts i).partition_id ≡ s.current_partition
  pub budget : 0 < (s.contexts i).remaining_us
  pub runs : (threads (s.contexts i).tcb_id).state ≡ runnable

-- Every bound context names a thread of the table.
abbrev pub InTable : SchedState → Type 0
InTable s = (i : ℕ) → (s.contexts i).bound ≡ true → (s.contexts i).tcb_id < max_tcbs

stops-IsReady :
    (s : SchedState) (threads : Array Tcb) (prio i : ℕ)
    → InTable s
    → i < max_sched_contexts
    → stops s threads prio i ≡ true
    → IsReady s threads i × ((s.contexts i).priority ≡ prio) × ((s.contexts i).tcb_id < max_tcbs)
stops-IsReady s threads prio i table h e = ground (arith, table i)

IsReady-stops :
    (s : SchedState) (threads : Array Tcb) (i : ℕ)
    → IsReady s threads i
    → stops s threads (s.contexts i).priority i ≡ true
IsReady-stops s threads i r = ground arith

-- The ready context that is served: the least number of a priority, then the least index.
pub record IsBest (s : SchedState) (threads : Array Tcb) (i : ℕ) : Type 0 where
  pub ready : IsReady s threads i
  pub best :
      (k : ℕ)
      → IsReady s threads k
      → ((s.contexts i).priority < (s.contexts k).priority)
        ⊎ (((s.contexts i).priority ≡ (s.contexts k).priority) × (i ≤ k))

-- What a pick may be: the best ready context's thread, or idle with no ready context below the limit.
abbrev pub Picked : SchedState → Array Tcb → ℕ → Option ℕ → Type 0
Picked s threads limit r =
    ((i : ℕ) × IsBest s threads i × (r ≡ some (s.contexts i).tcb_id))
    ⊎ ((r ≡ some idle) × ((k : ℕ) → IsReady s threads k → limit ≤ (s.contexts k).priority))

Picked-limit :
    (s : SchedState) (threads : Array Tcb) (a b : ℕ) (r : Option ℕ)
    → a ≡ b
    → Picked s threads a r
    → Picked s threads b r
Picked-limit s threads a b r e p = rw (← e) p

found-IsBest :
    (s : SchedState) (threads : Array Tcb) (prio i : ℕ)
    → InTable s
    → ((k : ℕ) → IsReady s threads k → prio ≤ (s.contexts k).priority)
    → IsFirst (stops s threads prio) 0 max_sched_contexts i
    → IsBest s threads i
found-IsBest s threads prio i table low f =
    let (ready, at, _) = stops-IsReady s threads prio i table (omega (arith, f.high)) f.hit in
    record {
      ready = ready;
      best = λ k rk. elim (dec_lt prio (s.contexts k).priority) [
        | yes more ↦ inl (omega arith)
        | no same ↦
            let equal : (s.contexts k).priority ≡ prio = omega (arith, low k rk) in
            inr (omega arith, not_before k rk equal)
      ];
    }
  where
    not_before : (k : ℕ) → IsReady s threads k → (s.contexts k).priority ≡ prio → i ≤ k
    not_before k rk equal = elim (dec_lt k i) [
      | yes earlier ↦ absurd (
          false≢true (
            sym (f.before k (omega arith) earlier)
            ∙ subst (λ (q : ℕ). stops s threads q k ≡ true) equal (IsReady-stops s threads k rk)))
      | no later ↦ omega arith
    ]

next_priority :
    (s : SchedState) (threads : Array Tcb) (prio k : ℕ)
    → ((j : ℕ) → IsReady s threads j → prio ≤ (s.contexts j).priority)
    → first (stops s threads prio) max_sched_contexts 0 ≡ none
    → IsReady s threads k
    → prio + 1 ≤ (s.contexts k).priority
next_priority s threads prio k low absent rk = elim (dec_lt prio (s.contexts k).priority) [
  | yes more ↦ omega arith
  | no same ↦
      let equal : (s.contexts k).priority ≡ prio = omega (arith, low k rk) in
      absurd (
        false≢true (
          sym (
            first-none (stops s threads prio) max_sched_contexts 0 absent k (omega arith)
              (omega (arith, rk.index)))
          ∙ subst (λ (q : ℕ). stops s threads q k ≡ true) equal (IsReady-stops s threads k rk)))
]

pick_from-Picked :
    (s : SchedState) (threads : Array Tcb) (n prio : ℕ)
    → InTable s
    → ((k : ℕ) → IsReady s threads k → prio ≤ (s.contexts k).priority)
    → Picked s threads (prio + n) (pick_from s threads n prio)
unfolding pick_from
pick_from-Picked s threads zero prio table low = inr (refl, λ k rk. omega (arith, low k rk))
pick_from-Picked s threads (suc n) prio table low =
    elim (Option-cases (first (stops s threads prio) max_sched_contexts 0)) [
      | inl absent ↦
          rw (absent, pick_from)
            (Picked-limit s threads (prio + 1 + n) (prio + suc n) _ (omega arith) (
              pick_from-Picked s threads n (prio + 1) table
                (λ k rk. next_priority s threads prio k low absent rk)))
      | inr (i, found) ↦
          let f = first-some (stops s threads prio) max_sched_contexts 0 i found in
          let (_, _, bound) = stops-IsReady s threads prio i table (omega (arith, f.high)) f.hit in
          inl (i, found-IsBest s threads prio i table low f, rw (found, pick_from) (ground arith))
    ]

-- The scheduler picks the thread of the ready context with the least priority number, among equals that with the
-- least index, whatever their deadlines, and idles exactly when no context is ready, if every bound context names
-- a thread of the table and every priority is a byte. It then makes no access out of bounds.
pub pick_next-IsBest :
    (s : SchedState) (threads : Array Tcb)
    → InTable s
    → ((k : ℕ) → (s.contexts k).priority < 256)
    → ((i : ℕ) × IsBest s threads i × (pick_next s threads ≡ some (s.contexts i).tcb_id))
      ⊎ ((pick_next s threads ≡ some idle) × ((k : ℕ) → ¬ IsReady s threads k))
unfolding pick_next
pick_next-IsBest s threads table bytes =
    elim (pick_from-Picked s threads 256 0 table (λ k rk. omega arith)) [
      | inl best ↦ inl best
      | inr (resting, high) ↦ inr (resting, λ k rk. absurd (omega (arith, high k rk, bytes k)))
    ]

first_at_zero : (p : ℕ → Bool) → p 0 ≡ true → first p max_sched_contexts 0 ≡ some 0
unfolding first
first_at_zero p hit = rw hit

-- A thread number that is not in the table, which a binding does not refuse, makes the scheduler read
-- out of bounds: here the first context competes at priority 0.
pub pick_next-out :
    (s : SchedState) (threads : Array Tcb)
    → competes s 0 0 ≡ true
    → max_tcbs ≤ (s.contexts 0).tcb_id
    → pick_next s threads ≡ none
unfolding pick_next pick_from
pick_next-out s threads c out =
    rw (first_at_zero (stops s threads 0) (ground arith), pick_next, pick_from) (ground arith)
