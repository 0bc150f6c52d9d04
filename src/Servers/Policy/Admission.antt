-- ===== src/Servers/Policy/Admission.antt =====
-- What the server admits stays admissible (userspace/sched_server/server.c).
use native.Mathlib.Decide.{ℕ_discrete}
use moonlight_os.Prelude.{
  ℕ, zero, suc, ◌+◌, ◌≤◌, ◌<◌, ◌≡◌, ◌≢◌, ◌⊎◌, inl, inr, refl, sym, ◌∙◌, ap, arith, Bool, true,
  false, ◌==◌, leb, Bool-cases, Array, set, set_self, set_ne, Option-cases, Option, none, some,
  List, [], ◌∷◌, ne→==, leb→le,
}
use moonlight_os.Servers.Policy.{
  TaskCfg, PolicyServer, Sum, fault, over, sum, add_share, and_then, sum_tasks, verdict,
  is_schedulable, admit, is_admissible_from, is_admissible, max_tasks, task_of, reply_to, handle,
  run, start,
}
use moonlight_os.Types.{IpcMsg}
use mathlib.Core.Path.{subst}

-- The sum over the first tasks reads no other task.
sum_tasks-set :
    (tasks : Array TaskCfg) (part n k : ℕ) (t : TaskCfg)
    → n ≤ k
    → sum_tasks (set tasks k t) part n ≡ sum_tasks tasks part n
unfolding sum_tasks
sum_tasks-set tasks part zero k t h = refl
sum_tasks-set tasks part (suc n) k t h =
    rw (sum_tasks-set tasks part n k t (omega arith), set_ne tasks k n t (omega arith)) refl

abbrev extend : PolicyServer → TaskCfg → PolicyServer
extend s t = record s { tasks = set s.tasks s.task_count t; task_count = s.task_count + 1 }

suc-add : (n : ℕ) → n + 1 ≡ suc n
suc-add n = omega arith

-- The sum over a table with one more task is that of the test with the new task.
sum_tasks-extend :
    (s : PolicyServer) (t : TaskCfg) (part : ℕ)
    → sum_tasks (extend s t).tasks part (extend s t).task_count
      ≡ and_then (sum_tasks s.tasks part s.task_count) (add_share part t)
unfolding sum_tasks
sum_tasks-extend s t part =
    rw
      (
        suc-add s.task_count,
        sum_tasks-set s.tasks part s.task_count s.task_count t (omega arith),
        set_self s.tasks s.task_count t,
      )
      refl

and_then-sum : (r : Sum) → and_then r sum ≡ r
and_then-sum fault = refl
and_then-sum over = refl
and_then-sum (sum total) = refl

add_share-other :
    (part : ℕ) (t : TaskCfg) (r : Sum) → t.partition ≢ part → and_then r (add_share part t) ≡ r
unfolding add_share
add_share-other part t fault h = refl
add_share-other part t over h = refl
add_share-other part t (sum total) h = rw (ne→== t.partition part h) refl

-- With the task in the table, the partition is judged as the test judged it with the task to come.
is_schedulable-extend :
    (s : PolicyServer) (t : TaskCfg) (part : ℕ)
    → is_schedulable (extend s t) part none ≡ is_schedulable s part (some t)
unfolding is_schedulable
is_schedulable-extend s t part =
    rw (sum_tasks-extend s t part) (
      ap verdict (and_then-sum (and_then (sum_tasks s.tasks part s.task_count) (add_share part t))))

is_schedulable-other :
    (s : PolicyServer) (t : TaskCfg) (part : ℕ)
    → t.partition ≢ part
    → is_schedulable s part (some t) ≡ is_schedulable s part none
unfolding is_schedulable
is_schedulable-other s t part ne =
    rw (add_share-other part t (sum_tasks s.tasks part s.task_count) ne)
      (ap verdict (sym (and_then-sum (sum_tasks s.tasks part s.task_count))))

-- Every partition passes the test.
abbrev pub AllSchedulable : PolicyServer → Type 0
AllSchedulable s = (part : ℕ) → is_schedulable s part none ≡ some true

-- An admission that divides by nothing: it was refused and changed nothing, or the task passed the test, is
-- the last of the table, and there was room for it.
abbrev Explains : PolicyServer → TaskCfg → Option (Bool × PolicyServer) → Type 0
Explains s t none = is_schedulable s t.partition (some t) ≡ none
Explains s t (some (false, s')) =
    (s' ≡ s) × ((is_schedulable s t.partition (some t) ≡ some false) ⊎ (max_tasks ≤ s.task_count))
Explains s t (some (true, s')) =
    (s' ≡ extend s t)
    × (is_schedulable s t.partition (some t) ≡ some true)
    × (s.task_count < max_tasks)

admit-Explains : (s : PolicyServer) (t : TaskCfg) → Explains s t (admit s t)
unfolding admit
admit-Explains s t = elim (Option-cases (is_schedulable s t.partition (some t))) [
  | inl out ↦ rw (out, admit) out
  | inr (false, bad) ↦ rw (bad, admit) (refl, inl bad)
  | inr (true, good) ↦
      rw (good, admit)
        (elim (Bool-cases (leb max_tasks s.task_count)) [
          | inl full ↦ rw full (refl, inr (leb→le _ _ full))
          | inr room ↦ rw room (refl, good, ground arith)
        ])
]

extend-AllSchedulable :
    (s : PolicyServer) (t : TaskCfg)
    → is_schedulable s t.partition (some t) ≡ some true
    → AllSchedulable s
    → AllSchedulable (extend s t)
extend-AllSchedulable s t good all part = elim (ℕ_discrete t.partition part) [
  | yes here ↦ is_schedulable-extend s t part ∙ rw (← here) good
  | no other ↦ is_schedulable-extend s t part ∙ is_schedulable-other s t part other ∙ all part
]

abbrev Keeps : Option (Bool × PolicyServer) → Type 0
Keeps none = Unit {0}
Keeps (some (_, s)) = AllSchedulable s

Explains-Keeps :
    (s : PolicyServer) (t : TaskCfg) (r : Option (Bool × PolicyServer))
    → Explains s t r
    → AllSchedulable s
    → Keeps r
Explains-Keeps s t none e all = tt
Explains-Keeps s t (some (false, s')) e all = rw e.0 all
Explains-Keeps s t (some (true, s')) e all = rw e.0 (extend-AllSchedulable s t e.1 all)

-- A test that passed without the new task does not divide by zero with it, unless its period is 0.
verdict-total :
    (r : Sum) (part : ℕ) (t : TaskCfg)
    → t.period ≢ 0
    → verdict (and_then r sum) ≡ some true
    → verdict (and_then r (add_share part t)) ≢ none
unfolding add_share
verdict-total fault part t ne good bad = cc
verdict-total over part t ne good bad = cc
verdict-total (sum total) part t ne good bad = ground arith

is_schedulable-total :
    (s : PolicyServer) (part : ℕ) (t : TaskCfg)
    → t.period ≢ 0
    → AllSchedulable s
    → is_schedulable s part (some t) ≢ none
unfolding is_schedulable
is_schedulable-total s part t ne all =
    verdict-total (sum_tasks s.tasks part s.task_count) part t ne (all part)

-- Every admission request has a period other than 0.
abbrev pub AllPositive : List (IpcMsg × Bool) → Type 0
AllPositive [] = Unit {0}
AllPositive ((msg, junk) ∷ rest) = (msg.label ≡ 1 → msg.words 3 ≢ 0) × AllPositive rest

admit-Keeps :
    (s : PolicyServer) (t : TaskCfg)
    → t.period ≢ 0
    → AllSchedulable s
    → (r : Bool × PolicyServer) × (admit s t ≡ some r) × AllSchedulable r.1
admit-Keeps s t ne all = elim (Option-cases (admit s t)) [
  | inl out ↦ absurd (
      is_schedulable-total s t.partition t ne all
        (subst (λ r. Explains s t r) (out) (admit-Explains s t)))
  | inr (r, e) ↦
      (r, e, Explains-Keeps s t (some r) (subst (λ r. Explains s t r) (e) (admit-Explains s t)) all)
]

handle-Keeps :
    (s : PolicyServer) (msg : IpcMsg) (junk : Bool)
    → (msg.label ≡ 1 → msg.words 3 ≢ 0)
    → AllSchedulable s
    → (r : Option IpcMsg × PolicyServer) × (handle s msg junk ≡ some r) × AllSchedulable r.1
unfolding handle
handle-Keeps s msg junk positive all = elim (Bool-cases (msg.label == 1)) [
  | inl one ↦
      let (r, e, kept) = admit-Keeps s (task_of msg junk) (positive (ground arith)) all in
      (reply_to msg r, rw (one, e) refl, kept)
  | inr ignored ↦ ((none, s), rw ignored refl, all)
]

run-AllSchedulable :
    (s : PolicyServer) (msgs : List (IpcMsg × Bool))
    → AllPositive msgs
    → AllSchedulable s
    → (s' : PolicyServer) × (run s msgs ≡ some s') × AllSchedulable s'
unfolding run
run-AllSchedulable s [] positive all = (s, refl, all)
run-AllSchedulable s ((msg, junk) ∷ rest) (p, positive) all =
    let (r, e, kept) = handle-Keeps s msg junk p all in
    let (s', e', kept') = run-AllSchedulable r.1 rest positive kept in (s', rw (e, run) e', kept')

is_admissible_from-true :
    (s : PolicyServer) (n p : ℕ) → AllSchedulable s → is_admissible_from s n p ≡ some true
unfolding is_admissible_from
is_admissible_from-true s zero p all = refl
is_admissible_from-true s (suc n) p all =
    rw (all p, is_admissible_from) (is_admissible_from-true s n (p + 1) all)

start-AllSchedulable : AllSchedulable start
unfolding is_schedulable sum_tasks
start-AllSchedulable part = refl

-- Over any series of requests in which every admission has a period other than 0, the server never divides by
-- zero, and afterwards every partition passes its test, so `sched_is_admissible` returns true. No bound on
-- the budgets is needed: the sums that wrap are the same in both.
pub run-is_admissible :
    (msgs : List (IpcMsg × Bool))
    → AllPositive msgs
    → (s : PolicyServer) × (run start msgs ≡ some s)
      × AllSchedulable s
      × (is_admissible s ≡ some true)
unfolding is_admissible
run-is_admissible msgs positive =
    let (s, e, all) = run-AllSchedulable start msgs positive start-AllSchedulable in
    (s, e, all, is_admissible_from-true s 8 0 all)
