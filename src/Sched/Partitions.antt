-- ===== src/Sched/Partitions.antt =====
-- The windows of the time partitions (kernel/src/sched.c): disjoint, and in the major frame.
use moonlight_os.Prelude.{
  ℕ, ◌+◌, ◌≤◌, ◌<◌, ◌^◌, ◌≡◌, ◌≢◌, ◌⊎◌, inl, inr, refl, ◌∙◌, sym, arith, true, false, none, add64,
  first, first-none,
}
use native.Mathlib.Decide.{ℕ_discrete, dec_lt}
use moonlight_os.Types.{ok, is_ok, ok-cases, max_partitions}
use moonlight_os.Sched.{SchedState, TimePartition, overlaps, partition_create, init, major_frame_us}

-- Two windows do not meet.
abbrev pub Apart : TimePartition → TimePartition → Type 0
Apart p q = (p.offset_us + p.budget_us ≤ q.offset_us) ⊎ (q.offset_us + q.budget_us ≤ p.offset_us)

Apart-sym : (p q : TimePartition) → Apart p q → Apart q p
Apart-sym p q (inl h) = inr h
Apart-sym p q (inr h) = inl h

pub record Windows (s : SchedState) : Type 0 where
  pub few : s.num_partitions ≤ max_partitions
  pub inside : (i : ℕ) → (s.partitions i).offset_us + (s.partitions i).budget_us ≤ major_frame_us
  pub unused :
      (i : ℕ)
      → s.num_partitions ≤ i
      → ((s.partitions i).offset_us ≡ 0) × ((s.partitions i).budget_us ≡ 0)
  pub apart : (i j : ℕ) → i ≢ j → Apart (s.partitions i) (s.partitions j)

pub init-Windows : Windows init
unfolding init
init-Windows = record {
  few = omega arith;
  inside = λ i. omega arith;
  unused = λ i h. (refl, refl);
  apart = λ i j ne. inl (omega arith);
}

-- A partition that was created: what the guards established, and the state.
record Created (s : SchedState) (id offset budget : ℕ) (s' : SchedState) : Type 0 where
  id_lt : id < max_partitions
  frame : add64 offset budget ≤ major_frame_us
  clear : first (λ i. overlaps (s.partitions i) offset budget) s.num_partitions 0 ≡ none
  grown : (s.num_partitions ≤ s'.num_partitions) × (id < s'.num_partitions)
  few : s.num_partitions ≤ max_partitions → s'.num_partitions ≤ max_partitions
  offset_us : (s'.partitions id).offset_us ≡ offset
  budget_us : (s'.partitions id).budget_us ≡ budget

create-Created :
    (s s' : SchedState) (id offset budget crit : ℕ)
    → partition_create s id offset budget crit ≡ (ok, s')
    → Created s id offset budget s'
unfolding partition_create
create-Created s s' id offset budget crit e = ground arith

create-others :
    (s s' : SchedState) (id offset budget crit i : ℕ)
    → id ≢ i
    → partition_create s id offset budget crit ≡ (ok, s')
    → s'.partitions i ≡ s.partitions i
unfolding partition_create
create-others s s' id offset budget crit i ne e = ground arith

no_overlap :
    (p : TimePartition) (offset budget : ℕ)
    → offset + budget < 2 ^ 64
    → p.offset_us + p.budget_us ≤ major_frame_us
    → overlaps p offset budget ≡ false
    → (offset + budget ≤ p.offset_us) ⊎ (p.offset_us + p.budget_us ≤ offset)
no_overlap p offset budget nowrap inside e = ground arith

-- The new window is apart from each old one.
new_apart :
    (s s' : SchedState) (id offset budget i : ℕ)
    → offset + budget < 2 ^ 64
    → Windows s
    → Created s id offset budget s'
    → (offset + budget ≤ (s.partitions i).offset_us)
      ⊎ ((s.partitions i).offset_us + (s.partitions i).budget_us ≤ offset)
new_apart s s' id offset budget i nowrap w c = elim (dec_lt i s.num_partitions) [
  | yes used ↦ no_overlap (s.partitions i) offset budget nowrap (w.inside i) (
      first-none (λ i. overlaps (s.partitions i) offset budget) s.num_partitions 0 c.clear i
        (omega arith) (omega arith))
  | no free ↦ inr (omega (arith, w.unused i (omega arith)))
]

create-err :
    (s : SchedState) (id offset budget crit : ℕ)
    → is_ok (partition_create s id offset budget crit).0 ≡ false
    → (partition_create s id offset budget crit).1 ≡ s
unfolding partition_create
create-err s id offset budget crit e = ground arith

-- Any two windows are apart again: the new one from an old one, or two old ones.
Apart-after :
    (s s' : SchedState) (id offset budget i j : ℕ)
    → offset + budget < 2 ^ 64
    → Windows s
    → Created s id offset budget s'
    → ((k : ℕ) → id ≢ k → s'.partitions k ≡ s.partitions k)
    → i ≢ j
    → Apart (s'.partitions i) (s'.partitions j)
Apart-after s s' id offset budget i j nowrap w c old ne = elim (ℕ_discrete id i) [
  | yes here ↦ let there : id ≢ j = λ e. ne (sym here ∙ e) in rw (← here, old j there) (new_from j)
  | no other ↦ elim (ℕ_discrete id j) [
    | yes here ↦
        rw (← here, old i other) (Apart-sym (s'.partitions id) (s.partitions i) (new_from i))
    | no there ↦ rw (old i other, old j there) (w.apart i j ne)
  ]
]
  where
    new_from : (k : ℕ) → Apart (s'.partitions id) (s.partitions k)
    new_from k = rw (c.offset_us, c.budget_us) (new_apart s s' id offset budget k nowrap w c)

create-Windows_ok :
    (s s' : SchedState) (id offset budget crit : ℕ)
    → offset + budget < 2 ^ 64
    → Windows s
    → partition_create s id offset budget crit ≡ (ok, s')
    → Windows s'
create-Windows_ok s s' id offset budget crit nowrap w e =
    let c = create-Created s s' id offset budget crit e in
    let old = λ (i : ℕ) (ne : id ≢ i). create-others s s' id offset budget crit i ne e in
    record {
      few = c.few w.few;
      inside = λ i. elim (ℕ_discrete id i) [
        | yes here ↦ rw (← here) (omega (arith, c.offset_us, c.budget_us, c.frame))
        | no other ↦ rw (old i other) (w.inside i)
      ];
      unused = λ i h. elim (ℕ_discrete id i) [
        | yes here ↦ absurd (omega (arith, c.grown.1))
        | no other ↦ rw (old i other) (w.unused i (omega (arith, c.grown.0)))
      ];
      apart = λ i j ne. Apart-after s s' id offset budget i j nowrap w c old ne;
    }

-- A partition is created only with a window in the major frame that meets no other, and any call leaves
-- the windows disjoint and in the frame, if `offset + budget` does not wrap.
pub partition_create-Windows :
    (s : SchedState) (id offset budget crit : ℕ)
    → offset + budget < 2 ^ 64
    → Windows s
    → Windows (partition_create s id offset budget crit).1
partition_create-Windows s id offset budget crit nowrap w =
    elim (ok-cases (partition_create s id offset budget crit)) [
      | inl good ↦ create-Windows_ok s _ id offset budget crit nowrap w good
      | inr bad ↦ rw (create-err s id offset budget crit bad) w
    ]

-- A window whose end wraps by at most the length of the major frame, with a budget below 2^63, is accepted as
-- the first partition, though it starts outside the frame.
pub partition_create-wraps :
    (s : SchedState) (id offset budget crit : ℕ)
    → s.num_partitions ≡ 0
    → id < max_partitions
    → 2 ^ 64 ≤ offset + budget
    → offset + budget ≤ 2 ^ 64 + major_frame_us
    → budget < 2 ^ 63
    → (is_ok (partition_create s id offset budget crit).0 ≡ true)
      × (major_frame_us < ((partition_create s id offset budget crit).1.partitions id).offset_us)
unfolding partition_create first
partition_create-wraps s id offset budget crit empty h wraps frame small = rw empty (ground arith)
