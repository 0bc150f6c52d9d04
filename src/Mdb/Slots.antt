-- ===== src/Mdb/Slots.antt =====
-- Insertion and the slots of the derivation tree that are in use (kernel/src/revoke.c).
use moonlight_os.Prelude.{
  ℕ, zero, suc, ◌+◌, ◌-◌, ◌≤◌, ◌<◌, ◌≡◌, inl, inr, refl, sym, ◌∙◌, arith, Bool, true, false, not,
  none, some, Array, ◌==◌, ltb, ltb→lt, lt→leb, if◌then◌else◌, Bool-cases, Option-cases, count,
  count-le, count-set, first-some, first-none, add32, lt_or_eq,
}
use native.Mathlib.Decide.{ℕ_discrete}
use moonlight_os.Types.{KError, ok, no_mem}
use moonlight_os.Cap.{Cap}
use moonlight_os.Mdb.{Node, MdbTree, max_mdb_nodes, new_node, link, free_slot, insert}

abbrev pub used : MdbTree → ℕ → Bool
used t i = (t.nodes i).valid

-- The counters agree with the nodes: below the hint no node is free, and the count is of the valid ones.
pub record IsTracked (t : MdbTree) : Type 0 where
  pub hint : t.free_head ≤ max_mdb_nodes
  pub below : (i : ℕ) → i < t.free_head → (t.nodes i).valid ≡ true
  pub counted : t.count ≡ count (used t) max_mdb_nodes

-- Linking validates the new node and no other.
link-valid :
    (nodes : Array Node) (parent idx : ℕ) (n : Node) (j : ℕ)
    → (link nodes parent idx n j).valid ≡ (if idx == j then n.valid else (nodes j).valid)
unfolding link
link-valid nodes parent idx n j = ground arith

count-full : (p : ℕ → Bool) (n : ℕ) → ((j : ℕ) → j < n → p j ≡ true) → count p n ≡ n
unfolding count
count-full p zero all = refl
count-full p (suc n) all =
    ground (arith, count-full p n (λ j h. all j (omega arith)), all n (omega arith))

full-count : (p : ℕ → Bool) (n : ℕ) → n ≤ count p n → (j : ℕ) → j < n → p j ≡ true
unfolding count
full-count p zero e j h = absurd (omega arith)
full-count p (suc n) e j h = elim (lt_or_eq j n h) [
  | inl here ↦ rw here (ground (arith, count-le p n))
  | inr below ↦ full-count p n (ground (arith, count-le p n)) j below
]

-- With no free slot from the hint on, every node is valid.
free_slot-none :
    (t : MdbTree) → IsTracked t → free_slot t ≡ none → (j : ℕ) → j < max_mdb_nodes → used t j ≡ true
unfolding free_slot
free_slot-none t w absent j h = elim (Bool-cases (ltb j t.free_head)) [
  | inl low ↦ w.below j (ltb→lt j t.free_head low)
  | inr high ↦
      let hint = w.hint in
      let miss =
        first-none (λ i. not (t.nodes i).valid) (max_mdb_nodes - t.free_head) t.free_head absent j
          (ground arith) (omega arith) in
      ground arith
]

free_slot-free :
    (t : MdbTree) (k : ℕ)
    → IsTracked t
    → free_slot t ≡ some k
    → (t.free_head ≤ k) × (k < max_mdb_nodes) × (used t k ≡ false)
unfolding free_slot
free_slot-free t k w found =
    let f =
      first-some (λ i. not (t.nodes i).valid) (max_mdb_nodes - t.free_head) t.free_head k found in
    let hit = f.hit in (f.low, omega (arith, f.high, w.hint), ground arith)

-- A table with fewer valid nodes than slots has a free one, which the search from the hint finds.
free_slot-some :
    (t : MdbTree) → IsTracked t → t.count < max_mdb_nodes → (k : ℕ) × (free_slot t ≡ some k)
free_slot-some t w room = elim (Option-cases (free_slot t)) [
  | inl absent ↦
      let full : count (used t) max_mdb_nodes ≡ max_mdb_nodes =
        count-full (used t) max_mdb_nodes (free_slot-none t w absent) in
      let c = w.counted in absurd (omega arith)
  | inr (k, found) ↦ (k, found)
]

abbrev inserted : MdbTree → ℕ → ℕ → Cap → ℕ → MdbTree
inserted t parent cptr cap k = record {
  nodes = link t.nodes parent k (new_node parent cptr cap);
  count = add32 t.count 1;
  free_head = if k == t.free_head then k + 1 else t.free_head;
}

inserted-below :
    (t : MdbTree) (parent cptr : ℕ) (cap : Cap) (k : ℕ)
    → IsTracked t
    → (i : ℕ) → i < (if k == t.free_head then k + 1 else t.free_head)
    → (if k == i then true else used t i) ≡ true
inserted-below t parent cptr cap k w i h = elim (ℕ_discrete k i) [
  | yes here ↦ ground arith
  | no other ↦ let b = w.below i (ground arith) in ground arith
]

inserted-IsTracked :
    (t : MdbTree) (parent cptr : ℕ) (cap : Cap) (k : ℕ)
    → IsTracked t
    → free_slot t ≡ some k
    → IsTracked (inserted t parent cptr cap k)
inserted-IsTracked t parent cptr cap k w found =
    let (low, high, free) = free_slot-free t k w found in
    let new : Node = new_node parent cptr cap in
    let le = count-le (used t) max_mdb_nodes in
    let c = w.counted in
    let more : count (used (inserted t parent cptr cap k)) max_mdb_nodes
        ≡ count (used t) max_mdb_nodes + 1 =
      count-set (used t) (used (inserted t parent cptr cap k)) max_mdb_nodes k high free
        (link-valid t.nodes parent k new k ∙ ground arith)
        (λ j other. sym (link-valid t.nodes parent k new j ∙ ground arith)) in
    record {
      hint = let hint = w.hint in ground arith;
      below = λ i h. link-valid t.nodes parent k new i ∙ inserted-below t parent cptr cap k w i h;
      counted = omega arith;
    }

insert-full :
    (t : MdbTree) (parent cptr : ℕ) (cap : Cap) (out : ℕ)
    → free_slot t ≡ none
    → insert t parent cptr cap out ≡ (no_mem, out, t)
unfolding insert
insert-full t parent cptr cap out absent = ground arith

insert-found :
    (t : MdbTree) (parent cptr : ℕ) (cap : Cap) (out k : ℕ)
    → t.count < max_mdb_nodes
    → free_slot t ≡ some k
    → insert t parent cptr cap out ≡ (ok, k, inserted t parent cptr cap k)
unfolding insert
insert-found t parent cptr cap out k room found =
    rw (found, lt→leb t.count max_mdb_nodes room, insert) refl

insert-no_room :
    (t : MdbTree) (parent cptr : ℕ) (cap : Cap) (out : ℕ)
    → max_mdb_nodes ≤ t.count
    → insert t parent cptr cap out ≡ (no_mem, out, t)
unfolding insert
insert-no_room t parent cptr cap out full = ground arith

-- What `insert` does to a tree whose counters agree with its nodes: it takes the first free node and
-- keeps the agreement, or the table is full and nothing changes.
pub data Inserted (t : MdbTree) : KError × ℕ × MdbTree → Type 0 where
  took :
      (k : ℕ) (t' : MdbTree)
      → (k < max_mdb_nodes)
      → (t.nodes k).valid ≡ false
      → ((j : ℕ) → j < k → (t.nodes j).valid ≡ true)
      → IsTracked t'
      → Inserted t (ok, k, t')
  full :
      (out : ℕ)
      → ((j : ℕ) → j < max_mdb_nodes → (t.nodes j).valid ≡ true)
      → Inserted t (no_mem, out, t)

free_slot-first :
    (t : MdbTree) (k : ℕ)
    → IsTracked t
    → free_slot t ≡ some k
    → (j : ℕ) → j < k
    → (t.nodes j).valid ≡ true
unfolding free_slot
free_slot-first t k w found j h =
    let f =
      first-some (λ i. not (t.nodes i).valid) (max_mdb_nodes - t.free_head) t.free_head k found in
    elim (Bool-cases (ltb j t.free_head)) [
      | inl low ↦ w.below j (ltb→lt j t.free_head low)
      | inr high ↦ let miss = f.before j (ground arith) h in ground arith
    ]

all_used :
    (t : MdbTree)
    → IsTracked t
    → max_mdb_nodes ≤ t.count
    → (j : ℕ) → j < max_mdb_nodes
    → (t.nodes j).valid ≡ true
all_used t w h =
    full-count (used t) max_mdb_nodes (omega (arith, count-le (used t) max_mdb_nodes, w.counted))

-- Where the counters agree with the nodes, insertion takes the first free node and keeps the agreement, or
-- every node is taken and nothing changes.
pub insert-Inserted :
    (t : MdbTree) (parent cptr : ℕ) (cap : Cap) (out : ℕ)
    → IsTracked t
    → Inserted t (insert t parent cptr cap out)
insert-Inserted t parent cptr cap out w = elim (Bool-cases (ltb t.count max_mdb_nodes)) [
  | inr out_of_room ↦
      rw (insert-no_room t parent cptr cap out (ground arith))
        (full out (all_used t w (ground arith)))
  | inl room ↦
      let (k, found) = free_slot-some t w (ltb→lt t.count max_mdb_nodes room) in
      rw (insert-found t parent cptr cap out k (ltb→lt t.count max_mdb_nodes room) found) (
        took k (inserted t parent cptr cap k) (free_slot-free t k w found).1
          (free_slot-free t k w found).2 (free_slot-first t k w found)
          (inserted-IsTracked t parent cptr cap k w found))
]
