-- ===== src/Mdb/Delete.antt =====
-- Deletion and the slots of the derivation tree that are in use (kernel/src/revoke.c).
use moonlight_os.Prelude.{
  ℕ, zero, suc, ◌+◌, ◌≤◌, ◌<◌, ◌≡◌, ◌≢◌, ◌⊎◌, inl, inr, refl, ap, ◌∙◌, ltb, arith, true, false,
  some, Array, List, [], ◌∷◌, length, ne→==, lt→ltb, lt→leb, leb, ◌!=◌, ◌==◌, if◌then◌else◌,
  Bool-cases, Option-cases, count, count-le, count-set,
}
use moonlight_os.Types.{KError, ok, invalid_arg, invalid_cap, revoke_needed}
use moonlight_os.Mdb.{
  Node, MdbTree, nil, max_mdb_nodes, unlink, unlink_from, drop_node, delete, put, Link, child_of,
  sibling_of, follow,
}
use moonlight_os.Mdb.Slots.{used, IsTracked}

put-valid : (nodes : Array Node) (p : Link) (v j : ℕ) → (put nodes p v j).valid ≡ (nodes j).valid
put-valid nodes (child_of i) v j = ground arith
put-valid nodes (sibling_of i) v j = ground arith

unlink-valid :
    (fuel : ℕ) (nodes : Array Node) (idx : ℕ) (p : Link) (nodes' : Array Node)
    → unlink fuel nodes idx p ≡ some nodes'
    → (j : ℕ) → (nodes' j).valid ≡ (nodes j).valid
unfolding unlink
unlink-valid zero nodes idx p nodes' e j = cc
unlink-valid (suc fuel) nodes idx p nodes' e j = elim (Bool-cases (follow nodes p == nil)) [
  | inl end_ ↦ ground arith
  | inr more ↦ elim (Bool-cases (follow nodes p == idx)) [
    | inl hit ↦
        let same : nodes' ≡ put nodes p (nodes idx).next_sibling = ground arith in
        rw same (put-valid nodes p (nodes idx).next_sibling j)
    | inr miss ↦ unlink-valid fuel nodes idx (sibling_of (follow nodes p)) nodes' (ground arith) j
  ]
]

delete-done :
    (t : MdbTree) (idx : ℕ) (r : KError × MdbTree)
    → delete t idx ≡ some r
    → (r.1 ≡ t)
      ⊎ ((nodes : Array Node) × (unlink_from t.nodes idx ≡ some nodes)
          × (idx < max_mdb_nodes)
          × (used t idx ≡ true)
          × (r.1 ≡ drop_node t nodes idx))
unfolding delete
delete-done t idx r e = elim (Option-cases (unlink_from t.nodes idx)) [
  | inl absent ↦ ground arith
  | inr (nodes, found) ↦ ground arith
]

unlink_from-valid :
    (nodes : Array Node) (idx : ℕ) (nodes' : Array Node)
    → unlink_from nodes idx ≡ some nodes'
    → (j : ℕ) → (nodes' j).valid ≡ (nodes j).valid
unfolding unlink_from
unlink_from-valid nodes idx nodes' e j = elim (Bool-cases ((nodes idx).parent == nil)) [
  | inl root ↦ let same : nodes' ≡ nodes = ground arith in rw same refl
  | inr child ↦
      unlink-valid (max_mdb_nodes + 1) nodes idx (child_of (nodes idx).parent) nodes' (ground arith)
        j
]

dropped-valid :
    (t : MdbTree) (nodes : Array Node) (idx j : ℕ)
    → ((drop_node t nodes idx).nodes j).valid ≡ (if idx == j then false else (nodes j).valid)
unfolding drop_node
dropped-valid t nodes idx j = ground arith

dropped-head :
    (t : MdbTree) (nodes : Array Node) (idx i : ℕ)
    → i < (drop_node t nodes idx).free_head
    → (i < t.free_head) × (i ≢ idx)
unfolding drop_node
dropped-head t nodes idx i h = ground arith

dropped-hint :
    (t : MdbTree) (nodes : Array Node) (idx : ℕ)
    → t.free_head ≤ max_mdb_nodes
    → idx < max_mdb_nodes
    → (drop_node t nodes idx).free_head ≤ max_mdb_nodes
unfolding drop_node
dropped-hint t nodes idx head small = ground arith

dropped-count :
    (t : MdbTree) (nodes : Array Node) (idx : ℕ) {n : ℕ}
    → t.count ≡ n + 1
    → t.count ≤ max_mdb_nodes
    → (drop_node t nodes idx).count ≡ n
unfolding drop_node
dropped-count t nodes idx e small = omega arith

dropped-IsTracked :
    (t : MdbTree) (nodes : Array Node) (idx : ℕ)
    → IsTracked t
    → idx < max_mdb_nodes
    → used t idx ≡ true
    → ((j : ℕ) → (nodes j).valid ≡ (t.nodes j).valid)
    → IsTracked (drop_node t nodes idx)
dropped-IsTracked t nodes idx w small valid same = record {
  hint = (let head = w.hint in dropped-hint t nodes idx head small);
  below = λ i h.
      let b = w.below i (dropped-head t nodes idx i h).0 in
      let other = (dropped-head t nodes idx i h).1 in
      dropped-valid t nodes idx i ∙ ground (arith, same i);
  counted =
      let fewer : count (used t) max_mdb_nodes
          ≡ count (used (drop_node t nodes idx)) max_mdb_nodes + 1 =
        count-set (used (drop_node t nodes idx)) (used t) max_mdb_nodes idx small
          (dropped-valid t nodes idx idx ∙ ground arith) valid
          (λ j other. dropped-valid t nodes idx j ∙ ground (arith, same j)) in
      dropped-count t nodes idx (w.counted ∙ fewer)
        (omega (arith, count-le (used t) max_mdb_nodes, w.counted));
}

-- The list of siblings that starts at a link: it stays in the table and ends.
abbrev pub Siblings : Array Node → Link → List ℕ → Type 0
Siblings nodes p [] = follow nodes p ≡ nil
Siblings nodes p (i ∷ l) =
    (follow nodes p ≡ i) × (i < max_mdb_nodes) × Siblings nodes (sibling_of i) l

-- A node is a root, or one below a parent of the table whose children are at most as many as the table has nodes.
abbrev pub IsPlaced : Array Node → ℕ → Type 0
IsPlaced nodes idx =
    ((nodes idx).parent ≡ nil)
    ⊎ (((nodes idx).parent < max_mdb_nodes)
        × ((l : List ℕ) × Siblings nodes (child_of (nodes idx).parent) l
            × (length l ≤ max_mdb_nodes)))

unlink-runs :
    (fuel : ℕ) (nodes : Array Node) (idx : ℕ) (p : Link) (l : List ℕ)
    → Siblings nodes p l
    → length l < fuel
    → (nodes' : Array Node) × (unlink fuel nodes idx p ≡ some nodes')
unfolding unlink
unlink-runs zero nodes idx p l s enough = absurd (omega arith)
unlink-runs (suc fuel) nodes idx p [] s enough = (nodes, rw (s, unlink) refl)
unlink-runs (suc fuel) nodes idx p (i ∷ l) (at, small, rest) enough =
    let more : (follow nodes p == nil) ≡ false =
      ap (λ (n : ℕ). n == nil) at ∙ ne→== i nil (λ e. absurd (omega arith)) in
    let inside : ltb (follow nodes p) max_mdb_nodes ≡ true =
      ap (λ (n : ℕ). ltb n max_mdb_nodes) at ∙ lt→ltb i max_mdb_nodes small in
    elim (Bool-cases (follow nodes p == idx)) [
      | inl hit ↦ (put nodes p (nodes idx).next_sibling, rw (more, unlink) (rw (hit, unlink) refl))
      | inr miss ↦
          let (nodes', run) = unlink-runs fuel nodes idx (sibling_of i) l rest (omega arith) in
          let goes_on : unlink fuel nodes idx (sibling_of (follow nodes p)) ≡ some nodes' =
            ap (λ (n : ℕ). unlink fuel nodes idx (sibling_of n)) at ∙ run in
          (nodes', rw (more, unlink) (rw (miss, unlink) (rw (inside, unlink) goes_on)))
    ]

unlink_from-runs :
    (nodes : Array Node) (idx : ℕ)
    → IsPlaced nodes idx
    → (nodes' : Array Node) × (unlink_from nodes idx ≡ some nodes')
unfolding unlink_from
unlink_from-runs nodes idx (inl root) = (nodes, rw (root, unlink_from) refl)
unlink_from-runs nodes idx (inr (small, (l, siblings, few))) =
    let parent = (nodes idx).parent in
    let (nodes', run) =
      unlink-runs (max_mdb_nodes + 1) nodes idx (child_of parent) l siblings (omega arith) in
    (
      nodes',
      rw
          (
            ne→== parent nil (λ e. absurd (omega arith)),
            lt→leb parent max_mdb_nodes small,
            unlink_from,
          )
          run,
    )

delete-runs :
    (t : MdbTree) (idx : ℕ)
    → IsPlaced t.nodes idx
    → (r : KError × MdbTree) × (delete t idx ≡ some r)
unfolding delete
delete-runs t idx placed =
    let (nodes, run) = unlink_from-runs t.nodes idx placed in
    elim (Bool-cases (leb max_mdb_nodes idx)) [
      | inl out ↦ ((invalid_arg, t), rw (out, delete) refl)
      | inr small ↦ elim (Bool-cases (t.nodes idx).valid) [
        | inr free ↦ ((invalid_cap, t), rw (small, free, delete) refl)
        | inl valid ↦ elim (Bool-cases ((t.nodes idx).first_child != nil)) [
          | inl parent ↦ ((revoke_needed, t), rw (small, valid, parent, delete) refl)
          | inr leaf ↦ ((ok, drop_node t nodes idx), rw (small, valid, leaf, run, delete) refl)
        ]
      ]
    ]

-- Deleting a node ends, makes no access out of the table and, whatever it returns, keeps the counters in
-- agreement with the nodes, if the node has no parent or the children of its parent are a list that ends and
-- stays in the table.
pub delete-IsTracked :
    (t : MdbTree) (idx : ℕ)
    → IsTracked t
    → IsPlaced t.nodes idx
    → (r : KError × MdbTree) × (delete t idx ≡ some r) × IsTracked r.1
delete-IsTracked t idx w placed =
    let (r, e) = delete-runs t idx placed in
    (
      r,
      e,
      elim (delete-done t idx r e) [
        | inl same ↦ rw same w
        | inr (nodes, found, small, valid, done) ↦ rw done (
            dropped-IsTracked t nodes idx w small valid (unlink_from-valid t.nodes idx nodes found))
      ],
    )
