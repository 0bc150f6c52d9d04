-- ===== src/Mdb/Revoke.antt =====
-- Revoking a node clears the capabilities below it (kernel/src/revoke.c).
use moonlight_os.Prelude.{
  ℕ, zero, suc, ◌+◌, ◌≤◌, ◌<◌, ◌≡◌, ◌≢◌, refl, ◌∙◌, arith, Bool, true, false, ◌||◌, List, [], ◌∷◌,
  ◌++◌, some, Array, set, set_self, set_ne, ◌==◌, lt→ltb, lt→leb, ==_refl, ne→==, if◌then◌else◌,
}
use native.Mathlib.Decide.{ℕ_discrete}
use moonlight_os.Types.{ok}
use moonlight_os.Mdb.{Node, MdbTree, nil, max_mdb_nodes, dead, clear, revoke_children, revoke}

unfoldable pub size : List ℕ → ℕ
size [] = 0
size (_ ∷ l) = size l + 1

size-append : (l k : List ℕ) → size (l ++ k) ≡ size l + size k
unfolding size
size-append [] k = omega arith
size-append (_ ∷ l) k = omega (arith, size-append l k)

unfoldable pub elem : ℕ → List ℕ → Bool
elem j [] = false
elem j (i ∷ l) = (j == i) || elem j l

elem-append : (j : ℕ) (l k : List ℕ) → elem j (l ++ k) ≡ (elem j l || elem j k)
unfolding elem
elem-append j [] k = refl
elem-append j (i ∷ l) k = ground (arith, elem-append j l k)

-- The links from `head` reach the nodes of the list: the siblings of `head` and all below them.
pub data Forest (nodes : Array Node) : ℕ → List ℕ → Type 0 where
  leaf : Forest nodes nil []
  tree :
      (i : ℕ) (l k : List ℕ)
      → i < max_mdb_nodes
      → Forest nodes (nodes i).first_child l
      → Forest nodes (nodes i).next_sibling k
      → Forest nodes i (i ∷ l ++ k)

-- The nodes after all those of a list are cleared.
abbrev pub killed : List ℕ → Array Node → Array Node
killed l nodes j = if elem j l then dead (nodes j) else nodes j

-- Two arrays of nodes with the same links.
abbrev SameLinks : Array Node → Array Node → Type 0
SameLinks a b =
    (j : ℕ) → ((a j).first_child ≡ (b j).first_child) × ((a j).next_sibling ≡ (b j).next_sibling)

Forest-links :
    (a b : Array Node) (head : ℕ) (l : List ℕ) → SameLinks a b → Forest a head l → Forest b head l
Forest-links a b _ _ same leaf = leaf
Forest-links a b _ _ same (tree i l k small below beside) =
    tree i l k small (rw (← (same i).0) (Forest-links a b (a i).first_child l same below))
      (rw (← (same i).1) (Forest-links a b (a i).next_sibling k same beside))

clear-links : (t : MdbTree) (i : ℕ) → SameLinks t.nodes (clear t i).nodes
unfolding clear
clear-links t i j = ground arith

-- What clearing a forest below `head` amounts to.
abbrev Cleared : MdbTree → ℕ → ℕ → List ℕ → Type 0
Cleared t fuel head l =
    (t' : MdbTree) × (revoke_children fuel t head ≡ some t')
    × ((j : ℕ) → t'.nodes j ≡ killed l t.nodes j)

Cleared-links :
    (t t' : MdbTree) (l : List ℕ)
    → ((j : ℕ) → t'.nodes j ≡ killed l t.nodes j)
    → SameLinks t.nodes t'.nodes
Cleared-links t t' l same j = rw (same j) (ground arith)

killed-here :
    (t t1 t2 : MdbTree) (i : ℕ) (l k : List ℕ)
    → t1.nodes i ≡ killed l t.nodes i
    → t2.nodes i ≡ killed k (clear t1 i).nodes i
    → t2.nodes i ≡ killed (i ∷ l ++ k) t.nodes i
unfolding elem clear
killed-here t t1 t2 i l k first second = rw (second, ==_refl i, first) (ground arith)

killed-other :
    (t t1 t2 : MdbTree) (i j : ℕ) (l k : List ℕ)
    → i ≢ j
    → t1.nodes j ≡ killed l t.nodes j
    → t2.nodes j ≡ killed k (clear t1 i).nodes j
    → t2.nodes j ≡ killed (i ∷ l ++ k) t.nodes j
unfolding elem clear
killed-other t t1 t2 i j l k other first second =
    rw (second, elem-append j l k) (ground (arith, first))

Cleared-tree :
    (t : MdbTree) (fuel i : ℕ) (l k : List ℕ)
    → i < max_mdb_nodes
    → (below : Cleared t fuel (t.nodes i).first_child l)
    → Cleared (clear below.0 i) fuel (t.nodes i).next_sibling k
    → Cleared t (suc fuel) i (i ∷ l ++ k)
unfolding revoke_children
Cleared-tree t fuel i l k small (t1, run1, same1) (t2, run2, same2) = (
  t2,
  rw (ne→== i nil (λ e. absurd (omega arith)), lt→ltb i max_mdb_nodes small, run1, revoke_children)
      run2,
  λ j. elim (ℕ_discrete i j) [
    | yes here ↦ rw (← here) (killed-here t t1 t2 i l k (same1 i) (same2 i))
    | no other ↦ killed-other t t1 t2 i j l k other (same1 j) (same2 j)
  ],
)

revoke_children-nil : (fuel : ℕ) (t : MdbTree) → revoke_children (suc fuel) t nil ≡ some t
unfolding revoke_children
revoke_children-nil fuel t = refl

killed-none : (t : MdbTree) (j : ℕ) → t.nodes j ≡ killed [] t.nodes j
unfolding elem
killed-none t j = refl

children-Cleared :
    (fuel : ℕ) (t : MdbTree) (head : ℕ) (l : List ℕ)
    → Forest t.nodes head l
    → size l < fuel
    → Cleared t fuel head l
unfolding size
children-Cleared zero t head l f h = absurd (omega arith)
children-Cleared (suc fuel) t _ _ leaf h = (
  t,
  (let top : revoke_children (suc fuel) t nil ≡ some t = revoke_children-nil fuel t in top),
  λ j. killed-none t j,
)
children-Cleared (suc fuel) t _ _ (tree i l k small below beside) h =
    let first =
      children-Cleared fuel t (t.nodes i).first_child l below (omega (arith, size-append l k)) in
    Cleared-tree t fuel i l k small first (
      children-Cleared fuel (clear first.0 i) (t.nodes i).next_sibling k
        (Forest-links t.nodes (clear first.0 i).nodes (t.nodes i).next_sibling k
          (λ j.
            let a = Cleared-links t first.0 l first.2 j in
            let b = clear-links first.0 i j in (a.0 ∙ b.0, a.1 ∙ b.1))
          beside)
        (omega (arith, size-append l k)))

-- Revoking a valid node below which lie the nodes of a forest, at most 1024, ends and succeeds. It clears the capability and the
-- validity of each of them, leaves every other node as it was, and leaves the node itself with no child.
pub revoke-killed :
    (t : MdbTree) (idx : ℕ) (l : List ℕ)
    → idx < max_mdb_nodes
    → (t.nodes idx).valid ≡ true
    → Forest t.nodes (t.nodes idx).first_child l
    → size l ≤ max_mdb_nodes
    → (t' : MdbTree) × (revoke t idx ≡ some (ok, t'))
      × (t'.nodes idx ≡ record (killed l t.nodes idx) { first_child = nil })
      × ((j : ℕ) → idx ≢ j → t'.nodes j ≡ killed l t.nodes j)
unfolding revoke
revoke-killed t idx l small valid f few =
    let (t1, run, same) =
      children-Cleared (max_mdb_nodes + 1) t (t.nodes idx).first_child l f (omega arith) in
    (
      record t1 { nodes = set t1.nodes idx (record (t1.nodes idx) { first_child = nil }) },
      rw (lt→leb idx max_mdb_nodes small, valid, run, revoke) refl,
      rw (set_self t1.nodes idx (record (t1.nodes idx) { first_child = nil }), same idx) refl,
      λ j other.
          rw (set_ne t1.nodes idx j (record (t1.nodes idx) { first_child = nil }) other) (same j),
    )
