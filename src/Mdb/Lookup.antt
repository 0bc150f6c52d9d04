-- ===== src/Mdb/Lookup.antt =====
-- The node that a lookup finds (kernel/src/revoke.c).
use moonlight_os.Prelude.{
  ℕ, ◌<◌, ◌≡◌, inl, inr, refl, ◌∙◌, arith, Bool, true, false, some, ltb, ltb→lt, Bool-cases,
  Option-cases, first, first-some, first-none, IsFirst,
}
use moonlight_os.Mdb.{MdbTree, max_mdb_nodes, matches, lookup}

abbrev hits : MdbTree → ℕ → ℕ → ℕ → Bool
hits t cnode_id slot i = matches (t.nodes i) cnode_id slot

-- The nodes as `insert` leaves them: with no table and no slot of their own.
abbrev pub Unplaced : MdbTree → Type 0
Unplaced t = (i : ℕ) → ((t.nodes i).cnode_id ≡ 0) × ((t.nodes i).slot ≡ 0)

lookup-found :
    (t : MdbTree) (i : ℕ) → first (hits t 0 0) max_mdb_nodes 0 ≡ some i → lookup t 0 0 ≡ i
unfolding lookup
lookup-found t i found = rw (found, lookup) refl

valid-hits : (t : MdbTree) (i : ℕ) → hits t 0 0 i ≡ true → (t.nodes i).valid ≡ true
valid-hits t i hit = ground arith

hits-valid : (t : MdbTree) (i : ℕ) → Unplaced t → (t.nodes i).valid ≡ true → hits t 0 0 i ≡ true
hits-valid t i unplaced valid = let at = unplaced i in ground arith

least_hit :
    (t : MdbTree) (i k : ℕ)
    → IsFirst (hits t 0 0) 0 max_mdb_nodes i
    → Unplaced t
    → (t.nodes k).valid ≡ true
    → ((j : ℕ) → j < k → (t.nodes j).valid ≡ false)
    → i ≡ k
least_hit t i k f unplaced valid before = elim (Bool-cases (ltb i k)) [
  | inl below ↦
      let bad = before i (ltb→lt i k below) in
      let good = valid-hits t i f.hit in absurd (ground arith)
  | inr upper ↦ elim (Bool-cases (ltb k i)) [
    | inl above ↦
        let bad = f.before k (omega arith) (ltb→lt k i above) in
        let good = hits-valid t k unplaced valid in absurd (ground arith)
    | inr lower ↦ ground arith
  ]
]

-- In a tree whose nodes record neither table nor slot, as insertion leaves them, looking up slot 0 of table
-- 0 finds the first valid node, whichever capability it holds.
pub lookup-first_valid :
    (t : MdbTree) (k : ℕ)
    → Unplaced t
    → k < max_mdb_nodes
    → (t.nodes k).valid ≡ true
    → ((j : ℕ) → j < k → (t.nodes j).valid ≡ false)
    → lookup t 0 0 ≡ k
lookup-first_valid t k unplaced small valid before =
    elim (Option-cases (first (hits t 0 0) max_mdb_nodes 0)) [
      | inl absent ↦
          let miss = first-none (hits t 0 0) max_mdb_nodes 0 absent k (omega arith) small in
          let at = unplaced k in absurd (ground arith)
      | inr (i, found) ↦
          let f = first-some (hits t 0 0) max_mdb_nodes 0 i found in
          lookup-found t i found ∙ least_hit t i k f unplaced valid before
    ]
