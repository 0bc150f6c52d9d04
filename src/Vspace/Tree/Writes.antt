-- ===== src/Vspace/Tree/Writes.antt =====
-- What a write to one table does to the tree (kernel/src/vspace.c).
use native.Mathlib.Decide.{ℕ_discrete}
use moonlight_os.Prelude.{
  ℕ, ◌≡◌, ◌≢◌, ◌⊎◌, inl, inr, refl, sym, ap, ◌∙◌, arith, Option, none, some, Array, set, ◌==◌,
  if◌then◌else◌, set_self, set_ne, ne→==, ==_refl,
}
use moonlight_os.Vspace.Tree.{
  Pages, Node, top, mid, low, entry, child, table, leaf_entry, leaf, walk, IsTree, IsTree-same,
}

-- `table[idx] = pte;`
abbrev pub put : Pages → ℕ → ℕ → ℕ → Pages
put pg t i e = set pg t (set (pg t) i e)

pub put-other : (pg : Pages) (t i e u : ℕ) → t ≢ u → put pg t i e u ≡ pg u
put-other pg t i e u ne = set_ne pg t u (set (pg t) i e) ne

pub put-here : (pg : Pages) (t i e k : ℕ) → put pg t i e t k ≡ (if i == k then e else pg t k)
put-here pg t i e k = ap (λ (f : Array ℕ). f k) (set_self pg t (set (pg t) i e))

pub mid-inj : {a i : ℕ} → mid a ≡ mid i → i ≡ a
mid-inj e = cc

-- Tables of different places are different pages.
pub apart :
    (pg : Pages) (root f t u : ℕ) (n m : Node)
    → IsTree pg root f
    → table pg root n ≡ some t
    → table pg root m ≡ some u
    → n ≢ m
    → t ≢ u
apart pg root f t u n m tree e e' ne same =
    ne (tree.unshared n m t e (e' ∙ ap (λ (x : ℕ). some x) (sym same)))

pub child-same :
    (pg pg' : Pages) (o o' : Option ℕ) (j : ℕ)
    → o' ≡ o
    → ((u : ℕ) → o ≡ some u → pg' u ≡ pg u)
    → child pg' o' j ≡ child pg o j
child-same pg pg' none o' j same rows = rw same refl
child-same pg pg' (some u) o' j same rows =
    rw same (ap (λ (a : Array ℕ). entry (a j)) (rows u refl))

pub leaf-same :
    (pg pg' : Pages) (o o' : Option ℕ) (k : ℕ)
    → o' ≡ o
    → ((u : ℕ) → o ≡ some u → pg' u k ≡ pg u k)
    → leaf pg' o' k ≡ leaf pg o k
leaf-same pg pg' none o' k same rows = rw same refl
leaf-same pg pg' (some u) o' k same rows = rw same (ap leaf_entry (rows u refl))

-- Two memories with the same words in the root and in the tables below it have the same tables.
table-same :
    (pg pg' : Pages) (root : ℕ)
    → pg' root ≡ pg root
    → ((i u : ℕ) → table pg root (mid i) ≡ some u → pg' u ≡ pg u)
    → (n : Node) → table pg' root n ≡ table pg root n
table-same pg pg' root r m top = refl
table-same pg pg' root r m (mid i) = ap (λ (a : Array ℕ). entry (a i)) r
table-same pg pg' root r m (low i j) =
    child-same pg pg' (table pg root (mid i)) (table pg' root (mid i)) j
      (ap (λ (a : Array ℕ). entry (a i)) r) (m i)

-- Words of the last level that a write there leaves alone.
put-row :
    (pg : Pages) (root f i j t k e a b c u : ℕ)
    → IsTree pg root f
    → table pg root (low i j) ≡ some t
    → table pg root (low a b) ≡ some u
    → (low a b ≢ low i j) ⊎ (c ≢ k)
    → put pg t k e u c ≡ pg u c
put-row pg root f i j t k e a b c u tree at h (inl ne) =
    ap (λ (x : Array ℕ). x c)
      (put-other pg t k e u (apart pg root f t u (low i j) (low a b) tree at h (λ z. ne (sym z))))
put-row pg root f i j t k e a b c u tree at h (inr ne) = elim (ℕ_discrete t u) [
  | yes same ↦ rw (← same) (put-here pg t k e c ∙ rw (ne→== k c (λ z. ne (sym z))) refl)
  | no other ↦ ap (λ (x : Array ℕ). x c) (put-other pg t k e u other)
]

-- A write to a table of the last level.
module _ (pg : Pages) (root f i j t k e : ℕ) (tree : IsTree pg root f)
    (at : table pg root (low i j) ≡ some t) where
  put_low-table : (n : Node) → table (put pg t k e) root n ≡ table pg root n
  put_low-table =
      table-same pg (put pg t k e) root
        (put-other pg t k e root (apart pg root f t root (low i j) top tree at refl (λ z. cc)))
        (λ a u h. put-other pg t k e u (apart pg root f t u (low i j) (mid a) tree at h (λ z. cc)))

  pub put_low-IsTree : IsTree (put pg t k e) root f
  put_low-IsTree = IsTree-same pg (put pg t k e) root f f tree (omega arith) put_low-table

  pub put_low-here : walk (put pg t k e) root i j k ≡ leaf_entry e
  put_low-here =
      ap (λ (o : Option ℕ). leaf (put pg t k e) o k) (put_low-table (low i j) ∙ at)
      ∙ ap leaf_entry (put-here pg t k e k ∙ rw (==_refl k) refl)

  pub put_low-other :
      (a b c : ℕ)
      → (low a b ≢ low i j) ⊎ (c ≢ k)
      → walk (put pg t k e) root a b c ≡ walk pg root a b c
  put_low-other a b c away =
      leaf-same pg (put pg t k e) (table pg root (low a b)) (table (put pg t k e) root (low a b)) c
        (put_low-table (low a b)) (λ u h. put-row pg root f i j t k e a b c u tree at h away)
