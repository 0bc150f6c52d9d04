-- ===== src/Vspace/Tree/Growth.antt =====
-- A table that `vspace_map` allocates becomes part of the tree (kernel/src/vspace.c).
use native.Mathlib.Decide.{ℕ_discrete}
use moonlight_os.Prelude.{
  ℕ, ◌≤◌, ◌<◌, ◌≡◌, ◌≢◌, refl, sym, ap, ◌∙◌, arith, Option, none, some, Array, set, fill, set_self,
  set_ne, ne→==, ==_refl,
}
use moonlight_os.Vspace.Tree.{
  Pages, Node, top, mid, low, entry, child, table, leaf_entry, leaf, walk, IsTree, IsTree-extend,
  Node-discrete,
}
use moonlight_os.Vspace.Tree.Writes.{
  put, put-other, put-here, apart, child-same, leaf-same, mid-inj,
}

-- A cleared page and an entry that points to it.
abbrev pub grow : Pages → ℕ → ℕ → ℕ → ℕ → Pages
grow pg p t i e = put (set pg p (fill 0)) t i e

module _ (pg : Pages) (p t i e : ℕ) (new : t ≢ p) where
  grow-other : (u : ℕ) → t ≢ u → p ≢ u → grow pg p t i e u ≡ pg u
  grow-other u ne ne' = put-other (set pg p (fill 0)) t i e u ne ∙ set_ne pg p u (fill 0) ne'

  grow-page : grow pg p t i e p ≡ fill 0
  grow-page = put-other (set pg p (fill 0)) t i e p new ∙ set_self pg p (fill 0)

  grow-here : grow pg p t i e t i ≡ e
  grow-here = put-here (set pg p (fill 0)) t i e i ∙ rw (==_refl i) refl

  grow-row : (k : ℕ) → i ≢ k → grow pg p t i e t k ≡ pg t k
  grow-row k ne =
      put-here (set pg p (fill 0)) t i e k
      ∙ rw (ne→== i k ne) (ap (λ (x : Array ℕ). x k) (set_ne pg p t (fill 0) (λ z. new (sym z))))

-- A cleared page has no tables below it and no leaves.
child-zero : (pg : Pages) (p j : ℕ) → pg p ≡ fill 0 → child pg (some p) j ≡ none
child-zero pg p j e = ap (λ (x : Array ℕ). entry (x j)) e

leaf-zero : (pg : Pages) (p k : ℕ) → pg p ≡ fill 0 → leaf pg (some p) k ≡ none
leaf-zero pg p k e = ap (λ (x : Array ℕ). leaf_entry (x k)) e

-- A new table below the root.
module _ (pg : Pages) (root f p i e : ℕ) (tree : IsTree pg root f) (old : f ≤ p)
    (absent : table pg root (mid i) ≡ none) (to : entry e ≡ some p) where
  root-ne : root ≢ p
  root-ne = let h = tree.below top root refl in λ z. absurd (omega arith)

  pub grow_top-here : table (grow pg p root i e) root (mid i) ≡ some p
  grow_top-here = ap entry (grow-here pg p root i e root-ne) ∙ to

  grow_top-mid : (a : ℕ) → i ≢ a → table (grow pg p root i e) root (mid a) ≡ table pg root (mid a)
  grow_top-mid a ne = ap entry (grow-row pg p root i e root-ne a ne)

  grow_top-rows :
      (n : Node) (u : ℕ) → n ≢ top → table pg root n ≡ some u → grow pg p root i e u ≡ pg u
  grow_top-rows n u ne h =
      let small = tree.below n u h in
      grow-other pg p root i e root-ne u
        (apart pg root f root u top n tree refl h (λ z. ne (sym z))) (λ z. absurd (omega arith))

  grow_top-low : (a b : ℕ) → table (grow pg p root i e) root (low a b) ≡ table pg root (low a b)
  grow_top-low a b = elim (ℕ_discrete i a) [
    | yes here ↦ rw (← here) (
        ap (λ (o : Option ℕ). child (grow pg p root i e) o b) grow_top-here
        ∙ child-zero (grow pg p root i e) p b (grow-page pg p root i e root-ne)
        ∙ sym (ap (λ (o : Option ℕ). child pg o b) absent))
    | no other ↦
        child-same pg (grow pg p root i e) (table pg root (mid a))
          (table (grow pg p root i e) root (mid a)) b (grow_top-mid a other)
          (λ u h. grow_top-rows (mid a) u (λ z. cc) h)
  ]

  grow_top-others : (n : Node) → n ≢ mid i → table (grow pg p root i e) root n ≡ table pg root n
  grow_top-others top ne = refl
  grow_top-others (mid a) ne = grow_top-mid a (λ z. ne (ap (λ (x : ℕ). mid x) (sym z)))
  grow_top-others (low a b) ne = grow_top-low a b

  pub grow_top-IsTree : (f' : ℕ) → p < f' → IsTree (grow pg p root i e) root f'
  grow_top-IsTree f' below =
      IsTree-extend pg (grow pg p root i e) root f f' p (mid i) tree old below grow_top-here
        grow_top-others

  pub grow_top-walk : (a b c : ℕ) → walk (grow pg p root i e) root a b c ≡ walk pg root a b c
  grow_top-walk a b c =
      leaf-same pg (grow pg p root i e) (table pg root (low a b))
        (table (grow pg p root i e) root (low a b)) c (grow_top-low a b)
        (λ u h. ap (λ (x : Array ℕ). x c) (grow_top-rows (low a b) u (λ z. cc) h))

-- A new table below a table of the second level.
module _ (pg : Pages) (root f p i t j e : ℕ) (tree : IsTree pg root f) (old : f ≤ p)
    (at : table pg root (mid i) ≡ some t) (absent : table pg root (low i j) ≡ none)
    (to : entry e ≡ some p) where
  mid-ne : t ≢ p
  mid-ne = let h = tree.below (mid i) t at in λ z. absurd (omega arith)

  grow_mid-rows :
      (n : Node) (u : ℕ) → n ≢ mid i → table pg root n ≡ some u → grow pg p t j e u ≡ pg u
  grow_mid-rows n u ne h =
      let small = tree.below n u h in
      grow-other pg p t j e mid-ne u (apart pg root f t u (mid i) n tree at h (λ z. ne (sym z)))
        (λ z. absurd (omega arith))

  grow_mid-mid : (a : ℕ) → table (grow pg p t j e) root (mid a) ≡ table pg root (mid a)
  grow_mid-mid a = ap (λ (x : Array ℕ). entry (x a)) (grow_mid-rows top root (λ z. cc) refl)

  pub grow_mid-here : table (grow pg p t j e) root (low i j) ≡ some p
  grow_mid-here =
      ap (λ (o : Option ℕ). child (grow pg p t j e) o j) (grow_mid-mid i ∙ at)
      ∙ ap entry (grow-here pg p t j e mid-ne)
      ∙ to

  grow_mid-low :
      (a b : ℕ)
      → low a b ≢ low i j
      → table (grow pg p t j e) root (low a b) ≡ table pg root (low a b)
  grow_mid-low a b ne = elim (ℕ_discrete i a) [
    | yes here ↦ rw (← here) (
        ap (λ (o : Option ℕ). child (grow pg p t j e) o b) (grow_mid-mid i ∙ at)
        ∙ ap entry (
            grow-row pg p t j e mid-ne b
              (λ z. ne (ap (λ (x : ℕ). low x b) (sym here) ∙ ap (λ (x : ℕ). low i x) (sym z))))
        ∙ sym (ap (λ (o : Option ℕ). child pg o b) at))
    | no other ↦
        child-same pg (grow pg p t j e) (table pg root (mid a))
          (table (grow pg p t j e) root (mid a)) b (grow_mid-mid a)
          (λ u h. grow_mid-rows (mid a) u (λ z. other (mid-inj z)) h)
  ]

  grow_mid-others : (n : Node) → n ≢ low i j → table (grow pg p t j e) root n ≡ table pg root n
  grow_mid-others top ne = refl
  grow_mid-others (mid a) ne = grow_mid-mid a
  grow_mid-others (low a b) ne = grow_mid-low a b ne

  pub grow_mid-IsTree : (f' : ℕ) → p < f' → IsTree (grow pg p t j e) root f'
  grow_mid-IsTree f' below =
      IsTree-extend pg (grow pg p t j e) root f f' p (low i j) tree old below grow_mid-here
        grow_mid-others

  pub grow_mid-walk : (a b c : ℕ) → walk (grow pg p t j e) root a b c ≡ walk pg root a b c
  grow_mid-walk a b c = elim (Node-discrete (low a b) (low i j)) [
    | yes here ↦
        ap (λ (n : Node). leaf (grow pg p t j e) (table (grow pg p t j e) root n) c) here
        ∙ ap (λ (o : Option ℕ). leaf (grow pg p t j e) o c) grow_mid-here
        ∙ leaf-zero (grow pg p t j e) p c (grow-page pg p t j e mid-ne)
        ∙ sym (
            ap (λ (n : Node). leaf pg (table pg root n) c) here
            ∙ ap (λ (o : Option ℕ). leaf pg o c) absent)
    | no other ↦
        leaf-same pg (grow pg p t j e) (table pg root (low a b))
          (table (grow pg p t j e) root (low a b)) c (grow_mid-low a b other)
          (λ u h. ap (λ (x : Array ℕ). x c) (grow_mid-rows (low a b) u (λ z. cc) h))
  ]
