-- ===== src/Vspace/Tree/Mapping.antt =====
-- One level of the walk of `vspace_map` (kernel/src/vspace.c): the tree before and after.
use mathlib.Core.Path.{subst}
use moonlight_os.Prelude.{
  ℕ, ◌^◌, ◌<◌, ◌≡◌, inl, inr, refl, sym, ap, ◌∙◌, arith, true, false, Option, none, some,
  Bool-cases,
}
use moonlight_os.Vspace.{
  Vspace, PtState, is_present, next_table, pte_encode, write_entry, step_table, alloc_pt_page,
}
use moonlight_os.Vspace.Resolve.{pte_encode-parts, present_odd, entry_written}
use moonlight_os.Vspace.Tree.{Pages, Node, mid, low, entry, child, table, walk, IsTree, IsTree-same}
use moonlight_os.Vspace.Tree.Writes.{put}
use moonlight_os.Vspace.Tree.Growth.{
  grow, grow_top-IsTree, grow_top-walk, grow_top-here, grow_mid-IsTree, grow_mid-walk,
  grow_mid-here,
}
use moonlight_os.Vspace.Tree.Fresh.{
  frontier, IsReady, IsAllocated, IsRefused, AllocExplains, alloc_pt_page-Explains,
}

-- An address space with its root: its tables are a tree of used pages.
pub record IsSpace (vs : Vspace) (s : PtState) (root : ℕ) : Type 0 where
  pub rooted : vs.root ≡ some root
  pub tree : IsTree s.pages root (frontier vs s)
  pub ready : IsReady s

-- A step that changes no page of the address space.
pub record IsKept (vs : Vspace) (s : PtState) (root : ℕ) (vs' : Vspace) (s' : PtState)
    : Type 0 where
  pub space : IsSpace vs' s' root
  pub walks : (a b c : ℕ) → walk s'.pages root a b c ≡ walk s.pages root a b c

abbrev pub StepExplains : Vspace → PtState → ℕ → Node → Option ℕ × Vspace × PtState → Type 0
StepExplains vs s root n (none, vs', s') = IsKept vs s root vs' s'
StepExplains vs s root n (some t, vs', s') =
    IsKept vs s root vs' s' × (table s'.pages root n ≡ some t)

-- An entry for a table.
entry-encode : (p : ℕ) → p < 2 ^ 44 → entry (pte_encode p 1) ≡ some p
entry-encode p small =
    let parts = pte_encode-parts p 1 (omega arith) (omega arith) in
    let there = present_odd (pte_encode p 1) p 1 parts (omega arith) in
    let next : next_table (pte_encode p 1) ≡ p = omega arith in rw (there, next) refl

pub entry-absent : (e : ℕ) → is_present e ≡ false → entry e ≡ none
entry-absent e h = rw h refl

pub entry-present : (e : ℕ) → is_present e ≡ true → entry e ≡ some (next_table e)
entry-present e h = rw h refl

-- The table that was allocated, as the step of `vspace_map` reads it back.
grown-next :
    (s : PtState) (t i p : ℕ)
    → p < 2 ^ 44
    → next_table ((write_entry s t i (pte_encode p 1)).pages t i) ≡ p
grown-next s t i p small =
    let parts = pte_encode-parts p 1 (omega arith) (omega arith) in
    let next : next_table (pte_encode p 1) ≡ p = omega arith in
    ap next_table (entry_written s t i (pte_encode p 1)) ∙ next

step-present :
    (vs : Vspace) (s : PtState) (t i : ℕ)
    → is_present (s.pages t i) ≡ true
    → step_table vs s t i ≡ (some (next_table (s.pages t i)), vs, s)
unfolding step_table
step-present vs s t i e = rw (e, step_table) refl

IsKept-refused :
    (vs vs' : Vspace) (s s' : PtState) (root : ℕ)
    → IsSpace vs s root
    → IsRefused vs s vs' s'
    → IsKept vs s root vs' s'
IsKept-refused vs vs' s s' root sp r = record {
  space = record {
    rooted = r.kept.0 ∙ sp.rooted;
    tree =
        IsTree-same s.pages s'.pages root (frontier vs s) (frontier vs' s') sp.tree r.room
          (λ n. ap (λ (pg : Pages). table pg root n) r.pages);
    ready = r.ready;
  };
  walks = λ a b c. ap (λ (pg : Pages). walk pg root a b c) r.pages;
}

-- The result of a step whose entry is absent, by the result of the allocation.
abbrev grow_step : ℕ → ℕ → Option ℕ × Vspace × PtState → Option ℕ × Vspace × PtState
grow_step t i r = elim r.0 [
  | none ↦ (none, r.1, r.2)
  | some p ↦
      let s' = write_entry r.2 t i (pte_encode p 1) in (some (next_table (s'.pages t i)), r.1, s')
]

step-absent :
    (vs : Vspace) (s : PtState) (t i : ℕ)
    → is_present (s.pages t i) ≡ false
    → step_table vs s t i ≡ grow_step t i (alloc_pt_page vs s)
unfolding step_table
step-absent vs s t i e = rw (e, step_table) refl

-- What the allocation and the write make of the pages.
grown_pages :
    (vs vs' : Vspace) (s s' : PtState) (t i p : ℕ)
    → IsAllocated vs s p vs' s'
    → (write_entry s' t i (pte_encode p 1)).pages ≡ grow s.pages p t i (pte_encode p 1)
grown_pages vs vs' s s' t i p a = ap (λ (pg : Pages). put pg t i (pte_encode p 1)) a.pages

grown-IsKept :
    (vs vs' : Vspace) (s s' : PtState) (root t i p : ℕ)
    → IsSpace vs s root
    → IsAllocated vs s p vs' s'
    → IsTree (grow s.pages p t i (pte_encode p 1)) root (frontier vs' s')
    → ((a b c : ℕ)
        → walk (grow s.pages p t i (pte_encode p 1)) root a b c ≡ walk s.pages root a b c)
    → IsKept vs s root vs' (write_entry s' t i (pte_encode p 1))
grown-IsKept vs vs' s s' root t i p sp a tree walks =
    let pages = grown_pages vs vs' s s' t i p a in
    record {
      space = record {
        rooted = a.kept.0 ∙ sp.rooted;
        tree = subst (λ pg. IsTree pg root (frontier vs' s')) (sym pages) tree;
        ready = record {
          pool = a.ready.pool;
          whole = a.ready.whole;
          top = a.ready.top;
          static = a.ready.static;
        };
      };
      walks = λ x y z. ap (λ (pg : Pages). walk pg root x y z) pages ∙ walks x y z;
    }

grown_table :
    (vs vs' : Vspace) (s s' : PtState) (root t i p : ℕ) (n : Node)
    → IsAllocated vs s p vs' s'
    → table (grow s.pages p t i (pte_encode p 1)) root n ≡ some p
    → table (write_entry s' t i (pte_encode p 1)).pages root n
      ≡ some (next_table ((write_entry s' t i (pte_encode p 1)).pages t i))
grown_table vs vs' s s' root t i p n a here =
    ap (λ (pg : Pages). table pg root n) (grown_pages vs vs' s s' t i p a)
    ∙ here
    ∙ ap (λ (x : ℕ). some x) (sym (grown-next s' t i p a.small))

grow_top-Explains :
    (vs : Vspace) (s : PtState) (root i : ℕ) (r : Option ℕ × Vspace × PtState)
    → IsSpace vs s root
    → table s.pages root (mid i) ≡ none
    → AllocExplains vs s r
    → StepExplains vs s root (mid i) (grow_step root i r)
grow_top-Explains vs s root i (none, vs', s') sp absent a = IsKept-refused vs vs' s s' root sp a
grow_top-Explains vs s root i (some p, vs', s') sp absent a =
    let to = entry-encode p a.small in
    let e = pte_encode p 1 in
    (
      grown-IsKept vs vs' s s' root root i p sp a
          (grow_top-IsTree s.pages root (frontier vs s) p i e sp.tree a.unused absent to
            (frontier vs' s') a.used)
          (grow_top-walk s.pages root (frontier vs s) p i e sp.tree a.unused absent to),
      grown_table vs vs' s s' root root i p (mid i) a
          (grow_top-here s.pages root (frontier vs s) p i e sp.tree a.unused absent to),
    )

grow_mid-Explains :
    (vs : Vspace) (s : PtState) (root i t j : ℕ) (r : Option ℕ × Vspace × PtState)
    → IsSpace vs s root
    → table s.pages root (mid i) ≡ some t
    → table s.pages root (low i j) ≡ none
    → AllocExplains vs s r
    → StepExplains vs s root (low i j) (grow_step t j r)
grow_mid-Explains vs s root i t j (none, vs', s') sp at absent a =
    IsKept-refused vs vs' s s' root sp a
grow_mid-Explains vs s root i t j (some p, vs', s') sp at absent a =
    let to = entry-encode p a.small in
    let e = pte_encode p 1 in
    (
      grown-IsKept vs vs' s s' root t j p sp a
          (grow_mid-IsTree s.pages root (frontier vs s) p i t j e sp.tree a.unused at absent to
            (frontier vs' s') a.used)
          (grow_mid-walk s.pages root (frontier vs s) p i t j e sp.tree a.unused at absent to),
      grown_table vs vs' s s' root t j p (low i j) a
          (grow_mid-here s.pages root (frontier vs s) p i t j e sp.tree a.unused at absent to),
    )

kept : (vs : Vspace) (s : PtState) (root : ℕ) → IsSpace vs s root → IsKept vs s root vs s
kept vs s root sp = record { space = sp; walks = λ a b c. refl }

-- A step below the root: the table is there afterwards, or no page was left; in both cases the tables are a
-- tree, and every page of the address space is as before.
pub step_top-Explains :
    (vs : Vspace) (s : PtState) (root i : ℕ)
    → IsSpace vs s root
    → StepExplains vs s root (mid i) (step_table vs s root i)
step_top-Explains vs s root i sp = elim (Bool-cases (is_present (s.pages root i))) [
  | inl there ↦
      rw (step-present vs s root i there) (kept vs s root sp, entry-present (s.pages root i) there)
  | inr missing ↦ rw (step-absent vs s root i missing) (
      grow_top-Explains vs s root i (alloc_pt_page vs s) sp (entry-absent (s.pages root i) missing)
        (alloc_pt_page-Explains vs s sp.ready))
]

pub step_mid-Explains :
    (vs : Vspace) (s : PtState) (root i t j : ℕ)
    → IsSpace vs s root
    → table s.pages root (mid i) ≡ some t
    → StepExplains vs s root (low i j) (step_table vs s t j)
step_mid-Explains vs s root i t j sp at =
    let down = λ (o : Option ℕ) (h : entry (s.pages t j) ≡ o).
      ap (λ (x : Option ℕ). child s.pages x j) at ∙ h in
    elim (Bool-cases (is_present (s.pages t j))) [
      | inl there ↦
          rw (step-present vs s t j there)
            (kept vs s root sp, down _ (entry-present (s.pages t j) there))
      | inr missing ↦ rw (step-absent vs s t j missing) (
          grow_mid-Explains vs s root i t j (alloc_pt_page vs s) sp at
            (down _ (entry-absent (s.pages t j) missing)) (alloc_pt_page-Explains vs s sp.ready))
    ]
