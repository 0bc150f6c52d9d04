-- ===== src/Vspace/Tree.antt =====
-- The tables of an address space as a tree without sharing (kernel/src/vspace.c).
pub mod Writes
pub mod Growth
pub mod Fresh
pub mod Mapping
use native.Mathlib.Decide.{ℕ_discrete}
use mathlib.Core.Path.{subst}
use moonlight_os.Prelude.{
  ℕ, zero, suc, ◌+◌, ◌%◌, ◌^◌, ◌≤◌, ◌<◌, ◌≡◌, ◌≢◌, ◌⊎◌, inl, inr, refl, sym, ◌∙◌, arith, Bool, true,
  false, Option, none, some, Array, set, fill, if◌then◌else◌, set_self, set_ne, Bool-cases,
  Option-cases,
}
use moonlight_os.Vspace.{is_present, next_table}

abbrev pub Pages : Type 0
Pages = Array (Array ℕ)

-- The places of a table: the root, or below an entry of the root, or below an entry of such a table.
pub data Node : Type 0 where
  top : Node
  mid : ℕ → Node
  low : ℕ → ℕ → Node

-- The table that an entry points to.
abbrev pub entry : ℕ → Option ℕ
entry pte = if is_present pte then some (next_table pte) else none

abbrev pub child : Pages → Option ℕ → ℕ → Option ℕ
child pg none i = none
child pg (some t) i = entry (pg t i)

-- The table at a place.
abbrev pub table : Pages → ℕ → Node → Option ℕ
table pg root top = some root
table pg root (mid i) = entry (pg root i)
table pg root (low i j) = child pg (entry (pg root i)) j

-- The leaf entry of a page.
abbrev pub leaf_entry : ℕ → Option ℕ
leaf_entry pte = if is_present pte then some pte else none

abbrev pub leaf : Pages → Option ℕ → ℕ → Option ℕ
leaf pg none k = none
leaf pg (some t) k = leaf_entry (pg t k)

abbrev pub walk : Pages → ℕ → ℕ → ℕ → ℕ → Option ℕ
walk pg root i j k = leaf pg (table pg root (low i j)) k

-- Every table is a page below the limit `f`, and no page is the table of two places.
pub record IsTree (pg : Pages) (root f : ℕ) : Type 0 where
  pub below : (n : Node) (t : ℕ) → table pg root n ≡ some t → t < f
  pub unshared :
      (n n' : Node) (t : ℕ) → table pg root n ≡ some t → table pg root n' ≡ some t → n ≡ n'

pub Node-discrete : Discrete Node
Node-discrete = hlevel (ℕ_discrete)

same_page :
    (pg : Pages) (root t p : ℕ) (n m : Node)
    → n ≡ m
    → table pg root n ≡ some t
    → table pg root m ≡ some p
    → t ≡ p
same_page pg root t p n m same e here =
    let e' : table pg root m ≡ some t = subst (λ x. table pg root x ≡ some t) (same) e in
    let both : some t ≡ some p = sym e' ∙ here in cc

-- A fresh page is the table of no other place.
fresh_page :
    (pg pg' : Pages) (root f p t : ℕ) (n m : Node)
    → IsTree pg root f
    → f ≤ p
    → table pg' root m ≡ some p
    → ((n : Node) → n ≢ m → table pg' root n ≡ table pg root n)
    → n ≢ m
    → table pg' root n ≡ some t
    → t < f
fresh_page pg pg' root f p t n m tree old here others other e =
    tree.below n t (sym (others n other) ∙ e)

-- One more table, at a place that had none, on a fresh page.
pub IsTree-extend :
    (pg pg' : Pages) (root f f' p : ℕ) (m : Node)
    → IsTree pg root f
    → f ≤ p
    → p < f'
    → table pg' root m ≡ some p
    → ((n : Node) → n ≢ m → table pg' root n ≡ table pg root n)
    → IsTree pg' root f'
IsTree-extend pg pg' root f f' p m tree old new here others = record {
  below = λ n t e. elim (Node-discrete n m) [
    | yes same ↦ let q = same_page pg' root t p n m same e here in omega arith
    | no other ↦
        let h = fresh_page pg pg' root f p t n m tree old here others other e in omega arith
  ];
  unshared = λ n n' t e e'. elim (Node-discrete n m) [
    | yes same ↦ elim (Node-discrete n' m) [
      | yes same' ↦ same ∙ sym same'
      | no other' ↦
          let q = same_page pg' root t p n m same e here in
          let h = fresh_page pg pg' root f p t n' m tree old here others other' e' in
          absurd (omega arith)
    ]
    | no other ↦ elim (Node-discrete n' m) [
      | yes same' ↦
          let q = same_page pg' root t p n' m same' e' here in
          let h = fresh_page pg pg' root f p t n m tree old here others other e in
          absurd (omega arith)
      | no other' ↦ tree.unshared n n' t (sym (others n other) ∙ e) (sym (others n' other') ∙ e')
    ]
  ];
}

-- The same tables.
pub IsTree-same :
    (pg pg' : Pages) (root f f' : ℕ)
    → IsTree pg root f
    → f ≤ f'
    → ((n : Node) → table pg' root n ≡ table pg root n)
    → IsTree pg' root f'
IsTree-same pg pg' root f f' tree le same = record {
  below = λ n t e. let h = tree.below n t (sym (same n) ∙ e) in omega arith;
  unshared = λ n n' t e e'. tree.unshared n n' t (sym (same n) ∙ e) (sym (same n') ∙ e');
}
