-- ===== src/Vspace/Erased.antt =====
-- `vspace_unmap` as a change of the translation (kernel/src/vspace.c).
use native.Mathlib.Decide.{ℕ_discrete}
use moonlight_os.Prelude.{
  ℕ, suc, ◌+◌, ◌≡◌, ◌≢◌, ◌⊎◌, inl, inr, refl, ap, ◌∙◌, arith, Option, none, some, if◌then◌else◌,
  Bool-cases,
}
use moonlight_os.Vspace.{
  Vspace, PtState, is_present, next_table, write_entry, unmap_page, resolve, vpn2, vpn1, vpn0,
}
use moonlight_os.Vspace.Tree.{low, table, child, entry, leaf, walk}
use moonlight_os.Vspace.Tree.Writes.{put_low-IsTree, put_low-here, put_low-other}
use moonlight_os.Vspace.Tree.Fresh.{frontier}
use moonlight_os.Vspace.Tree.Mapping.{IsSpace, entry-absent, entry-present}
use moonlight_os.Vspace.Map.{page_of, translate, places-differ, places-same}
use moonlight_os.Vspace.Image.{is_within, walk-resolve, same_walk}

-- What the body of the loop leaves: the page has no leaf entry, and every other page has the one it had.
pub record Erases (vs : Vspace) (s : PtState) (root va : ℕ) (s' : PtState) : Type 0 where
  pub space : IsSpace vs s' root
  here : walk s'.pages root (vpn2 va) (vpn1 va) (vpn0 va) ≡ none
  others :
      (a b c : ℕ)
      → (low a b ≢ low (vpn2 va) (vpn1 va)) ⊎ (c ≢ vpn0 va)
      → walk s'.pages root a b c ≡ walk s.pages root a b c

no_table :
    (vs : Vspace) (s : PtState) (root va : ℕ)
    → IsSpace vs s root
    → table s.pages root (low (vpn2 va) (vpn1 va)) ≡ none
    → Erases vs s root va s
no_table vs s root va before absent = record {
  space = before;
  here = ap (λ (o : Option ℕ). leaf s.pages o (vpn0 va)) absent;
  others = λ a b c away. refl;
}

wiped :
    (vs : Vspace) (s : PtState) (root va t : ℕ)
    → IsSpace vs s root
    → table s.pages root (low (vpn2 va) (vpn1 va)) ≡ some t
    → Erases vs s root va (write_entry s t (vpn0 va) 0)
wiped vs s root va t before at = record {
  space = record {
    rooted = before.rooted;
    tree =
        put_low-IsTree s.pages root (frontier vs s) (vpn2 va) (vpn1 va) t (vpn0 va) 0 before.tree
          at;
    ready = record {
      pool = before.ready.pool;
      whole = before.ready.whole;
      top = before.ready.top;
      static = before.ready.static;
    };
  };
  here = put_low-here s.pages root (frontier vs s) (vpn2 va) (vpn1 va) t (vpn0 va) 0 before.tree at;
  others =
      put_low-other s.pages root (frontier vs s) (vpn2 va) (vpn1 va) t (vpn0 va) 0 before.tree at;
}

pub unmap_page-Erases :
    (vs : Vspace) (s : PtState) (root va : ℕ)
    → IsSpace vs s root
    → Erases vs s root va (unmap_page s root va)
unfolding unmap_page
unmap_page-Erases vs s root va before =
    let e2 = s.pages root (vpn2 va) in
    let e1 = s.pages (next_table e2) (vpn1 va) in
    let down =
      λ (o : Option ℕ) (h : entry e2 ≡ o). ap (λ (x : Option ℕ). child s.pages x (vpn1 va)) h in
    elim (Bool-cases (is_present e2)) [
      | inr absent ↦ rw absent (no_table vs s root va before (down none (entry-absent e2 absent)))
      | inl upper ↦ elim (Bool-cases (is_present e1)) [
        | inr absent ↦
            rw (upper, absent)
              (no_table vs s root va before
                (down (some (next_table e2)) (entry-present e2 upper) ∙ entry-absent e1 absent))
        | inl middle ↦
            rw (upper, middle)
              (wiped vs s root va (next_table e1) before
                (down (some (next_table e2)) (entry-present e2 upper) ∙ entry-present e1 middle))
      ]
    ]

-- The translation without the `k` pages from page `v` on.
abbrev pub erased : ℕ → ℕ → ℕ → Option ℕ → Option ℕ
erased v k va before = if is_within v k va then none else before

pub erased-none : (v va : ℕ) (o : Option ℕ) → erased v 0 va o ≡ o
erased-none v va o = ground arith

pub erased-suc :
    (v k va : ℕ) (o : Option ℕ) → erased (v + 1) k va (erased v 1 va o) ≡ erased v (suc k) va o
erased-suc v k va o = ground arith

erased-here : (v va : ℕ) (o : Option ℕ) → v ≡ page_of va → none ≡ erased v 1 va o
erased-here v va o e = ground arith

erased-away : (v va : ℕ) (o : Option ℕ) → v ≢ page_of va → o ≡ erased v 1 va o
erased-away v va o ne = ground arith

pub unmap_page-erased :
    (vs : Vspace) (s s' : PtState) (root va x : ℕ)
    → IsSpace vs s root
    → Erases vs s root va s'
    → resolve vs s' x ≡ erased (page_of va) 1 x (resolve vs s x)
unmap_page-erased vs s s' root va x before e = elim (ℕ_discrete (page_of va) (page_of x)) [
  | yes same ↦
      let (upper, middle, last) = places-same va x same in
      walk-resolve vs s' root x e.space
      ∙ rw (upper, middle, last) (ap (λ (o : Option ℕ). translate o x) e.here)
      ∙ erased-here (page_of va) x (resolve vs s x) same
  | no other ↦
      same_walk vs vs s s' root x before e.space
        (e.others (vpn2 x) (vpn1 x) (vpn0 x) (places-differ va x other))
      ∙ erased-away (page_of va) x (resolve vs s x) other
]

-- An address space whose translation is that of another without some pages.
pub record IsErased (vs : Vspace) (s : PtState) (root v k : ℕ) (s' : PtState) : Type 0 where
  pub space : IsSpace vs s' root
  pub gone : (va : ℕ) → resolve vs s' va ≡ erased v k va (resolve vs s va)
