-- ===== src/Vspace/Unmapping.antt =====
-- The loop of `vspace_unmap`, and mapping and unmapping as inverse (kernel/src/vspace.c).
use mathlib.Core.Path.{subst}
use moonlight_os.Prelude.{
  ℕ, zero, suc, ◌+◌, ◌*◌, ◌/◌, ◌%◌, ◌^◌, ◌≤◌, ◌<◌, ◌≡◌, ◌⊎◌, inl, inr, refl, sym, ap, ◌∙◌, arith,
  true, false, Option, none, some, Bool-cases, add64,
}
use moonlight_os.Types.{KError, ok, is_ok, page_size}
use moonlight_os.Vspace.{Vspace, PtState, unmap_page, unmap_pages, unmap, map, resolve}
use moonlight_os.Vspace.Tree.Mapping.{IsSpace}
use moonlight_os.Vspace.Map.{page_of}
use moonlight_os.Vspace.Image.{is_within, image, IsImage}
use moonlight_os.Vspace.Ranges.{map-cases, map-IsImage}
use moonlight_os.Vspace.Erased.{
  unmap_page-Erases, unmap_page-erased, erased, erased-none, erased-suc, IsErased,
}

IsErased-suc :
    (vs : Vspace) (s s' s'' : PtState) (root v k : ℕ)
    → IsErased vs s root v 1 s'
    → IsErased vs s' root (v + 1) k s''
    → IsErased vs s root v (suc k) s''
IsErased-suc vs s s' s'' root v k one rest = record {
  space = rest.space;
  gone = λ x.
      rest.gone x
      ∙ ap (λ (o : Option ℕ). erased (v + 1) k x o) (one.gone x)
      ∙ erased-suc v k x (resolve vs s x);
}

one-IsErased :
    (vs : Vspace) (s : PtState) (root vaddr off : ℕ)
    → vaddr + off < 2 ^ 39
    → IsSpace vs s root
    → IsErased vs s root ((vaddr + off) / page_size) 1 (unmap_page s root (add64 vaddr off))
one-IsErased vs s root vaddr off high before =
    let va : add64 vaddr off ≡ vaddr + off = omega arith in
    let page : (vaddr + off) / page_size ≡ page_of (vaddr + off) = omega arith in
    let e = unmap_page-Erases vs s root (vaddr + off) before in
    rw (va, page)
      record {
        space = e.space;
        gone = λ x.
            unmap_page-erased vs s (unmap_page s root (vaddr + off)) root (vaddr + off) x before e;
      }

unmap_pages-IsErased :
    (n : ℕ) (vs : Vspace) (s : PtState) (root vaddr off : ℕ)
    → vaddr + off + n * page_size ≤ 2 ^ 39
    → IsSpace vs s root
    → IsErased vs s root ((vaddr + off) / page_size) n (unmap_pages n s root vaddr off)
unfolding unmap_pages
unmap_pages-IsErased zero vs s root vaddr off high before = record {
  space = before;
  gone = λ x. sym (erased-none ((vaddr + off) / page_size) x (resolve vs s x));
}
unmap_pages-IsErased (suc n) vs s root vaddr off high before =
    let s' = unmap_page s root (add64 vaddr off) in
    let one = one-IsErased vs s root vaddr off (omega arith) before in
    let next : (vaddr + (off + page_size)) / page_size ≡ (vaddr + off) / page_size + 1 =
      omega arith in
    let rest = unmap_pages-IsErased n vs s' root vaddr (off + page_size) (omega arith) one.space in
    IsErased-suc vs s s' (unmap_pages n s' root vaddr (off + page_size)) root
      ((vaddr + off) / page_size) n one (rw next at rest)

unmap-aligned :
    (vs : Vspace) (s : PtState) (root vaddr size : ℕ)
    → vs.root ≡ some root
    → vaddr % page_size ≡ 0
    → size % page_size ≡ 0
    → unmap vs s vaddr size ≡ (ok, unmap_pages (size / page_size) s root vaddr 0)
unfolding unmap
unmap-aligned vs s root vaddr size rooted v z = simp (rooted, v, z, unmap) refl

-- `vspace_unmap` of whole pages below 2^39 succeeds and takes the translation of these pages, and of no other.
-- The tables of the address space are a tree of used pages, the allocator works on whole pages below 2^56, and the
-- static pool lies there too; all this holds afterwards.
pub unmap-IsErased :
    (vs : Vspace) (s : PtState) (root vaddr size : ℕ)
    → vaddr % page_size ≡ 0
    → size % page_size ≡ 0
    → vaddr + size ≤ 2 ^ 39
    → IsSpace vs s root
    → (is_ok (unmap vs s vaddr size).0 ≡ true)
      × IsErased vs s root (vaddr / page_size) (size / page_size) (unmap vs s vaddr size).1
unmap-IsErased vs s root vaddr size v z high before =
    let start : vaddr + 0 ≡ vaddr = omega arith in
    let loop = unmap_pages-IsErased (size / page_size) vs s root vaddr 0 (omega arith) before in
    rw (unmap-aligned vs s root vaddr size before.rooted v z) (refl, rw start at loop)

-- Pages that had no translation lose the one they were given.
undone :
    (v p k x : ℕ) (o : Option ℕ)
    → (is_within v k x ≡ false) ⊎ (o ≡ none)
    → erased v k x (image v p k x o) ≡ o
undone v p k x o none_or = elim (Bool-cases (is_within v k x)) [
  | inr away ↦ rw away refl
  | inl within ↦ elim none_or [ inl away ↦ cc | inr free ↦ rw within (sym free) ]
]

undone_all :
    (vs vs' : Vspace) (s s' s'' : PtState) (root v p n x : ℕ)
    → IsImage vs s root v p n ok vs' s'
    → IsErased vs' s' root v n s''
    → resolve vs' s'' x ≡ resolve vs s x
undone_all vs vs' s s' s'' root v p n x i e = elim i.full [
  | inl bad ↦ cc
  | inr all ↦
      e.gone x
      ∙ ap (λ (o : Option ℕ). erased v n x o)
          (i.image x ∙ ap (λ (k : ℕ). image v p k x (resolve vs s x)) all)
      ∙ undone v p n x (resolve vs s x) (rw all at i.free x)
]

-- A range that `vspace_map` has mapped, unmapped with `vspace_unmap`: every address translates as it did before
-- both. The range lies below 2^39 and its frames below 2^56. Before, the tables of the address space are a tree of
-- used pages, the allocator works on whole pages below 2^56, and the static pool lies there too.
pub unmap-map :
    (vs vs' : Vspace) (s s' : PtState) (root vaddr paddr size perms color : ℕ)
    → vaddr + size ≤ 2 ^ 39
    → paddr + size ≤ 2 ^ 56
    → IsSpace vs s root
    → map vs s vaddr paddr size perms color ≡ (ok, vs', s')
    → (x : ℕ) → resolve vs' (unmap vs' s' vaddr size).1 x ≡ resolve vs s x
unmap-map vs vs' s s' root vaddr paddr size perms color high room before run x =
    let i =
      subst
        (λ (r : KError × Vspace × PtState).
          IsImage vs s root (vaddr / page_size) (paddr / page_size) (size / page_size) r.0 r.1 r.2)
        run (map-IsImage vs s root vaddr paddr size perms color high room before) in
    elim (map-cases vs s root vaddr paddr size perms color before.rooted) [
      | inl (e, bad, refused) ↦ cc
      | inr (v, p, z, mapped) ↦
          undone_all vs vs' s s' (unmap vs' s' vaddr size).1 root (vaddr / page_size)
            (paddr / page_size) (size / page_size) x i
            (unmap-IsErased vs' s' root vaddr size v z high i.space).1
    ]
