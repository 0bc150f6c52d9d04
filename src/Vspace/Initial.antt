-- ===== src/Vspace/Initial.antt =====
-- A new address space (kernel/src/vspace.c).
use moonlight_os.Prelude.{
  ℕ, ◌<◌, ◌≡◌, ◌⊎◌, inl, inr, refl, sym, ap, ◌∙◌, arith, Bool, Option, none, some, fill, set_self,
}
use moonlight_os.Types.{KError, ok, no_mem}
use moonlight_os.Vspace.{
  Vspace, PtState, zero_vspace, alloc_pt_page, init_with_alloc, resolve, vpn2, vpn1, vpn0,
}
use moonlight_os.Vspace.Tree.{Pages, Node, top, mid, low, table, child, leaf, IsTree}
use moonlight_os.Vspace.Tree.Fresh.{
  frontier, IsReady, IsAllocated, AllocExplains, alloc_pt_page-Explains,
}
use moonlight_os.Vspace.Tree.Mapping.{IsSpace}
use moonlight_os.Vspace.Map.{translate}
use moonlight_os.Vspace.Image.{walk-resolve}

-- A result of the initialisation: no memory, or an address space without a translation.
abbrev pub IsInitial : KError × Vspace × PtState → Type 0
IsInitial (e, vs, s) =
    (e ≡ no_mem) ⊎ (e ≡ ok) × ((root : ℕ) × IsSpace vs s root) × ((va : ℕ) → resolve vs s va ≡ none)

-- A table of zeros has no table below it.
module _ (pg : Pages) (root : ℕ) (zeros : pg root ≡ fill 0) where
  table-mid : (i : ℕ) → table pg root (mid i) ≡ none
  table-mid i = rw zeros refl

  table-low : (i j : ℕ) → table pg root (low i j) ≡ none
  table-low i j = ap (λ (o : Option ℕ). child pg o j) (table-mid i)

  single-table : (n : Node) (t : ℕ) → table pg root n ≡ some t → (t ≡ root) × (n ≡ top)
  single-table top t e = (cc, refl)
  single-table (mid i) t e = let none_there = table-mid i in cc
  single-table (low i j) t e = let none_there = table-low i j in cc

  pub single-IsTree : (f : ℕ) → root < f → IsTree pg root f
  single-IsTree f small = record {
    below = λ n t e. let (same, top') = single-table n t e in omega arith;
    unshared = λ n n' t e e'. (single-table n t e).1 ∙ sym (single-table n' t e').1;
  }

created :
    (start vs : Vspace) (s s' : PtState) (p : ℕ)
    → IsAllocated start s p vs s'
    → IsInitial (ok, record vs { root = some p }, s')
created start vs s s' p a =
    let vs' = record vs { root = some p } in
    let zeros : s'.pages p ≡ fill 0 =
      ap (λ (pg : Pages). pg p) a.pages ∙ set_self s.pages p (fill 0) in
    let space : IsSpace vs' s' p = record {
      rooted = refl;
      tree = single-IsTree s'.pages p zeros (frontier vs' s') a.used;
      ready = a.ready;
    } in
    inr (
      refl,
      (p, space),
      λ va.
          walk-resolve vs' s' p va space
          ∙ ap (λ (o : Option ℕ). translate o va)
              (ap (λ (o : Option ℕ). leaf s'.pages o (vpn0 va))
                (table-low s'.pages p zeros (vpn2 va) (vpn1 va))),
    )

initial-step :
    (start : Vspace) (s : PtState) (r : Option ℕ × Vspace × PtState)
    → AllocExplains start s r
    → IsInitial
        (elim r.0 [ none ↦ (no_mem, r.1, r.2) | some p ↦ (ok, record r.1 { root = some p }, r.2) ])
initial-step start s (none, vs, s') a = inl refl
initial-step start s (some p, vs, s') a = created start vs s s' p a

-- `vspace_init_with_alloc` has no memory, or it makes an address space whose tables are a tree of used pages and
-- in which no address has a translation. Before, the allocator works on whole pages below 2^56, and the pool
-- lies there too.
pub init_with_alloc-IsInitial :
    (asid part_id : ℕ) (has_alloc : Bool) (s : PtState)
    → IsReady s
    → IsInitial (init_with_alloc asid part_id has_alloc s)
unfolding init_with_alloc
init_with_alloc-IsInitial asid part_id has_alloc s ready =
    let start = record zero_vspace { asid = asid; partition_id = part_id; has_alloc = has_alloc } in
    initial-step start s (alloc_pt_page start s) (alloc_pt_page-Explains start s ready)
