-- ===== src/Vspace/Map.antt =====
-- Mapping a page changes the translation of its addresses and of no other (kernel/src/vspace.c).
use native.Mathlib.Decide.{ℕ_discrete}
use moonlight_os.Prelude.{
  ℕ, ◌*◌, ◌/◌, ◌%◌, ◌^◌, ◌≡◌, ◌≢◌, ◌⊎◌, inl, inr, refl, sym, ap, ◌∙◌, arith, Option, none, some,
  Bool-cases, bit_or,
}
use moonlight_os.Types.{KError, ok, no_mem}
use moonlight_os.Vspace.{
  Vspace, PtState, is_present, next_table, pte_encode, pte_ppn, step_table, map_leaf, map_page,
  resolve, vpn2, vpn1, vpn0,
}
use moonlight_os.Vspace.Tree.{Node, mid, low, table, leaf, leaf_entry, walk}
use moonlight_os.Vspace.Tree.Writes.{put_low-IsTree, put_low-here, put_low-other}
use moonlight_os.Vspace.Tree.Fresh.{frontier}
use moonlight_os.Vspace.Tree.Mapping.{
  IsSpace, IsKept, StepExplains, step_top-Explains, step_mid-Explains,
}

-- The page of an address among those that the three levels tell apart.
abbrev pub page_of : ℕ → ℕ
page_of va = va / 2 ^ 12 % 2 ^ 27

-- The address that a leaf entry gives.
abbrev pub translate : Option ℕ → ℕ → Option ℕ
translate none va = none
translate (some e) va = some (bit_or (pte_ppn e * 2 ^ 12 % 2 ^ 64) (va % 2 ^ 12))

pub resolve-walk :
    (vs : Vspace) (s : PtState) (root va : ℕ)
    → vs.root ≡ some root
    → resolve vs s va ≡ translate (walk s.pages root (vpn2 va) (vpn1 va) (vpn0 va)) va
unfolding resolve
resolve-walk vs s root va rooted =
    rw (rooted, resolve)
      (elim (Bool-cases (is_present (s.pages root (vpn2 va)))) [
        | inl upper ↦
            rw upper
              (elim (Bool-cases
                (is_present (s.pages (next_table (s.pages root (vpn2 va))) (vpn1 va)))) [
                  | inl middle ↦
                      rw middle
                        (elim (Bool-cases (
                          is_present (
                            s.pages
                              (next_table (s.pages (next_table (s.pages root (vpn2 va))) (vpn1 va)))
                              (vpn0 va)))) [ inl there ↦ rw there refl | inr free ↦ rw free refl ])
                  | inr absent ↦ rw absent refl
                ])
        | inr absent ↦ rw absent refl
      ])

low-inj : {a b i j : ℕ} → low a b ≡ low i j → (a ≡ i) × (b ≡ j)
low-inj e = (cc, cc)

page_eq :
    (va va' : ℕ)
    → vpn2 va' ≡ vpn2 va
    → vpn1 va' ≡ vpn1 va
    → vpn0 va' ≡ vpn0 va
    → page_of va ≡ page_of va'
page_eq va va' upper middle last = omega arith

-- The places of two addresses on different pages differ.
pub places-differ :
    (va va' : ℕ)
    → page_of va ≢ page_of va'
    → (low (vpn2 va') (vpn1 va') ≢ low (vpn2 va) (vpn1 va)) ⊎ (vpn0 va' ≢ vpn0 va)
places-differ va va' ne = elim (ℕ_discrete (vpn0 va') (vpn0 va)) [
  | yes same ↦ inl (λ e. let (upper, middle) = low-inj e in ne (page_eq va va' upper middle same))
  | no other ↦ inr other
]

pub places-same :
    (va va' : ℕ)
    → page_of va ≡ page_of va'
    → (vpn2 va' ≡ vpn2 va) × (vpn1 va' ≡ vpn1 va) × (vpn0 va' ≡ vpn0 va)
places-same va va' e = (omega arith, omega arith, omega arith)

-- What a result of the body of the loop says: on success the entry of the page was free and is now the new
-- one, and no other changed; on an error none changed.
abbrev pub Fills : Vspace → PtState → ℕ → ℕ → ℕ → KError × Vspace × PtState → Type 0
Fills vs s root va pte (ok, vs', s') =
    IsSpace vs' s' root
    × (walk s.pages root (vpn2 va) (vpn1 va) (vpn0 va) ≡ none)
    × (walk s'.pages root (vpn2 va) (vpn1 va) (vpn0 va) ≡ leaf_entry pte)
    × ((a b c : ℕ)
        → (low a b ≢ low (vpn2 va) (vpn1 va)) ⊎ (c ≢ vpn0 va)
        → walk s'.pages root a b c ≡ walk s.pages root a b c)
Fills vs s root va pte (_, vs', s') = IsKept vs s root vs' s'

abbrev finish : ℕ → ℕ → Option ℕ × Vspace × PtState → KError × Vspace × PtState
finish va pte r = elim r.0 [ none ↦ (no_mem, r.1, r.2) | some t ↦ map_leaf r.1 r.2 t (vpn0 va) pte ]

leaf-Fills :
    (vs vs' : Vspace) (s s' : PtState) (root va pte t : ℕ)
    → IsKept vs s root vs' s'
    → table s'.pages root (low (vpn2 va) (vpn1 va)) ≡ some t
    → Fills vs s root va pte (map_leaf vs' s' t (vpn0 va) pte)
unfolding map_leaf
leaf-Fills vs vs' s s' root va pte t k at = elim (Bool-cases (is_present (s'.pages t (vpn0 va)))) [
  | inl taken ↦ rw taken k
  | inr free ↦ rw free (
    record {
      rooted = k.space.rooted;
      tree =
          put_low-IsTree s'.pages root (frontier vs' s') (vpn2 va) (vpn1 va) t (vpn0 va) pte
            k.space.tree at;
      ready = record {
        pool = k.space.ready.pool;
        whole = k.space.ready.whole;
        top = k.space.ready.top;
        static = k.space.ready.static;
      };
    },
    sym (k.walks (vpn2 va) (vpn1 va) (vpn0 va))
        ∙ ap (λ (o : Option ℕ). leaf s'.pages o (vpn0 va)) at
        ∙ rw free refl,
    put_low-here s'.pages root (frontier vs' s') (vpn2 va) (vpn1 va) t (vpn0 va) pte k.space.tree
        at,
    λ a b c away.
        put_low-other s'.pages root (frontier vs' s') (vpn2 va) (vpn1 va) t (vpn0 va) pte
          k.space.tree at a b c away
        ∙ k.walks a b c,
  )
]

low-Fills :
    (vs : Vspace) (s : PtState) (root va pte : ℕ) (r : Option ℕ × Vspace × PtState)
    → StepExplains vs s root (low (vpn2 va) (vpn1 va)) r
    → Fills vs s root va pte (finish va pte r)
low-Fills vs s root va pte (none, vs', s') k = k
low-Fills vs s root va pte (some t, vs', s') (k, at) = leaf-Fills vs vs' s s' root va pte t k at

-- What holds after a second step holds from the start.
pub IsKept-trans :
    (vs vs' vs'' : Vspace) (s s' s'' : PtState) (root : ℕ)
    → IsKept vs s root vs' s'
    → IsKept vs' s' root vs'' s''
    → IsKept vs s root vs'' s''
IsKept-trans vs vs' vs'' s s' s'' root k k' = record {
  space = k'.space;
  walks = λ a b c. k'.walks a b c ∙ k.walks a b c;
}

StepExplains-after :
    (vs vs' : Vspace) (s s' : PtState) (root : ℕ) (n : Node) (r : Option ℕ × Vspace × PtState)
    → IsKept vs s root vs' s'
    → StepExplains vs' s' root n r
    → StepExplains vs s root n r
StepExplains-after vs vs' s s' root n (none, vs'', s'') k k' =
    IsKept-trans vs vs' vs'' s s' s'' root k k'
StepExplains-after vs vs' s s' root n (some t, vs'', s'') k (k', at) =
    (IsKept-trans vs vs' vs'' s s' s'' root k k', at)

abbrev go_on : ℕ → ℕ → Option ℕ × Vspace × PtState → KError × Vspace × PtState
go_on va pte r = elim r.0 [
  | none ↦ (no_mem, r.1, r.2)
  | some t ↦ finish va pte (step_table r.1 r.2 t (vpn1 va))
]

mid-Fills :
    (vs : Vspace) (s : PtState) (root va pte : ℕ) (r : Option ℕ × Vspace × PtState)
    → StepExplains vs s root (mid (vpn2 va)) r
    → Fills vs s root va pte (go_on va pte r)
mid-Fills vs s root va pte (none, vs', s') k = k
mid-Fills vs s root va pte (some t, vs', s') (k, at) =
    low-Fills vs s root va pte (step_table vs' s' t (vpn1 va)) (
      StepExplains-after vs vs' s s' root (low (vpn2 va) (vpn1 va)) _ k
        (step_mid-Explains vs' s' root (vpn2 va) t (vpn1 va) k.space at))

pub map_page-Fills :
    (vs : Vspace) (s : PtState) (root va pa flags : ℕ)
    → IsSpace vs s root
    → Fills vs s root va (pte_encode (pa / 2 ^ 12) flags) (map_page vs s root va pa flags)
unfolding map_page
map_page-Fills vs s root va pa flags sp =
    mid-Fills vs s root va (pte_encode (pa / 2 ^ 12) flags) (step_table vs s root (vpn2 va))
      (step_top-Explains vs s root (vpn2 va) sp)
