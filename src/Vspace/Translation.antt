-- ===== src/Vspace/Translation.antt =====
-- `vspace_map` and `vspace_unmap` as changes of the translation (kernel/src/vspace.c).
use native.Mathlib.Decide.{ℕ_discrete}
use moonlight_os.Prelude.{
  ℕ, suc, ◌+◌, ◌*◌, ◌/◌, ◌%◌, ◌^◌, ◌<◌, ◌≡◌, ◌≢◌, ◌⊎◌, inl, inr, refl, sym, ap, ◌∙◌, arith, false,
  Option, none, some, bit_or,
}
use moonlight_os.Types.{KError, ok, is_ok}
use moonlight_os.Vspace.{Vspace, PtState, pte_encode, resolve, vpn2, vpn1, vpn0}
use moonlight_os.Vspace.Tree.Mapping.{IsSpace, IsKept}
use moonlight_os.Vspace.Map.{page_of, translate, places-differ, places-same, Fills}
use moonlight_os.Vspace.Image.{
  is_within, image, image-here, image-outside, image-away, within-one, within-suc, image-none,
  image-suc, leaf-translate, walk-resolve, same_walk, IsImage,
}

-- The page that was mapped.
mapped_here :
    (vs vs' : Vspace) (s s' : PtState) (root va pa flags x : ℕ)
    → pa < 2 ^ 56
    → flags < 2 ^ 10
    → flags % 2 ≡ 1
    → Fills vs s root va (pte_encode (pa / 2 ^ 12) flags) (ok, vs', s')
    → page_of va ≡ page_of x
    → resolve vs' s' x ≡ some (bit_or (pa / 2 ^ 12 * 2 ^ 12) (x % 2 ^ 12))
mapped_here vs vs' s s' root va pa flags x small few valid (sp, free, here, others) same =
    let (upper, middle, last) = places-same va x same in
    walk-resolve vs' s' root x sp
    ∙ rw (upper, middle, last) (ap (λ (o : Option ℕ). translate o x) here)
    ∙ leaf-translate (pa / 2 ^ 12) flags x (omega arith) few valid

mapped_there :
    (vs vs' : Vspace) (s s' : PtState) (root va pte x : ℕ)
    → IsSpace vs s root
    → Fills vs s root va pte (ok, vs', s')
    → page_of va ≢ page_of x
    → resolve vs' s' x ≡ resolve vs s x
mapped_there vs vs' s s' root va pte x before (sp, free, here, others) ne =
    same_walk vs vs' s s' root x before sp
      (others (vpn2 x) (vpn1 x) (vpn0 x) (places-differ va x ne))

single :
    (vs vs' : Vspace) (s s' : PtState) (root va pa flags x : ℕ)
    → pa < 2 ^ 56
    → flags < 2 ^ 10
    → flags % 2 ≡ 1
    → IsSpace vs s root
    → Fills vs s root va (pte_encode (pa / 2 ^ 12) flags) (ok, vs', s')
    → resolve vs' s' x ≡ image (page_of va) (pa / 2 ^ 12) 1 x (resolve vs s x)
single vs vs' s s' root va pa flags x small few valid before fills =
    elim (ℕ_discrete (page_of va) (page_of x)) [
      | yes same ↦
          mapped_here vs vs' s s' root va pa flags x small few valid fills same
          ∙ image-here (page_of va) (pa / 2 ^ 12) x (resolve vs s x) same
      | no other ↦
          mapped_there vs vs' s s' root va (pte_encode (pa / 2 ^ 12) flags) x before fills other
          ∙ image-away (page_of va) (pa / 2 ^ 12) x (resolve vs s x) other
    ]

was_free :
    (vs vs' : Vspace) (s s' : PtState) (root va pte x : ℕ)
    → IsSpace vs s root
    → Fills vs s root va pte (ok, vs', s')
    → (is_within (page_of va) 1 x ≡ false) ⊎ (resolve vs s x ≡ none)
was_free vs vs' s s' root va pte x before (sp, free, here, others) =
    elim (within-one (page_of va) x) [
      | inl away ↦ inl away
      | inr same ↦
          let (upper, middle, last) = places-same va x same in
          inr (
            walk-resolve vs s root x before
            ∙ rw (upper, middle, last) (ap (λ (o : Option ℕ). translate o x) free))
    ]

unchanged :
    (vs vs' : Vspace) (s s' : PtState) (root v p n : ℕ) (e : KError)
    → is_ok e ≡ false
    → IsSpace vs s root
    → IsKept vs s root vs' s'
    → IsImage vs s root v p n e vs' s'
unchanged vs vs' s s' root v p n e bad before k = record {
  space = k.space;
  k = 0;
  few = omega arith;
  full = inl bad;
  free = λ x. inl (ground arith);
  image = λ x.
      same_walk vs vs' s s' root x before k.space (k.walks (vpn2 x) (vpn1 x) (vpn0 x))
      ∙ sym (image-none v p x (resolve vs s x));
}

pub Fills-IsImage :
    (vs : Vspace) (s : PtState) (root va pa flags : ℕ) (r : KError × Vspace × PtState)
    → pa < 2 ^ 56
    → flags < 2 ^ 10
    → flags % 2 ≡ 1
    → IsSpace vs s root
    → Fills vs s root va (pte_encode (pa / 2 ^ 12) flags) r
    → IsImage vs s root (page_of va) (pa / 2 ^ 12) 1 r.0 r.1 r.2
Fills-IsImage vs s root va pa flags (ok, vs', s') small few valid before fills = record {
  space = fills.0;
  k = 1;
  few = omega arith;
  full = inr refl;
  free = λ x. was_free vs vs' s s' root va (pte_encode (pa / 2 ^ 12) flags) x before fills;
  image = λ x. single vs vs' s s' root va pa flags x small few valid before fills;
}
Fills-IsImage vs s root va pa flags (_, vs', s') small few valid before fills =
    unchanged vs vs' s s' root (page_of va) (pa / 2 ^ 12) 1 _ refl before fills

one_page :
    (vs vs' : Vspace) (s s' : PtState) (root v p : ℕ)
    → IsImage vs s root v p 1 ok vs' s'
    → (x : ℕ)
    → ((is_within v 1 x ≡ false) ⊎ (resolve vs s x ≡ none))
      × (resolve vs' s' x ≡ image v p 1 x (resolve vs s x))
one_page vs vs' s s' root v p i x = elim i.full [
  | inl bad ↦ cc
  | inr one ↦ rw (← one) (i.free x, i.image x)
]

rest_free :
    (vs vs' : Vspace) (s s' : PtState) (root v p k : ℕ)
    → IsImage vs s root v p 1 ok vs' s'
    → (x : ℕ) → (is_within (v + 1) k x ≡ false) ⊎ (resolve vs' s' x ≡ none)
    → (is_within v (suc k) x ≡ false) ⊎ (resolve vs s x ≡ none)
rest_free vs vs' s s' root v p k i x later =
    let (first, img) = one_page vs vs' s s' root v p i x in
    elim first [
      | inr free ↦ inr free
      | inl away ↦ elim later [
        | inl away' ↦ inl (within-suc v k x away away')
        | inr free ↦ inr (sym (image-outside v p 1 x (resolve vs s x) away) ∙ sym img ∙ free)
      ]
    ]

-- The first page and then the pages after it.
pub IsImage-suc :
    (vs vs' vs'' : Vspace) (s s' s'' : PtState) (root v p n : ℕ) (e : KError)
    → IsImage vs s root v p 1 ok vs' s'
    → IsImage vs' s' root (v + 1) (p + 1) n e vs'' s''
    → IsImage vs s root v p (suc n) e vs'' s''
IsImage-suc vs vs' vs'' s s' s'' root v p n e one rest = record {
  space = rest.space;
  k = suc rest.k;
  few = let h = rest.few in omega arith;
  full = elim rest.full [ inl bad ↦ inl bad | inr all ↦ inr (ap suc all) ];
  free = λ x. rest_free vs vs' s s' root v p rest.k one x (rest.free x);
  image = λ x.
      rest.image x
      ∙ ap (λ (o : Option ℕ). image (v + 1) (p + 1) rest.k x o)
          (one_page vs vs' s s' root v p one x).1
      ∙ image-suc v p rest.k x (resolve vs s x);
}
