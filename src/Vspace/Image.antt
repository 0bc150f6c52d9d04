-- ===== src/Vspace/Image.antt =====
-- Ranges of pages in the translation of an address space, and what one page of it becomes (kernel/src/vspace.c).
use native.Mathlib.Decide.{ℕ_discrete}
use moonlight_os.Prelude.{
  ℕ, suc, ◌+◌, ◌-◌, ◌*◌, ◌%◌, ◌^◌, ◌≤◌, ◌<◌, ◌≡◌, ◌≢◌, ◌⊎◌, inl, inr, refl, sym, ap, ◌∙◌, arith,
  Bool, false, Option, none, some, ◌&&◌, leb, ltb, if◌then◌else◌, bit_or,
}
use moonlight_os.Types.{KError, is_ok}
use moonlight_os.Vspace.{Vspace, PtState, pte_encode, resolve, vpn2, vpn1, vpn0}
use moonlight_os.Vspace.Resolve.{pte_encode-parts, present_odd, frame_of}
use moonlight_os.Vspace.Tree.{leaf_entry, walk}
use moonlight_os.Vspace.Tree.Mapping.{IsSpace}
use moonlight_os.Vspace.Map.{page_of, translate, resolve-walk}

-- Whether an address lies on one of the `k` pages from page `v` on.
abbrev pub is_within : ℕ → ℕ → ℕ → Bool
is_within v k va = leb v (page_of va) && ltb (page_of va) (v + k)

-- The translation of `va`, if the `k` pages from page `v` on have the frames from frame `p` on and the other
-- pages translate as before.
abbrev pub image : ℕ → ℕ → ℕ → ℕ → Option ℕ → Option ℕ
image v p k va before =
    if is_within v k va
    then some (bit_or ((p + (page_of va - v)) * 2 ^ 12) (va % 2 ^ 12))
    else before

pub image-none : (v p va : ℕ) (o : Option ℕ) → image v p 0 va o ≡ o
image-none v p va o = ground arith

-- One page and then the pages after it.
pub image-suc :
    (v p k va : ℕ) (o : Option ℕ)
    → image (v + 1) (p + 1) k va (image v p 1 va o) ≡ image v p (suc k) va o
image-suc v p k va o = ground arith

pub image-here :
    (v p va : ℕ) (o : Option ℕ)
    → v ≡ page_of va
    → some (bit_or (p * 2 ^ 12) (va % 2 ^ 12)) ≡ image v p 1 va o
image-here v p va o e = ground arith

pub image-away : (v p va : ℕ) (o : Option ℕ) → v ≢ page_of va → o ≡ image v p 1 va o
image-away v p va o ne = ground arith

pub image-outside : (v p k va : ℕ) (o : Option ℕ) → is_within v k va ≡ false → image v p k va o ≡ o
image-outside v p k va o h = rw h refl

pub within-one : (v va : ℕ) → (is_within v 1 va ≡ false) ⊎ (v ≡ page_of va)
within-one v va = elim (ℕ_discrete v (page_of va)) [ yes e ↦ inr e | no ne ↦ inl (ground arith) ]

-- An address on none of the pages, or on the first, or on a later one.
pub within-suc :
    (v k va : ℕ)
    → (is_within v 1 va ≡ false)
    → is_within (v + 1) k va ≡ false
    → is_within v (suc k) va ≡ false
within-suc v k va first later = ground arith

pub leaf-translate :
    (ppn flags va : ℕ)
    → ppn < 2 ^ 44
    → flags < 2 ^ 10
    → flags % 2 ≡ 1
    → translate (leaf_entry (pte_encode ppn flags)) va ≡ some (bit_or (ppn * 2 ^ 12) (va % 2 ^ 12))
leaf-translate ppn flags va small few valid =
    let parts = pte_encode-parts ppn flags (omega arith) few in
    rw (present_odd (pte_encode ppn flags) ppn flags parts valid) (
      ap (λ (m : ℕ). some (bit_or m (va % 2 ^ 12)))
        (frame_of (pte_encode ppn flags) ppn flags parts few small))

pub walk-resolve :
    (vs : Vspace) (s : PtState) (root va : ℕ)
    → IsSpace vs s root
    → resolve vs s va ≡ translate (walk s.pages root (vpn2 va) (vpn1 va) (vpn0 va)) va
walk-resolve vs s root va sp = resolve-walk vs s root va sp.rooted

pub same_walk :
    (vs vs' : Vspace) (s s' : PtState) (root va : ℕ)
    → IsSpace vs s root
    → IsSpace vs' s' root
    → walk s'.pages root (vpn2 va) (vpn1 va) (vpn0 va)
      ≡ walk s.pages root (vpn2 va) (vpn1 va) (vpn0 va)
    → resolve vs' s' va ≡ resolve vs s va
same_walk vs vs' s s' root va sp sp' e =
    walk-resolve vs' s' root va sp'
    ∙ ap (λ (o : Option ℕ). translate o va) e
    ∙ sym (walk-resolve vs s root va sp)

-- The pages from page `v` on that a run of the loop has mapped: `k` of them, all `n` if it succeeds.
pub record IsImage (vs : Vspace) (s : PtState) (root v p n : ℕ) (e : KError) (vs' : Vspace)
    (s' : PtState) : Type 0 where
  pub space : IsSpace vs' s' root
  pub k : ℕ
  pub few : k ≤ n
  pub full : (is_ok e ≡ false) ⊎ (k ≡ n)
  pub free : (va : ℕ) → (is_within v k va ≡ false) ⊎ (resolve vs s va ≡ none)
  pub image : (va : ℕ) → resolve vs' s' va ≡ image v p k va (resolve vs s va)
