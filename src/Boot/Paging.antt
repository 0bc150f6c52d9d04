-- ===== src/Boot/Paging.antt =====
-- The address space of the kernel after kernel/src/boot.c has mapped the kernel and the UART.
use moonlight_os.Prelude.{
  ℕ, ◌+◌, ◌-◌, ◌*◌, ◌%◌, ◌^◌, ◌≤◌, ◌≡◌, inl, inr, refl, ap, ◌∙◌, arith, Bool, true, false, not,
  Option, none, some, Array, ◌||◌, if◌then◌else◌, Bool-cases, bit_or,
}
use moonlight_os.Types.{KError, is_ok, page_size}
use moonlight_os.Alloc.{frame, align, color_for_partition, init}
use moonlight_os.Vspace.{
  Vspace, PtState, init_with_alloc, map, map_pages, map_page, map_flags, map_leaf, step_table,
  alloc_pt_page, alloc_from, resolve,
}
use moonlight_os.Vspace.Resolve.{bit_or-shift}
use moonlight_os.Vspace.Tree.Fresh.{IsReady}
use moonlight_os.Vspace.Tree.Mapping.{IsSpace}
use moonlight_os.Vspace.Map.{page_of}
use moonlight_os.Vspace.Image.{is_within, image, IsImage}
use moonlight_os.Vspace.Ranges.{map-IsImage}
use moonlight_os.Vspace.Initial.{IsInitial, init_with_alloc-IsInitial}
use moonlight_os.Boot.{boot_paging, boot_memory, k_base, uart_base, k_size, map_uart}

-- The pages of the kernel and of the UART.
abbrev pub is_shared : ℕ → Bool
is_shared va = is_within 0x8_0000 0x400 va || is_within 0x1_0000 1 va

-- The translation that maps these pages to themselves, by the lowest 39 bits of an address.
abbrev pub identity : ℕ → Option ℕ
identity va = if is_shared va then some (va % 2 ^ 39) else none

abbrev pub IsIdentity : Option (Vspace × PtState) → Type 0
IsIdentity none = ⊥
IsIdentity (some (vs, s)) =
    ((root : ℕ) × IsSpace vs s root) × ((va : ℕ) → resolve vs s va ≡ identity va)

-- A kernel that ends below 0x8040_0000 is mapped by 1024 pages.
k_size-least : (k_end : ℕ) → k_base ≤ k_end → k_end ≤ k_base + 0x40_0000 → k_size k_end ≡ 0x40_0000
k_size-least k_end low high = ground arith

address-parts : (va : ℕ) → bit_or (page_of va * 2 ^ 12) (va % 2 ^ 12) ≡ va % 2 ^ 39
address-parts va = omega (arith, bit_or-shift 12 (page_of va) (va % 2 ^ 12) (omega arith))

same-page :
    (v k va : ℕ) (o : Option ℕ)
    → image v v k va o ≡ (if is_within v k va then some (va % 2 ^ 39) else o)
same-page v k va o = elim (Bool-cases (is_within v k va)) [
  | inl within ↦
      let at : v + (page_of va - v) ≡ page_of va = ground arith in
      rw within (rw at (ap (λ (m : ℕ). some m) (address-parts va)))
  | inr away ↦ rw away refl
]

either {ℓ} :
    {A : Type ℓ} (a b : Bool) (x y : A)
    → (if b then x else (if a then x else y)) ≡ (if a || b then x else y)
either true true x y = refl
either true false x y = refl
either false true x y = refl
either false false x y = refl

identity-images :
    (va : ℕ) → image 0x1_0000 0x1_0000 1 va (image 0x8_0000 0x8_0000 0x400 va none) ≡ identity va
identity-images va =
    same-page 0x1_0000 1 va (image 0x8_0000 0x8_0000 0x400 va none)
    ∙ ap (λ (o : Option ℕ). if is_within 0x1_0000 1 va then some (va % 2 ^ 39) else o)
        (same-page 0x8_0000 0x400 va none)
    ∙ either (is_within 0x8_0000 0x400 va) (is_within 0x1_0000 1 va) (some (va % 2 ^ 39)) none

-- The number of pages that a successful call maps.
all_mapped :
    (vs vs' : Vspace) (s s' : PtState) (root v n : ℕ) (e : KError)
    → is_ok e ≡ true
    → IsImage vs s root v v n e vs' s'
    → (va : ℕ) → resolve vs' s' va ≡ image v v n va (resolve vs s va)
all_mapped vs vs' s s' root v n e good i va = elim i.full [
  | inl bad ↦ cc
  | inr all ↦ i.image va ∙ ap (λ (k : ℕ). image v v k va (resolve vs s va)) all
]

abbrev is_some {ℓ} : {A : Type ℓ} → Option A → Bool
is_some none = false
is_some (some _) = true

uart-IsIdentity :
    (vs : Vspace) (s : PtState) (root : ℕ) (r : KError × Vspace × PtState)
    → ((va : ℕ) → resolve vs s va ≡ none)
    → IsImage vs s root 0x8_0000 0x8_0000 0x400 r.0 r.1 r.2
    → is_some (map_uart r) ≡ true
    → IsIdentity (map_uart r)
uart-IsIdentity vs s root r new kernel runs = elim (Bool-cases (is_ok r.0)) [
  | inr bad ↦ let h : false ≡ true = rw bad at runs in cc
  | inl good ↦
      let u = map r.1 r.2 uart_base uart_base page_size 3 0 in
      let uart =
        map-IsImage r.1 r.2 root uart_base uart_base page_size 3 0 (omega arith) (omega arith)
          kernel.space in
      elim (Bool-cases (is_ok u.0)) [
        | inr bad ↦ let h : false ≡ true = rw (good, bad) at runs in cc
        | inl good' ↦
            rw (good, good')
              (
                (root, uart.space),
                λ va.
                    all_mapped r.1 u.1 r.2 u.2 root 0x1_0000 1 u.0 good' uart va
                    ∙ ap (λ (o : Option ℕ). image 0x1_0000 0x1_0000 1 va o)
                        (all_mapped vs r.1 s r.2 root 0x8_0000 0x400 r.0 good kernel va
                          ∙ ap (λ (o : Option ℕ). image 0x8_0000 0x8_0000 0x400 va o) (new va))
                    ∙ identity-images va,
              )
      ]
]

abbrev kernel_then_uart : KError × Vspace × PtState → Option (Vspace × PtState)
kernel_then_uart r =
    if not (is_ok r.0) then none else map_uart (map r.1 r.2 k_base k_base 0x40_0000 7 0)

kernel-IsIdentity :
    (r : KError × Vspace × PtState)
    → IsInitial r
    → is_some (kernel_then_uart r) ≡ true
    → IsIdentity (kernel_then_uart r)
kernel-IsIdentity (e, vs, s) (inl bad) runs = let h : false ≡ true = rw bad at runs in cc
kernel-IsIdentity (e, vs, s) (inr (good, (root, space), new)) runs = rw good (
    uart-IsIdentity vs s root (map vs s k_base k_base 0x40_0000 7 0) new
      (map-IsImage vs s root k_base k_base 0x40_0000 7 0 (omega arith) (omega arith) space)
      (rw good at runs))

boot_memory-IsReady :
    (pages : Array (Array ℕ)) (pool : ℕ) → pool + 64 ≤ 2 ^ 44 → IsReady (boot_memory pages pool)
unfolding init
boot_memory-IsReady pages pool low = record {
  pool = record { low = omega arith; high = omega arith; room = omega arith };
  whole = refl;
  top = omega arith;
  static = low;
}

-- The allocator has the pages that the tables need.
boot_paging-runs :
    (pages : Array (Array ℕ)) (pool : ℕ)
    → is_some (kernel_then_uart (init_with_alloc 1 0 true (boot_memory pages pool))) ≡ true
unfolding init_with_alloc map map_pages map_page map_flags map_leaf step_table alloc_pt_page
    alloc_from frame align color_for_partition init
boot_paging-runs pages pool = refl

boot_paging-least :
    (pages : Array (Array ℕ)) (pool k_end : ℕ)
    → k_base ≤ k_end
    → k_end ≤ k_base + 0x40_0000
    → boot_paging k_end (boot_memory pages pool)
      ≡ kernel_then_uart (init_with_alloc 1 0 true (boot_memory pages pool))
unfolding boot_paging
boot_paging-least pages pool k_end low high =
    ap
      (λ (size : ℕ).
        let r = init_with_alloc 1 0 true (boot_memory pages pool) in
        if not (is_ok r.0) then none else map_uart (map r.1 r.2 k_base k_base size 7 0))
      (k_size-least k_end low high)

-- The kernel does not halt when it sets up its address space, if its image starts at 0x8000_0000 and ends at
-- 0x8040_0000 at the latest, and the static pool of tables lies below 2^56. An address then translates by its
-- lowest 39 bits, which are all that the tables look at: those of the 1024 pages from 0x8000_0000 on and of the
-- page of the UART translate to themselves, and all others have no translation. What the memory held before does
-- not matter.
pub boot_paging-IsIdentity :
    (pages : Array (Array ℕ)) (pool k_end : ℕ)
    → pool + 64 ≤ 2 ^ 44
    → k_base ≤ k_end
    → k_end ≤ k_base + 0x40_0000
    → IsIdentity (boot_paging k_end (boot_memory pages pool))
boot_paging-IsIdentity pages pool k_end small low high =
    rw (boot_paging-least pages pool k_end low high) (
      kernel-IsIdentity (init_with_alloc 1 0 true (boot_memory pages pool))
        (init_with_alloc-IsInitial 1 0 true (boot_memory pages pool)
          (boot_memory-IsReady pages pool small))
        (boot_paging-runs pages pool))
