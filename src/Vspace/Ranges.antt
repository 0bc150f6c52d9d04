-- ===== src/Vspace/Ranges.antt =====
-- The loop of `vspace_map` and the function as a change of the translation (kernel/src/vspace.c).
use moonlight_os.Prelude.{
  ℕ, zero, suc, ◌+◌, ◌*◌, ◌/◌, ◌%◌, ◌^◌, ◌≤◌, ◌<◌, ◌≡◌, ◌⊎◌, inl, inr, refl, sym, arith, false,
  some, ◌&&◌, ◌||◌, ◌!=◌, Bool-cases, add64,
}
use moonlight_os.Types.{KError, ok, invalid_arg, partition_denied, is_ok, page_size}
use moonlight_os.Vspace.{Vspace, PtState, map_page, map_pages, map_flags, map, resolve}
use moonlight_os.Vspace.Tree.Mapping.{IsSpace}
use moonlight_os.Vspace.Map.{page_of, map_page-Fills}
use moonlight_os.Vspace.Image.{image-none, IsImage}
use moonlight_os.Vspace.Translation.{Fills-IsImage, IsImage-suc}

abbrev then_rest : ℕ → ℕ → ℕ → ℕ → ℕ → ℕ → KError × Vspace × PtState → KError × Vspace × PtState
then_rest n root vaddr paddr flags off r = elim r.0 [
  | ok ↦ map_pages n r.1 r.2 root vaddr paddr flags (off + page_size)
  | e ↦ r
]

-- A request that stays in the addresses of the tables, with the flags of a leaf.
record IsRequest (vaddr paddr off n flags : ℕ) : Type 0 where
  virtual : vaddr % page_size ≡ 0
  physical : paddr % page_size ≡ 0
  offset : off % page_size ≡ 0
  high : vaddr + off + n * page_size ≤ 2 ^ 39
  room : paddr + off + n * page_size ≤ 2 ^ 56
  few : flags < 2 ^ 10
  valid : flags % 2 ≡ 1

IsRequest-rest :
    (vaddr paddr off n flags : ℕ)
    → IsRequest vaddr paddr off (suc n) flags
    → IsRequest vaddr paddr (off + page_size) n flags
IsRequest-rest vaddr paddr off n flags r = record {
  virtual = r.virtual;
  physical = r.physical;
  offset = let o = r.offset in omega arith;
  high = let h = r.high in omega arith;
  room = let h = r.room in omega arith;
  few = r.few;
  valid = r.valid;
}

-- The first page of a request.
first-IsImage :
    (vs : Vspace) (s : PtState) (root vaddr paddr off n flags : ℕ)
    → IsRequest vaddr paddr off (suc n) flags
    → IsSpace vs s root
    → let r = map_page vs s root (add64 vaddr off) (add64 paddr off) flags in
      IsImage vs s root ((vaddr + off) / page_size) ((paddr + off) / page_size) 1 r.0 r.1 r.2
first-IsImage vs s root vaddr paddr off n flags q before =
    let h = q.high in
    let l = q.room in
    let va : add64 vaddr off ≡ vaddr + off = omega arith in
    let pa : add64 paddr off ≡ paddr + off = omega arith in
    let page : (vaddr + off) / page_size ≡ page_of (vaddr + off) = omega arith in
    rw (va, pa, page)
      (Fills-IsImage vs s root (vaddr + off) (paddr + off) flags
        (map_page vs s root (vaddr + off) (paddr + off) flags) (omega arith) q.few q.valid before
        (map_page-Fills vs s root (vaddr + off) (paddr + off) flags before))

error-IsImage :
    (vs vs' : Vspace) (s s' : PtState) (root v p n : ℕ) (e : KError)
    → is_ok e ≡ false
    → IsImage vs s root v p 1 e vs' s'
    → IsImage vs s root v p (suc n) e vs' s'
error-IsImage vs vs' s s' root v p n e bad i = record {
  space = i.space;
  k = i.k;
  few = let h = i.few in omega arith;
  full = inl bad;
  free = i.free;
  image = i.image;
}

untouched :
    (vs : Vspace) (s : PtState) (root v p n : ℕ) (e : KError)
    → IsSpace vs s root
    → (is_ok e ≡ false) ⊎ (0 ≡ n)
    → IsImage vs s root v p n e vs s
untouched vs s root v p n e before full = record {
  space = before;
  k = 0;
  few = omega arith;
  full = full;
  free = λ x. inl (ground arith);
  image = λ x. sym (image-none v p x (resolve vs s x));
}

abbrev Loops : ℕ → ℕ → ℕ → ℕ → ℕ → ℕ → Type 0
Loops n root vaddr paddr off flags =
    (vs : Vspace) (s : PtState)
    → IsSpace vs s root
    → let r = map_pages n vs s root vaddr paddr flags off in
      IsImage vs s root ((vaddr + off) / page_size) ((paddr + off) / page_size) n r.0 r.1 r.2

next_page : (a off : ℕ) → (a + (off + page_size)) / page_size ≡ (a + off) / page_size + 1
next_page a off = omega arith

then_rest-IsImage :
    (n root vaddr paddr off flags : ℕ) (vs : Vspace) (s : PtState) (r : KError × Vspace × PtState)
    → Loops n root vaddr paddr (off + page_size) flags
    → IsImage vs s root ((vaddr + off) / page_size) ((paddr + off) / page_size) 1 r.0 r.1 r.2
    → let r' = then_rest n root vaddr paddr flags off r in
      IsImage vs s root
        ((vaddr + off) / page_size)
        ((paddr + off) / page_size)
        (suc n)
        r'.0
        r'.1
        r'.2
then_rest-IsImage n root vaddr paddr off flags vs s (ok, vs', s') loops first =
    let r = map_pages n vs' s' root vaddr paddr flags (off + page_size) in
    IsImage-suc vs vs' r.1 s s' r.2 root ((vaddr + off) / page_size) ((paddr + off) / page_size) n
      r.0 first (rw (← next_page vaddr off, ← next_page paddr off) (loops vs' s' first.space))
then_rest-IsImage n root vaddr paddr off flags vs s (_, vs', s') loops first =
    error-IsImage vs vs' s s' root ((vaddr + off) / page_size) ((paddr + off) / page_size) n _ refl
      first

map_pages-IsImage :
    (n root vaddr paddr off flags : ℕ)
    → IsRequest vaddr paddr off n flags
    → Loops n root vaddr paddr off flags
unfolding map_pages
map_pages-IsImage zero root vaddr paddr off flags q vs s before =
    untouched vs s root ((vaddr + off) / page_size) ((paddr + off) / page_size) 0 ok before
      (inr refl)
map_pages-IsImage (suc n) root vaddr paddr off flags q vs s before =
    then_rest-IsImage n root vaddr paddr off flags vs s
      (map_page vs s root (add64 vaddr off) (add64 paddr off) flags)
      (map_pages-IsImage n root vaddr paddr (off + page_size) flags
        (IsRequest-rest vaddr paddr off n flags q))
      (first-IsImage vs s root vaddr paddr off n flags q before)

map_flags-few :
    (vs : Vspace) (perms : ℕ) → (map_flags vs perms < 2 ^ 10) × (map_flags vs perms % 2 ≡ 1)
unfolding map_flags
map_flags-few vs perms = (ground arith, ground arith)

-- A request is refused, or its pages are mapped.
abbrev pub MapCases : Vspace → PtState → ℕ → ℕ → ℕ → ℕ → ℕ → KError × Vspace × PtState → Type 0
MapCases vs s root vaddr paddr size perms r =
    ((e : KError) × (is_ok e ≡ false) × (r ≡ (e, vs, s)))
    ⊎ (vaddr % page_size ≡ 0)
      × (paddr % page_size ≡ 0)
      × (size % page_size ≡ 0)
      × (r ≡ map_pages (size / page_size) vs s root vaddr paddr (map_flags vs perms) 0)

odd_part : (a b c : ℕ) → ((a != 0) || (b != 0) || (c != 0)) ≡ false → (a ≡ 0) × (b ≡ 0) × (c ≡ 0)
odd_part a b c h = (ground arith, ground arith, ground arith)

pub map-cases :
    (vs : Vspace) (s : PtState) (root vaddr paddr size perms color : ℕ)
    → vs.root ≡ some root
    → MapCases vs s root vaddr paddr size perms (map vs s vaddr paddr size perms color)
unfolding map
map-cases vs s root vaddr paddr size perms color rooted =
    let odd = (vaddr % page_size != 0) || (paddr % page_size != 0) || (size % page_size != 0) in
    elim (Bool-cases odd) [
      | inl refuses ↦ inl (invalid_arg, refl, simp (rooted, refuses, map) refl)
      | inr whole ↦ elim (Bool-cases (color % 2 != 0)) [
        | inl refuses ↦ inl (invalid_arg, refl, simp (rooted, whole, refuses, map) refl)
        | inr even ↦ elim (Bool-cases ((vaddr / 2 ^ 12 % 16 != color) && (color != 0))) [
          | inl refuses ↦
              inl (partition_denied, refl, simp (rooted, whole, even, refuses, map) refl)
          | inr same ↦
              let (v, p, z) =
                odd_part (vaddr % page_size) (paddr % page_size) (size % page_size) whole in
              inr (v, p, z, simp (rooted, whole, even, same, map) refl)
        ]
      ]
    ]

-- `vspace_map` changes the translation of the pages that it maps and of no other, from the first page on: all
-- of them if it succeeds, and none or some first ones if it returns an error. What it mapped had no
-- translation. An address belongs to a page by its lowest 39 bits, which are all that the tables look at. The range
-- lies below 2^39 and its frames below 2^56. The tables of the address space are a tree of used pages, the
-- allocator works on whole pages below 2^56, and the static pool lies there too; all this holds afterwards.
pub map-IsImage :
    (vs : Vspace) (s : PtState) (root vaddr paddr size perms color : ℕ)
    → vaddr + size ≤ 2 ^ 39
    → paddr + size ≤ 2 ^ 56
    → IsSpace vs s root
    → let r = map vs s vaddr paddr size perms color in
      IsImage vs s root (vaddr / page_size) (paddr / page_size) (size / page_size) r.0 r.1 r.2
map-IsImage vs s root vaddr paddr size perms color high room before =
    elim (map-cases vs s root vaddr paddr size perms color before.rooted) [
      | inl (e, bad, refused) ↦ rw refused (
          untouched vs s root (vaddr / page_size) (paddr / page_size) (size / page_size) e before
            (inl bad))
      | inr (virtual, physical, sized, run) ↦
          let (few, valid) = map_flags-few vs perms in
          let start : (a : ℕ) → a + 0 ≡ a = λ a. omega arith in
          let mapped =
            map_pages-IsImage (size / page_size) root vaddr paddr 0 (map_flags vs perms)
              record {
                virtual = virtual;
                physical = physical;
                offset = refl;
                high = omega arith;
                room = omega arith;
                few = few;
                valid = valid;
              }
              vs s before in
          rw run (rw (start vaddr, start paddr) at mapped)
    ]
