-- ===== src/Vspace/Tree/Fresh.antt =====
-- Pages for new tables are pages that no table uses (kernel/src/vspace.c over kernel/src/alloc.c).
use mathlib.Core.Path.{subst}
use moonlight_os.Prelude.{
  ℕ, ◌+◌, ◌*◌, ◌/◌, ◌%◌, ◌^◌, ◌≤◌, ◌<◌, ◌≡◌, inl, inr, refl, sym, arith, Bool, true, false, ◌||◌,
  Option, none, some, set, fill, leb, if◌then◌else◌, Bool-cases,
}
use moonlight_os.Types.{ok, is_ok, page_size}
use moonlight_os.Cap.{Cap, zero_cap, pointer}
use moonlight_os.Alloc.{FrameAlloc, frame}
use moonlight_os.Alloc.Color.{frame-FrameRun, align_lem}
use moonlight_os.Alloc.Ranges.{InPool, frame-IsFresh}
use moonlight_os.Vspace.{Vspace, PtState, alloc_from, alloc_pool, alloc_pt_page}

-- The first page that no table uses.
abbrev pub frontier : Vspace → PtState → ℕ
frontier vs s = if vs.has_alloc then s.alloc.next / page_size else s.pool + s.fallback_next

-- The allocator works on whole pages below 2^56, and the pool without one lies there too.
pub record IsReady (s : PtState) : Type 0 where
  pub pool : InPool s.alloc
  pub whole : s.alloc.next % page_size ≡ 0
  pub top : s.alloc.top < 2 ^ 56
  pub static : s.pool + 64 ≤ 2 ^ 44

-- A page that was allocated for a table.
pub record IsAllocated (vs : Vspace) (s : PtState) (p : ℕ) (vs' : Vspace) (s' : PtState)
    : Type 0 where
  pub unused : frontier vs s ≤ p
  pub used : p < frontier vs' s'
  pub small : p < 2 ^ 44
  pub pages : s'.pages ≡ set s.pages p (fill 0)
  pub ready : IsReady s'
  pub kept : (vs'.root ≡ vs.root) × (vs'.has_alloc ≡ vs.has_alloc)

frame-page :
    (a a' : FrameAlloc) (part : ℕ) (c : Cap)
    → InPool a
    → a.next % page_size ≡ 0
    → frame a part page_size zero_cap ≡ (ok, c, a')
    → (a.next / page_size ≤ pointer c.u / page_size)
      × (pointer c.u / page_size < a'.next / page_size)
      × (a'.next % page_size ≡ 0)
      × (pointer c.u < a'.next)
frame-page a a' part c pool whole e =
    let r = frame-FrameRun a part page_size zero_cap c a' e in
    let at =
      align_lem 16 (2 * part) a.next (omega (arith, r.partition)) (omega arith)
        (omega (arith, pool.high, pool.room)) in
    let f = frame-IsFresh a part page_size zero_cap c a' pool (omega arith) e in
    let start = f.start in
    let stop = f.stop in let here = r.paddr in (omega arith, omega arith, omega arith, omega arith)

-- What stays when no page is left.
pub record IsRefused (vs : Vspace) (s : PtState) (vs' : Vspace) (s' : PtState) : Type 0 where
  pub pages : s'.pages ≡ s.pages
  pub ready : IsReady s'
  pub kept : (vs'.root ≡ vs.root) × (vs'.has_alloc ≡ vs.has_alloc)
  pub room : frontier vs s ≤ frontier vs' s'

abbrev pub AllocExplains : Vspace → PtState → Option ℕ × Vspace × PtState → Type 0
AllocExplains vs s (none, vs', s') = IsRefused vs s vs' s'
AllocExplains vs s (some p, vs', s') = IsAllocated vs s p vs' s'

refused : (vs : Vspace) (s : PtState) → IsReady s → AllocExplains vs s (none, vs, s)
refused vs s ready = record { pages = refl; ready = ready; kept = (refl, refl); room = omega arith }

frame-refused :
    (a : FrameAlloc) (part : ℕ)
    → is_ok (frame a part page_size zero_cap).0 ≡ false
    → (frame a part page_size zero_cap).2 ≡ a
unfolding frame
frame-refused a part e = ground arith

frame-ok :
    (a : FrameAlloc) (part : ℕ)
    → is_ok (frame a part page_size zero_cap).0 ≡ true
    → frame a part page_size zero_cap
      ≡ (ok, (frame a part page_size zero_cap).1, (frame a part page_size zero_cap).2)
unfolding frame
frame-ok a part e = ground arith

alloc_from-Explains :
    (vs : Vspace) (s : PtState)
    → vs.has_alloc ≡ true
    → IsReady s
    → AllocExplains vs s (alloc_from vs s)
unfolding alloc_from
alloc_from-Explains vs s on ready =
    let r = frame s.alloc vs.partition_id page_size zero_cap in
    elim (Bool-cases (is_ok r.0)) [
      | inl good ↦
          let ran = frame-ok s.alloc vs.partition_id good in
          let (unused, used, whole, inside) =
            frame-page s.alloc r.2 vs.partition_id r.1 ready.pool ready.whole ran in
          let f =
            frame-IsFresh s.alloc vs.partition_id page_size zero_cap r.1 r.2 ready.pool
              (omega arith) ran in
          let run = frame-FrameRun s.alloc vs.partition_id page_size zero_cap r.1 r.2 ran in
          rw good (record {
            unused = rw on unused;
            used = rw on used;
            small = let h = f.pool.high in let l = run.limits.1 in let t = ready.top in omega arith;
            pages = refl;
            ready = record {
              pool = f.pool;
              whole = whole;
              top = omega (arith, run.limits.1, ready.top);
              static = ready.static;
            };
            kept = (refl, refl);
          })
      | inr bad ↦ rw bad (rw (frame-refused s.alloc vs.partition_id bad) (refused vs s ready))
    ]

alloc_pool-Explains :
    (vs : Vspace) (s : PtState)
    → vs.has_alloc ≡ false
    → IsReady s
    → AllocExplains vs s (alloc_pool vs s)
unfolding alloc_pool
alloc_pool-Explains vs s off ready = elim (Bool-cases (leb 64 s.fallback_next)) [
  | inl full ↦ rw full (refused vs s ready)
  | inr room ↦ rw room (record {
    unused = rw off (omega arith);
    used = rw off (omega arith);
    small = let h = ready.static in ground arith;
    pages = refl;
    ready = record {
      pool = ready.pool;
      whole = ready.whole;
      top = ready.top;
      static = ready.static;
    };
    kept = (refl, refl);
  })
]

choose_then {ℓ} : {A : Type ℓ} (b : Bool) (x y : A) → b ≡ true → (if b then x else y) ≡ x
choose_then b x y e = rw e refl

choose_else {ℓ} : {A : Type ℓ} (b : Bool) (x y : A) → b ≡ false → (if b then x else y) ≡ y
choose_else b x y e = rw e refl

-- The page of a new table was used by no table before, is below 2^44, and is cleared; without a page left
-- nothing changes.
pub alloc_pt_page-Explains :
    (vs : Vspace) (s : PtState) → IsReady s → AllocExplains vs s (alloc_pt_page vs s)
unfolding alloc_pt_page
alloc_pt_page-Explains vs s ready =
    elim (Bool-cases (leb 64 vs.pt_caps_count || leb 64 vs.pt_pages_used)) [
      | inl full ↦ rw full (refused vs s ready)
      | inr room ↦ rw room (elim (Bool-cases vs.has_alloc) [
        | inl on ↦
            subst (λ r. AllocExplains vs s r) (sym (choose_then vs.has_alloc _ _ on))
              (alloc_from-Explains vs s on ready)
        | inr off ↦
            subst (λ r. AllocExplains vs s r) (sym (choose_else vs.has_alloc _ _ off))
              (alloc_pool-Explains vs s off ready)
      ])
    ]
