-- ===== src/Alloc/Ranges.antt =====
-- The physical ranges that the frame allocator hands out (kernel/src/alloc.c).
use moonlight_os.Prelude.{
  ℕ, ◌+◌, ◌-◌, ◌*◌, ◌%◌, ◌^◌, ◌≤◌, ◌<◌, ◌≡◌, inl, inr, refl, ◌∙◌, ap, Bool-cases, if◌then◌else◌,
  arith, true, false, List, [], ◌∷◌, add64,
}
use moonlight_os.Types.{ok, is_ok, page_size}
use moonlight_os.Cap.{Cap, zero_cap, pointer}
use moonlight_os.Alloc.{FrameAlloc, init, align, frame_cap, frame}
use moonlight_os.Alloc.Color.{color_for_partition_lem, frame-FrameRun, align_lem}

-- The next free address lies in the pool, and the pool in the lower quarter of the address space.
pub record InPool (a : FrameAlloc) : Type 0 where
  pub low : a.base ≤ a.next
  pub high : a.next ≤ a.top
  pub room : a.top < 2 ^ 62

pub init-InPool : (base size : ℕ) → base + size < 2 ^ 62 → InPool (init base size)
unfolding init
init-InPool base size h = omega arith

-- Where a new frame lies.
pub record IsFresh (a : FrameAlloc) (size : ℕ) (c : Cap) (a' : FrameAlloc) : Type 0 where
  pub start : a.next ≤ pointer c.u
  pub near : pointer c.u < a.next + 16 * page_size
  pub stop : pointer c.u + size ≡ a'.next
  pub bounds : (c.hw_cap.base ≡ pointer c.u) × (c.hw_cap.top ≡ pointer c.u + size)
  pub pool : InPool a'

-- A frame that is allocated from a pool starts at or after the free address, within one colour cycle
-- of it, ends where the free address is then, has the frame's exact bounds, and leaves the free
-- address in the pool; given that its size is below `2 ^ 63`.
pub frame-IsFresh :
    (a : FrameAlloc) (part size : ℕ) (out c : Cap) (a' : FrameAlloc)
    → InPool a
    → size < 2 ^ 63
    → frame a part size out ≡ (ok, c, a')
    → IsFresh a size c a'
frame-IsFresh a part size out c a' pool small e =
    let r = frame-FrameRun a part size out c a' e in
    let at =
      align_lem 16 (2 * part) a.next (omega (arith, r.partition)) (omega arith)
        (omega (arith, pool.high, pool.room)) in
    let cap_at = ap (λ (c : Cap). c.hw_cap.base) r.cap in
    let cap_top = ap (λ (c : Cap). c.hw_cap.top) r.cap in
    record {
      start = omega (arith, at, r.paddr);
      near = omega (arith, at, r.paddr);
      stop = omega (arith, at, r.paddr, r.next, pool.room, pool.high);
      bounds = (
        omega (arith, cap_at, r.paddr),
        omega (arith, cap_top, at, r.paddr, pool.room, pool.high),
      );
      pool = record {
        low = omega (arith, at, r.next, r.limits.0, pool.low, pool.high, pool.room);
        high = omega (arith, r.next, r.fits, r.limits.1);
        room = omega (arith, r.limits.1, pool.room);
      };
    }

-- Requests in turn; the frames that they are given.
unfoldable pub allocate_all : FrameAlloc → List (ℕ × ℕ) → List Cap × FrameAlloc
allocate_all a [] = ([], a)
allocate_all a ((part, size) ∷ requests) =
    let (e, c, a') = frame a part size zero_cap in
    let (cs, a'') = allocate_all a' requests in (if is_ok e then c ∷ cs else cs, a'')

-- The frames lie one after another from `lo` to `hi`.
abbrev pub InOrder : ℕ → ℕ → List Cap → Type 0
InOrder lo hi [] = lo ≤ hi
InOrder lo hi (c ∷ cs) =
    (lo ≤ c.hw_cap.base) × (c.hw_cap.base ≤ c.hw_cap.top) × InOrder c.hw_cap.top hi cs

abbrev pub AllSmall : List (ℕ × ℕ) → Type 0
AllSmall [] = Unit {0}
AllSmall ((part, size) ∷ requests) = (size < 2 ^ 63) × AllSmall requests

frame-err :
    (a : FrameAlloc) (part size : ℕ) (out : Cap)
    → is_ok (frame a part size out).0 ≡ false
    → (frame a part size out).2 ≡ a
unfolding frame
frame-err a part size out e = ground arith

is_ok-eq :
    (a : FrameAlloc) (part size : ℕ) (out : Cap)
    → is_ok (frame a part size out).0 ≡ true
    → frame a part size out ≡ (ok, (frame a part size out).1, (frame a part size out).2)
unfolding frame
is_ok-eq a part size out e = ground arith

InOrder-within :
    (lo lo' hi hi' : ℕ) (cs : List Cap)
    → lo ≡ lo'
    → hi' ≡ hi
    → InOrder lo' hi' cs
    → InOrder lo hi cs
InOrder-within lo lo' hi hi' [] l h o = omega arith
InOrder-within lo lo' hi hi' (c ∷ cs) l h o =
    (omega arith, o.1, InOrder-within c.hw_cap.top c.hw_cap.top hi hi' cs refl h o.2)

-- The frames that a pool gives out, in any number of requests by any partitions, never overlap, and lie
-- between the pool's free address and its end, if the free address is not before the base and not behind the
-- end, the end is below 2^62, and every requested size is below 2^63.
pub allocate_all-InOrder :
    (requests : List (ℕ × ℕ)) (a : FrameAlloc)
    → InPool a
    → AllSmall requests
    → InOrder a.next a.top (allocate_all a requests).0
unfolding allocate_all
allocate_all-InOrder [] a pool small = pool.high
allocate_all-InOrder ((part, size) ∷ requests) a pool small =
    elim (Bool-cases (is_ok (frame a part size zero_cap).0)) [
      | inl good ↦
          let ran = is_ok-eq a part size zero_cap good in
          let f = frame-IsFresh a part size zero_cap _ _ pool small.0 ran in
          let r = frame-FrameRun a part size zero_cap _ _ ran in
          let rest = allocate_all-InOrder requests (frame a part size zero_cap).2 f.pool small.1 in
          rw good (
            omega (arith, f.start, f.bounds.0),
            omega (arith, f.bounds.0, f.bounds.1),
            InOrder-within _ _ _ _ _ (f.bounds.1 ∙ f.stop) r.limits.1 rest,
          )
      | inr bad ↦
          rw (bad, frame-err a part size zero_cap bad)
            (allocate_all-InOrder requests a pool small.1)
    ]

frame-accepts :
    (a : FrameAlloc) (part size : ℕ) (out : Cap)
    → size % page_size ≡ 0
    → part < 8
    → add64 (align 16 (2 * part) a.next) size ≤ a.top
    → (is_ok (frame a part size out).0 ≡ true)
      × ((frame a part size out).1 ≡ frame_cap (align 16 (2 * part) a.next) size (2 * part))
unfolding frame
frame-accepts a part size out pages h fits = ground (arith, color_for_partition_lem part h)

-- A size that wraps the sum in the bounds check is accepted: for 2^64 - 4096 bytes, of a pool with 16 pages
-- left, the capability ends a page below its start.
pub frame-wraps :
    (a : FrameAlloc) (part size : ℕ) (out : Cap)
    → InPool a
    → a.next + 16 * page_size ≤ a.top
    → page_size ≤ a.next
    → part < 8
    → size ≡ 2 ^ 64 - page_size
    → (is_ok (frame a part size out).0 ≡ true)
      × ((frame a part size out).1.hw_cap.top + page_size ≡ (frame a part size out).1.hw_cap.base)
frame-wraps a part size out pool room low h e =
    let at =
      align_lem 16 (2 * part) a.next (omega arith) (omega arith)
        (omega (arith, pool.high, pool.room)) in
    let ran =
      frame-accepts a part size out (omega arith) h (omega (arith, at, pool.room, pool.high)) in
    (ran.0, rw ran.1 (omega (arith, at, pool.room, pool.high)))
