-- ===== src/Alloc/Color.antt =====
-- Colours of frames (kernel/src/alloc.c).
use native.Mathlib.Decide.{ℕ_discrete}
use moonlight_os.Prelude.{
  ne→==, ==_iff, sym, ◌∙◌, ℕ, zero, suc, ◌+◌, ◌-◌, ◌*◌, ◌/◌, ◌%◌, ◌^◌, ◌≤◌, ◌<◌, ◌≡◌, ◌≢◌, ◌↔◌,
  arith, true, add64,
}
use moonlight_os.Types.{ok, page_size}
use moonlight_os.Cap.{Cap, pointer}
use moonlight_os.Alloc.{
  FrameAlloc, color_for_partition, color_is_valid, color_of, align, frame_cap, frame,
}

color_step : (p : ℕ) → color_of (add64 p page_size) ≡ (color_of p + 1) % 16
color_step p = omega arith

-- How many pages on the colour is.
abbrev distance : ℕ → ℕ → ℕ
distance color p = (color + 16 - color_of p) % 16

distance_step :
    (color p : ℕ)
    → color < 16
    → color_of p ≢ color
    → distance color (add64 p page_size) + 1 ≡ distance color p
distance_step color p h ne = omega arith

-- Within 16 rounds the loop ends, at a page of the colour that it looks for.
pub align-color :
    (fuel color p : ℕ)
    → color < 16
    → distance color p < fuel
    → color_of (align fuel color p) ≡ color
unfolding align
align-color zero color p h enough = absurd (omega arith)
align-color (suc fuel) color p h enough = elim (ℕ_discrete (color_of p) color) [
  | yes here ↦ ground arith
  | no other ↦
      rw (ne→== (color_of p) color other) (
        align-color fuel color (add64 p page_size) h (omega (arith, distance_step color p h other)))
]

align_next :
    (fuel color p : ℕ)
    → color_of p ≢ color
    → distance color (add64 p page_size) + 1 ≡ distance color p
    → align fuel color (add64 p page_size)
      ≡ add64 p page_size + 4096 * distance color (add64 p page_size)
    → p + 4096 * distance color p < 2 ^ 64
    → align fuel color (add64 p page_size) ≡ p + 4096 * distance color p
align_next fuel color p ne closer rest fits = omega arith

align_fits :
    (color p : ℕ)
    → distance color (add64 p page_size) + 1 ≡ distance color p
    → p + 4096 * distance color p < 2 ^ 64
    → add64 p page_size + 4096 * distance color (add64 p page_size) < 2 ^ 64
align_fits color p closer fits = omega arith

-- The loop skips as few pages as it can, where the address does not wrap.
pub align_lem :
    (fuel color p : ℕ)
    → color < 16
    → distance color p < fuel
    → p + 4096 * distance color p < 2 ^ 64
    → align fuel color p ≡ p + 4096 * distance color p
unfolding align
align_lem zero color p h enough fits = absurd (omega arith)
align_lem (suc fuel) color p h enough fits = elim (ℕ_discrete (color_of p) color) [
  | yes here ↦ rw ((==_iff (color_of p) color).1 here) (omega arith)
  | no other ↦ rw (ne→== (color_of p) color other) (
      align_next fuel color p other (distance_step color p h other)
        (align_lem fuel color (add64 p page_size) h (omega (arith, distance_step color p h other))
          (align_fits color p (distance_step color p h other) fits))
        fits)
]

pub color_for_partition_lem : (p : ℕ) → p < 8 → color_for_partition p ≡ 2 * p
unfolding color_for_partition
color_for_partition_lem p h = omega arith

-- A colour is valid for a partition below 8 exactly if it is one of its two, and no colour is valid for
-- two of them.
pub color_is_valid_iff : (p c : ℕ) → p < 8 → (color_is_valid p c ≡ true) ↔ (c / 2 ≡ p)
unfolding color_is_valid color_for_partition
color_is_valid_iff p c h = ground arith

pub color_is_valid-disjoint :
    (p q c : ℕ) → p < 8 → q < 8 → color_is_valid p c ≡ true → color_is_valid q c ≡ true → p ≡ q
color_is_valid-disjoint p q c hp hq vp vq =
    sym ((color_is_valid_iff p c hp).0 vp) ∙ (color_is_valid_iff q c hq).0 vq

-- A frame that was allocated.
pub record FrameRun (a : FrameAlloc) (part size : ℕ) (c : Cap) (a' : FrameAlloc) : Type 0 where
  pub whole_pages : size % page_size ≡ 0
  pub partition : part < 8
  pub paddr : pointer c.u ≡ align 16 (2 * part) a.next
  pub cap : c ≡ frame_cap (align 16 (2 * part) a.next) size (2 * part)
  pub fits : add64 (align 16 (2 * part) a.next) size ≤ a.top
  pub next : a'.next ≡ add64 (align 16 (2 * part) a.next) size
  pub limits : (a'.base ≡ a.base) × (a'.top ≡ a.top)

pub frame-FrameRun :
    (a : FrameAlloc) (part size : ℕ) (out c : Cap) (a' : FrameAlloc)
    → frame a part size out ≡ (ok, c, a')
    → FrameRun a part size c a'
unfolding frame
frame-FrameRun a part size out c a' e = ground (arith, color_for_partition_lem part)

-- Page `k` of an allocated frame has the colour `2 * partition + k`, modulo 16, given that the frame
-- does not run past the end of the address space.
pub frame-color :
    (a : FrameAlloc) (part size : ℕ) (out c : Cap) (a' : FrameAlloc)
    → frame a part size out ≡ (ok, c, a')
    → (k : ℕ) → color_of (pointer c.u + 4096 * k) ≡ (2 * part + k) % 16
frame-color a part size out c a' e k =
    let r = frame-FrameRun a part size out c a' e in
    let aligned = align-color 16 (2 * part) a.next (omega (arith, r.partition)) (omega arith) in
    omega (arith, aligned, r.paddr, r.partition)

-- Every page of an allocated frame of at most two pages has a colour that is valid for its partition.
pub frame-color_is_valid :
    (a : FrameAlloc) (part size : ℕ) (out c : Cap) (a' : FrameAlloc)
    → frame a part size out ≡ (ok, c, a')
    → size ≤ 2 * page_size
    → (k : ℕ) → page_size * k < size
    → color_is_valid part (color_of (pointer c.u + page_size * k)) ≡ true
frame-color_is_valid a part size out c a' e small k inside =
    let r = frame-FrameRun a part size out c a' e in
    (color_is_valid_iff part _ r.partition).1
      (omega (arith, frame-color a part size out c a' e k, r.partition))

-- The third page of an allocated frame of more than two pages is not of the partition's colours, but of
-- the next partition's.
pub frame-color_leaks :
    (a : FrameAlloc) (part size : ℕ) (out c : Cap) (a' : FrameAlloc)
    → frame a part size out ≡ (ok, c, a')
    → 2 * page_size < size
    → (color_is_valid part (color_of (pointer c.u + page_size * 2)) ≢ true)
      × (color_is_valid ((part + 1) % 8) (color_of (pointer c.u + page_size * 2)) ≡ true)
frame-color_leaks a part size out c a' e large =
    let r = frame-FrameRun a part size out c a' e in
    let third = frame-color a part size out c a' e 2 in
    (
      λ own.
          absurd (omega (arith, third, (color_is_valid_iff part _ r.partition).0 own, r.partition)),
      (color_is_valid_iff ((part + 1) % 8) _ (omega arith)).1 (omega (arith, third, r.partition)),
    )
