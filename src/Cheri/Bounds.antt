-- ===== src/Cheri/Bounds.antt =====
-- The bounds of a capability confine the checked copy of kernel/src/cheri.c.
use moonlight_os.Prelude.{
  ℕ, zero, suc, ◌+◌, ◌^◌, ◌≤◌, ◌<◌, ◌≡◌, ◌⊎◌, inl, inr, refl, ◌∙◌, ap, arith, true, false, some,
  Array, set, set_ne, set_self, add64,
}
use moonlight_os.Cheri.{SimCap, memcpy, memcpy_capped}

step_fits : (n d : ℕ) → d + suc n < 2 ^ 64 → add64 d 1 ≡ d + 1
step_fits n d fits = omega arith

-- A copy that does not run past the end of the address space leaves everything else alone.
pub memcpy-outside :
    (n d : ℕ) (src mem : Array ℕ) (a : ℕ)
    → d + n < 2 ^ 64
    → (a < d) ⊎ (d + n ≤ a)
    → memcpy d src n mem a ≡ mem a
unfolding memcpy
memcpy-outside zero d src mem a fits out = refl
memcpy-outside (suc n) d src mem a fits out = rw (step_fits n d fits) (
    memcpy-outside n (d + 1) (λ i. src (i + 1)) (set mem d (src 0)) a (omega arith) (omega arith)
    ∙ set_ne mem d a (src 0) (omega arith))

pub memcpy-inside :
    (n d : ℕ) (src mem : Array ℕ) (i : ℕ)
    → d + n < 2 ^ 64
    → i < n
    → memcpy d src n mem (d + i) ≡ src i
unfolding memcpy
memcpy-inside zero d src mem i fits h = absurd (omega arith)
memcpy-inside (suc n) d src mem zero fits h =
    let here : d + 0 ≡ d = omega arith in
    rw (step_fits n d fits, here)
      (memcpy-outside n (d + 1) (λ i. src (i + 1)) (set mem d (src 0)) d (omega arith) (omega arith)
        ∙ set_self mem d (src 0))
memcpy-inside (suc n) d src mem (suc i) fits h =
    let later : d + suc i ≡ d + 1 + i = omega arith in
    let shift : i + 1 ≡ suc i = omega arith in
    rw (step_fits n d fits, later)
      (memcpy-inside n (d + 1) (λ i. src (i + 1)) (set mem d (src 0)) i (omega arith) (omega arith)
        ∙ ap src shift)

-- What a checked copy promises of its capability, its result and the memory that it leaves.
pub record CopiesWithin (c : SimCap) (src : Array ℕ) (len : ℕ) (mem mem' : Array ℕ) : Type 0 where
  pub tagged : c.tag ≡ true
  pub unsealed : c.sealed ≡ false
  pub above : c.base ≤ c.addr
  pub below : c.addr + len ≤ c.top
  pub copied : (i : ℕ) → i < len → mem' (c.addr + i) ≡ src i
  pub untouched : (a : ℕ) → (a < c.base) ⊎ (c.top ≤ a) → mem' a ≡ mem a

-- What the checks of the copy establish, once they pass.
record Passed (c : SimCap) (src : Array ℕ) (len p : ℕ) (mem mem' : Array ℕ) : Type 0 where
  tagged : c.tag ≡ true
  unsealed : c.sealed ≡ false
  above : c.base ≤ c.addr
  below : add64 c.addr len ≤ c.top
  pointer : p ≡ c.addr
  memory : mem' ≡ memcpy c.addr src len mem

memcpy_capped-guards :
    (c : SimCap) (src : Array ℕ) (len p : ℕ) (mem mem' : Array ℕ)
    → memcpy_capped c src len mem ≡ (some p, mem')
    → Passed c src len p mem mem'
unfolding memcpy_capped
memcpy_capped-guards c src len p mem mem' e = ground arith

-- A copy through a capability that returns a pointer has a tagged, unsealed capability and stays in
-- its bounds, given that `addr + len` does not wrap and `top` is an address: it fills the bytes
-- from `addr` with the source's, and changes no byte outside `[base, top)`.
pub memcpy_capped-CopiesWithin :
    (c : SimCap) (src : Array ℕ) (len p : ℕ) (mem mem' : Array ℕ)
    → c.top < 2 ^ 64
    → c.addr + len < 2 ^ 64
    → memcpy_capped c src len mem ≡ (some p, mem')
    → CopiesWithin c src len mem mem'
memcpy_capped-CopiesWithin c src len p mem mem' top nowrap e =
    let r = memcpy_capped-guards c src len p mem mem' e in
    record {
      tagged = r.tagged;
      unsealed = r.unsealed;
      above = r.above;
      below = omega (arith, r.below);
      copied = λ i h. rw r.memory (memcpy-inside len c.addr src mem i nowrap h);
      untouched = λ a out.
          rw r.memory (memcpy-outside len c.addr src mem a nowrap (outside r.above r.below a out));
    }
  where
    outside :
        c.base ≤ c.addr
        → add64 c.addr len ≤ c.top
        → (a : ℕ) → (a < c.base) ⊎ (c.top ≤ a)
        → (a < c.addr) ⊎ (c.addr + len ≤ a)
    outside lo hi a (inl h) = inl (omega arith)
    outside lo hi a (inr h) = inr (omega arith)
