-- ===== src/Vspace/Resolve.antt =====
-- A page that is mapped resolves to its frame (kernel/src/vspace.c).
use native.Mathlib.Nat.{pow-suc}
use moonlight_os.Prelude.{
  ℕ, zero, suc, ◌+◌, ◌*◌, ◌/◌, ◌%◌, ◌^◌, ◌≤◌, ◌<◌, ◌≡◌, ◌≢◌, refl, sym, ap, ◌∙◌, arith, true, false,
  none, some, set, set_self, set_ne, bit_or,
}
use moonlight_os.Prelude.BitOr.{bit_or-digit, zero-bit_or}
use moonlight_os.Types.{ok}
use moonlight_os.Vspace.{
  Vspace, PtState, pte_encode, pte_ppn, next_table, is_present, vpn2, vpn1, vpn0, write_entry,
  step_table, map_leaf, map_page, unmap_page, resolve,
}

bit_or-none_fuel : (n a : ℕ) → a ≤ n → bit_or a 0 ≡ a
bit_or-none_fuel zero a h = let e : a ≡ 0 = omega arith in rw e (zero-bit_or 0)
bit_or-none_fuel (suc n) zero h = zero-bit_or 0
bit_or-none_fuel (suc n) (suc a) h =
    omega (arith, bit_or-digit (suc a) 0, bit_or-none_fuel n (suc a / 2) (omega arith))

double_shift : (n x : ℕ) → x * 2 ^ suc n ≡ x * 2 ^ n * 2
double_shift n x = grind (arith, pow-suc 2 n)

join : (a f : ℕ) → bit_or a (f / 2) ≡ a + f / 2 → bit_or (a * 2) f ≡ a * 2 + f
join a f upper =
    let halves : a * 2 / 2 ≡ a = omega arith in
    let digits = bit_or-digit (a * 2) f in let split = rw (halves, upper) at digits in omega arith

-- Flags below a shifted number are added to it.
pub bit_or-shift : (n x f : ℕ) → f < 2 ^ n → bit_or (x * 2 ^ n) f ≡ x * 2 ^ n + f
bit_or-shift zero x f h =
    let none_set : f ≡ 0 = omega arith in
    rw none_set (omega (arith, bit_or-none_fuel (x * 1) (x * 1) (omega arith)))
bit_or-shift (suc n) x f h =
    let even = double_shift n x in
    rw even (join (x * 2 ^ n) f (bit_or-shift n x (f / 2) (omega (arith, pow-suc 2 n))))

pub pte_encode-parts :
    (ppn flags : ℕ) → ppn < 2 ^ 54 → flags < 2 ^ 10 → pte_encode ppn flags ≡ ppn * 2 ^ 10 + flags
pte_encode-parts ppn flags small few =
    let whole : ppn * 2 ^ 10 % 2 ^ 64 ≡ ppn * 2 ^ 10 = omega arith in
    rw whole (bit_or-shift 10 ppn flags few)

-- The tables of a walk that is there: both upper entries are present, and the last table is another page
-- than the two above it.
pub record IsWalk (s : PtState) (root l1 l0 va : ℕ) : Type 0 where
  pub upper : is_present (s.pages root (vpn2 va)) ≡ true
  pub upper_next : next_table (s.pages root (vpn2 va)) ≡ l1
  pub middle : is_present (s.pages l1 (vpn1 va)) ≡ true
  pub middle_next : next_table (s.pages l1 (vpn1 va)) ≡ l0
  pub apart : (root ≢ l0) × (l1 ≢ l0)

step_table-present :
    (vs : Vspace) (s : PtState) (table idx : ℕ)
    → is_present (s.pages table idx) ≡ true
    → step_table vs s table idx ≡ (some (next_table (s.pages table idx)), vs, s)
unfolding step_table
step_table-present vs s table idx e = ground arith

map_page-walk :
    (vs : Vspace) (s : PtState) (root l1 l0 va pa flags : ℕ)
    → IsWalk s root l1 l0 va
    → map_page vs s root va pa flags ≡ map_leaf vs s l0 (vpn0 va) (pte_encode (pa / 2 ^ 12) flags)
unfolding map_page
map_page-walk vs s root l1 l0 va pa flags w =
    let first =
      step_table-present vs s root (vpn2 va) w.upper
      ∙ ap (λ (t : ℕ). (some t, vs, s)) w.upper_next in
    let second =
      step_table-present vs s l1 (vpn1 va) w.middle
      ∙ ap (λ (t : ℕ). (some t, vs, s)) w.middle_next in
    rw (first, map_page) (rw first (rw second (rw first (rw second refl))))

-- A write to the last table of a walk leaves the walk.
write_entry-IsWalk :
    (s : PtState) (root l1 l0 va idx pte : ℕ)
    → IsWalk s root l1 l0 va
    → IsWalk (write_entry s l0 idx pte) root l1 l0 va
write_entry-IsWalk s root l1 l0 va idx pte w = record {
  upper = rw (set_ne s.pages l0 root (set (s.pages l0) idx pte) (λ e. w.apart.0 (sym e))) w.upper;
  upper_next =
      rw (set_ne s.pages l0 root (set (s.pages l0) idx pte) (λ e. w.apart.0 (sym e))) w.upper_next;
  middle = rw (set_ne s.pages l0 l1 (set (s.pages l0) idx pte) (λ e. w.apart.1 (sym e))) w.middle;
  middle_next =
      rw (set_ne s.pages l0 l1 (set (s.pages l0) idx pte) (λ e. w.apart.1 (sym e))) w.middle_next;
  apart = w.apart;
}

resolve-walk :
    (vs : Vspace) (s : PtState) (root l1 l0 va : ℕ)
    → vs.root ≡ some root
    → IsWalk s root l1 l0 va
    → is_present (s.pages l0 (vpn0 va)) ≡ true
    → resolve vs s va
      ≡ some (bit_or (pte_ppn (s.pages l0 (vpn0 va)) * 2 ^ 12 % 2 ^ 64) (va % 2 ^ 12))
unfolding resolve
resolve-walk vs s root l1 l0 va rooted w leaf =
    rw (rooted, w.upper_next, w.middle_next, w.upper, w.middle, leaf, resolve) refl

pub present_odd :
    (pte q flags : ℕ) → pte ≡ q * 2 ^ 10 + flags → flags % 2 ≡ 1 → is_present pte ≡ true
present_odd pte q flags parts valid = let odd : pte % 2 ≡ 1 = omega arith in ground arith

pub frame_of :
    (pte q flags : ℕ)
    → pte ≡ q * 2 ^ 10 + flags
    → flags < 2 ^ 10
    → q < 2 ^ 44
    → pte_ppn pte * 2 ^ 12 % 2 ^ 64 ≡ q * 2 ^ 12
frame_of pte q flags parts few small = omega arith

pub entry_written :
    (s : PtState) (table idx pte : ℕ) → (write_entry s table idx pte).pages table idx ≡ pte
entry_written s table idx pte =
    rw (set_self s.pages table (set (s.pages table) idx pte)) (set_self (s.pages table) idx pte)

pub map_leaf-free :
    (vs : Vspace) (s : PtState) (table idx pte : ℕ)
    → is_present (s.pages table idx) ≡ false
    → map_leaf vs s table idx pte ≡ (ok, vs, write_entry s table idx pte)
unfolding map_leaf
map_leaf-free vs s table idx pte free = rw (free, map_leaf) refl

unmap_page-walk :
    (s : PtState) (root l1 l0 va : ℕ)
    → IsWalk s root l1 l0 va
    → unmap_page s root va ≡ write_entry s l0 (vpn0 va) 0
unfolding unmap_page
unmap_page-walk s root l1 l0 va w =
    rw (w.upper, w.upper_next, w.middle, w.middle_next, unmap_page) refl

resolve-absent :
    (vs : Vspace) (s : PtState) (root l1 l0 va : ℕ)
    → vs.root ≡ some root
    → IsWalk s root l1 l0 va
    → is_present (s.pages l0 (vpn0 va)) ≡ false
    → resolve vs s va ≡ none
unfolding resolve
resolve-absent vs s root l1 l0 va rooted w leaf =
    rw (rooted, w.upper_next, w.middle_next, w.upper, w.middle, leaf, resolve) refl

unmap_page-resolve :
    (vs : Vspace) (s : PtState) (root l1 l0 va : ℕ)
    → vs.root ≡ some root
    → IsWalk s root l1 l0 va
    → resolve vs (unmap_page s root va) va ≡ none
unmap_page-resolve vs s root l1 l0 va rooted w = rw (unmap_page-walk s root l1 l0 va w) (
    resolve-absent vs (write_entry s l0 (vpn0 va) 0) root l1 l0 va rooted
      (write_entry-IsWalk s root l1 l0 va (vpn0 va) 0 w)
      (ap is_present (entry_written s l0 (vpn0 va) 0)))

-- Mapping a page into tables that are there, the last of them apart from the two above it and free at the
-- page, succeeds. The address then resolves to the frame, with the offset in the page, and no more once the
-- page is unmapped. The physical address is below 2^56, and the flags are the valid bit and nine others.
pub map_page-resolve :
    (vs : Vspace) (s : PtState) (root l1 l0 va pa flags : ℕ)
    → vs.root ≡ some root
    → IsWalk s root l1 l0 va
    → is_present (s.pages l0 (vpn0 va)) ≡ false
    → pa < 2 ^ 56
    → flags < 2 ^ 10
    → flags % 2 ≡ 1
    → (s' : PtState) × (map_page vs s root va pa flags ≡ (ok, vs, s'))
      × (resolve vs s' va ≡ some (bit_or (pa / 2 ^ 12 * 2 ^ 12) (va % 2 ^ 12)))
      × (resolve vs (unmap_page s' root va) va ≡ none)
map_page-resolve vs s root l1 l0 va pa flags rooted w free small few valid =
    let pte = pte_encode (pa / 2 ^ 12) flags in
    let s' = write_entry s l0 (vpn0 va) pte in
    let whole = pte_encode-parts (pa / 2 ^ 12) flags (omega arith) few in
    let written : s'.pages l0 (vpn0 va) ≡ pte = entry_written s l0 (vpn0 va) pte in
    (
      s',
      map_page-walk vs s root l1 l0 va pa flags w ∙ map_leaf-free vs s l0 (vpn0 va) pte free,
      resolve-walk vs s' root l1 l0 va rooted (write_entry-IsWalk s root l1 l0 va (vpn0 va) pte w)
            (present_odd (s'.pages l0 (vpn0 va)) (pa / 2 ^ 12) flags (written ∙ whole) valid)
          ∙ ap (λ (m : ℕ). some (bit_or m (va % 2 ^ 12)))
              (frame_of (s'.pages l0 (vpn0 va)) (pa / 2 ^ 12) flags (written ∙ whole) few
                (omega arith)),
      unmap_page-resolve vs s' root l1 l0 va rooted
          (write_entry-IsWalk s root l1 l0 va (vpn0 va) pte w),
    )
